-- ===== src/SalesAudit/Days.antt =====
-- The close of a day (services/sales-audit/src/daily-close/daily-close.service.ts, daily-close.repository.ts).
use merchandising_funnel_aut.Common.{
  if◌then◌else◌, number_key, pair_key, ℕ, Option, none, some, ◌∷◌,
}
use merchandising_funnel_aut.Events.{DayClosedEvent}
use merchandising_funnel_aut.Common.Action.{Error, Result, Action, throw, ◌>>◌, modify, ok, err}
use merchandising_funnel_aut.Common.Int.{ℤ, ◌-ℤ◌, ◌==ℤ◌, pos}
use merchandising_funnel_aut.Common.Table.{find, update, upsert}
use merchandising_funnel_aut.SalesAudit.State.{
  Env, DailyCloseStatus, DailyClose, Audit, cashier_line_key,
}

abbrev pub ensure_ledger : ℕ × ℕ → Audit → Audit
ensure_ledger day s = record s { ledgers = upsert day (pos 0) (λ total. total) s.ledgers }

abbrev pub or_zero : Option ℤ → ℤ
or_zero none = pos 0
or_zero (some a) = a

-- Retail Sales' answer wins; the local total stands in for it where the call fails.
abbrev pub cross_checked : Result ℤ → ℤ → ℤ
cross_checked (ok expected_total) local_expected = expected_total
cross_checked (err e) local_expected = local_expected

abbrev pub count_status : ℤ → DailyCloseStatus
count_status discrepancy =
    if discrepancy ==ℤ pos 0
    then DailyCloseStatus.opened
    else DailyCloseStatus.blocked_on_explanation

abbrev pub counted_close : ℤ → ℤ → DailyClose
counted_close expected actual = record {
  expected_total = expected;
  actual_counted_total = some actual;
  discrepancy_amount = some (actual -ℤ expected);
  status = count_status (actual -ℤ expected);
  discrepancy_explanation = none;
  closed_by_manager_id = none;
  closed_at = none;
}

-- `saveCount`: the update leaves who closed the day and when.
abbrev pub recounted : ℤ → ℤ → DailyClose → DailyClose
recounted expected actual c = record c {
  expected_total = expected;
  actual_counted_total = some actual;
  discrepancy_amount = some (actual -ℤ expected);
  status = count_status (actual -ℤ expected);
  discrepancy_explanation = none;
}

unfoldable pub save_count : ℕ × ℕ → ℤ → ℤ → Audit → Audit
save_count day expected actual s = record s {
  closes = upsert day (counted_close expected actual) (recounted expected actual) s.closes;
}

unfoldable pub record_count : Result ℤ → ℕ × ℕ → ℤ → Audit → Audit
unfolding save_count
record_count answer day actual s =
    let ready = ensure_ledger day s in
    let expected = cross_checked answer (or_zero (find day ready.ledgers)) in
    save_count day expected actual ready

abbrev pub explained_status : DailyCloseStatus → DailyCloseStatus
explained_status DailyCloseStatus.blocked_on_explanation = DailyCloseStatus.opened
explained_status status = status

unfoldable pub explain_found : ℕ × ℕ → ℕ → Option DailyClose → Action Audit (Unit {0})
explain_found day explanation none = throw Error.not_found
explain_found day explanation (some close) = modify (λ s. record s {
  closes =
      update day
        (λ c. record c {
          discrepancy_explanation = some explanation;
          status = explained_status close.status;
        })
        s.closes;
})

unfoldable pub explain_discrepancy : ℕ × ℕ → ℕ → Action Audit (Unit {0})
unfolding explain_found
explain_discrepancy day explanation s = explain_found day explanation (find day s.closes) s

-- The log entry and the closed day, in one transaction.
unfoldable pub close_with_log_entry : Env → ℕ × ℕ → ℕ → DailyClose → Audit → Audit
close_with_log_entry env day manager_id close s = record s {
  log =
      record {
        store_id = day.0;
        business_date = day.1;
        discrepancy_amount = or_zero close.discrepancy_amount;
        explanation = close.discrepancy_explanation;
      }
      ∷ s.log;
  closes =
      update day
        (λ c. record c {
          status = DailyCloseStatus.closed;
          closed_by_manager_id = some manager_id;
          closed_at = some env.now;
        })
        s.closes;
}

abbrev pub day_closed_event : Env → ℕ × ℕ → ℕ → DailyClose → ℤ → DayClosedEvent
day_closed_event env day manager_id close actual = record {
  event_id = env.uuid;
  occurred_at = env.now;
  store_id = day.0;
  business_date = day.1;
  expected_total = close.expected_total;
  actual_counted_total = actual;
  discrepancy_amount = or_zero close.discrepancy_amount;
  closed_by_manager_id = manager_id;
}

abbrev pub publish : Env → DayClosedEvent → Action Audit (Unit {0})
publish env event s =
    if env.bus_up
    then (ok tt, record s { published = event ∷ s.published })
    else (err Error.unavailable, s)

unfoldable pub close_with :
    Env → ℕ × ℕ → ℕ → DailyClose → ℤ → DailyCloseStatus → Action Audit (Unit {0})
unfolding close_with_log_entry
close_with env day manager_id close actual DailyCloseStatus.closed = throw Error.bad_request
close_with env day manager_id close actual DailyCloseStatus.blocked_on_explanation =
    throw Error.bad_request
close_with env day manager_id close actual DailyCloseStatus.opened =
    modify (close_with_log_entry env day manager_id close)
    >> publish env (day_closed_event env day manager_id close actual)

unfoldable pub close_counted : Env → ℕ × ℕ → ℕ → DailyClose → Option ℤ → Action Audit (Unit {0})
unfolding close_with
close_counted env day manager_id close none = throw Error.bad_request
close_counted env day manager_id close (some actual) =
    close_with env day manager_id close actual close.status

unfoldable pub close_found : Env → ℕ × ℕ → ℕ → Option DailyClose → Action Audit (Unit {0})
unfolding close_counted
close_found env day manager_id none = throw Error.bad_request
close_found env day manager_id (some close) =
    close_counted env day manager_id close close.actual_counted_total

unfoldable pub close : Env → ℕ × ℕ → ℕ → Action Audit (Unit {0})
unfolding close_found
close env day manager_id s = close_found env day manager_id (find day s.closes) s
