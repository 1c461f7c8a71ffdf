-- ===== src/SalesAudit/Closing.antt =====
-- The close of a day (services/sales-audit/src/daily-close/daily-close.service.ts).
use merchandising_funnel_aut.Common.{
  Bool-cases, number_key, pair_key, All, ℕ, ◌≡◌, refl, ◌∙◌, ◌≢◌, ◌⊎◌, inl, inr, Option, none, some,
  List, [], ◌∷◌,
}
use merchandising_funnel_aut.Events.{ItemSoldEvent, DayClosedEvent}
use merchandising_funnel_aut.Common.Action.{Result, Keeps}
use merchandising_funnel_aut.Common.Int.{ℤ, ◌-ℤ◌, ◌==ℤ◌, ==ℤ_iff, pos}
use merchandising_funnel_aut.Common.Table.{find, Rows, find-Rows, update-Rows, upsert-Rows}
use merchandising_funnel_aut.SalesAudit.Days.{
  publish, or_zero, ensure_ledger, count_status, counted_close, recounted, save_count, record_count,
  explain_found, explain_discrepancy, close_with_log_entry, day_closed_event, close_with,
  close_counted, close_found, close,
}
use merchandising_funnel_aut.SalesAudit.Sales.{is_event_applied, apply_sale, record_sale}
use merchandising_funnel_aut.SalesAudit.State.{
  Env, DailyCloseStatus, DailyClose, DiscrepancyLogEntry, Audit,
}

-- Either the day waits for an explanation, or nothing is to be explained, or it is explained.
abbrev pub IsExplained : DailyClose → Type 0
IsExplained c =
    (c.status ≡ DailyCloseStatus.blocked_on_explanation)
    ⊎ ((or_zero c.discrepancy_amount ≡ pos 0) ⊎ (c.discrepancy_explanation ≢ none))

-- The discrepancy is the counted total less the expected one.
abbrev pub IsExact : DailyClose → Type 0
IsExact c = or_zero c.discrepancy_amount ≡ or_zero c.actual_counted_total -ℤ c.expected_total

abbrev pub IsSound : DailyClose → Type 0
IsSound c = IsExplained c × IsExact c

abbrev pub IsLogged : DiscrepancyLogEntry → Type 0
IsLogged e = (e.discrepancy_amount ≡ pos 0) ⊎ (e.explanation ≢ none)

abbrev pub IsTrue : DayClosedEvent → Type 0
IsTrue e = e.discrepancy_amount ≡ e.actual_counted_total -ℤ e.expected_total

abbrev pub IsAudited : Audit → Type 0
IsAudited s = Rows IsSound s.closes × All IsLogged s.log × All IsTrue s.published

count-IsExplained :
    (c : DailyClose) (d : ℤ)
    → c.status ≡ count_status d
    → or_zero c.discrepancy_amount ≡ d
    → IsExplained c
count-IsExplained c d status amount = elim (Bool-cases (d ==ℤ pos 0)) [
  | inl even ↦ inr (inl (amount ∙ (==ℤ_iff d (pos 0)).0 even))
  | inr uneven ↦ inl (rw (status, uneven))
]

save_count-IsAudited :
    (day : ℕ × ℕ) (expected actual : ℤ) (s : Audit)
    → IsAudited s
    → IsAudited (save_count day expected actual s)
unfolding save_count
save_count-IsAudited day expected actual s (rows, logged, events) =
    let d = actual -ℤ expected in
    (
      upsert-Rows IsSound day (counted_close expected actual) (recounted expected actual) s.closes
          rows (count-IsExplained (counted_close expected actual) d refl refl, refl)
          (λ c sound. (count-IsExplained (recounted expected actual c) d refl refl, refl)),
      logged,
      events,
    )

explain_found-IsAudited :
    (day : ℕ × ℕ) (explanation : ℕ) (found : Option DailyClose) (s : Audit)
    → find day s.closes ≡ found
    → IsAudited s
    → IsAudited (explain_found day explanation found s).1
unfolding explain_found
explain_found-IsAudited day explanation none s here audited = audited
explain_found-IsAudited day explanation (some close) s here (rows, logged, events) =
    let (explained, exact) = find-Rows IsSound day s.closes rows here in
    (update-Rows IsSound day _ s.closes rows here (inr (inr (λ h. cc h)), exact), logged, events)

publish-IsAudited :
    (env : Env) (event : DayClosedEvent) → IsTrue event → Keeps IsAudited (publish env event)
publish-IsAudited env event true_event s (rows, logged, events) = elim (Bool-cases env.bus_up) [
  | inl up ↦ rw up (rows, logged, (true_event, events))
  | inr down ↦ rw down (rows, logged, events)
]

explained_log :
    (c : DailyClose)
    → IsExplained c
    → c.status ≡ DailyCloseStatus.opened
    → (or_zero c.discrepancy_amount ≡ pos 0) ⊎ (c.discrepancy_explanation ≢ none)
explained_log c (inl blocked) opened = absurd (cc (blocked, opened))
explained_log c (inr settled) opened = settled

close_with-IsAudited :
    (env : Env) (day : ℕ × ℕ) (manager_id : ℕ) (close : DailyClose) (actual : ℤ)
    (status : DailyCloseStatus) (s : Audit)
    → find day s.closes ≡ some close
    → close.status ≡ status
    → close.actual_counted_total ≡ some actual
    → IsAudited s
    → IsAudited (close_with env day manager_id close actual status s).1
unfolding close_with close_with_log_entry
close_with-IsAudited env day manager_id close actual DailyCloseStatus.closed s here same counted
      audited =
    audited
close_with-IsAudited env day manager_id close actual DailyCloseStatus.blocked_on_explanation s here
      same counted audited =
    audited
close_with-IsAudited env day manager_id close actual DailyCloseStatus.opened s here same counted
      (rows, logged, events) =
    let (explained, exact) = find-Rows IsSound day s.closes rows here in
    let settled = explained_log close explained same in
    publish-IsAudited env (day_closed_event env day manager_id close actual) (exact ∙ rw counted)
      (close_with_log_entry env day manager_id close s)
      (update-Rows IsSound day _ s.closes rows here (inr settled, exact), (settled, logged), events)

close_counted-IsAudited :
    (env : Env) (day : ℕ × ℕ) (manager_id : ℕ) (close : DailyClose) (counted : Option ℤ) (s : Audit)
    → find day s.closes ≡ some close
    → close.actual_counted_total ≡ counted
    → IsAudited s
    → IsAudited (close_counted env day manager_id close counted s).1
unfolding close_counted
close_counted-IsAudited env day manager_id close none s here same audited = audited
close_counted-IsAudited env day manager_id close (some actual) s here same audited =
    close_with-IsAudited env day manager_id close actual close.status s here refl same audited

close_found-IsAudited :
    (env : Env) (day : ℕ × ℕ) (manager_id : ℕ) (found : Option DailyClose) (s : Audit)
    → find day s.closes ≡ found
    → IsAudited s
    → IsAudited (close_found env day manager_id found s).1
unfolding close_found
close_found-IsAudited env day manager_id none s here audited = audited
close_found-IsAudited env day manager_id (some c) s here audited =
    close_counted-IsAudited env day manager_id c c.actual_counted_total s here refl audited

-- What reaches the service: sales from the bus, counts, explanations and closes.
pub data Step : Type 0 where
  sold : ItemSoldEvent → Step
  counted : Result ℤ → ℕ × ℕ → ℤ → Step
  explained : ℕ × ℕ → ℕ → Step
  closes : Env → ℕ × ℕ → ℕ → Step

unfoldable pub take_step : Step → Audit → Audit
take_step (Step.sold event) s = record_sale event s
take_step (Step.counted answer day actual) s = record_count answer day actual s
take_step (Step.explained day explanation) s = (explain_discrepancy day explanation s).1
take_step (Step.closes env day manager_id) s = (close env day manager_id s).1

abbrev pub run : List Step → Audit → Audit
run [] s = s
run (x ∷ xs) s = run xs (take_step x s)

record_sale-IsAudited :
    (event : ItemSoldEvent) (s : Audit) → IsAudited s → IsAudited (record_sale event s)
unfolding record_sale apply_sale
record_sale-IsAudited event s audited = elim (Bool-cases (is_event_applied event.event_id s)) [
  | inl again ↦ rw again audited
  | inr fresh ↦ rw fresh audited
]

take_step-IsAudited : (x : Step) (s : Audit) → IsAudited s → IsAudited (take_step x s)
unfolding take_step record_count explain_discrepancy close
take_step-IsAudited (Step.sold event) s audited = record_sale-IsAudited event s audited
take_step-IsAudited (Step.counted answer day actual) s audited =
    save_count-IsAudited day _ actual (ensure_ledger day s) audited
take_step-IsAudited (Step.explained day explanation) s audited =
    explain_found-IsAudited day explanation (find day s.closes) s refl audited
take_step-IsAudited (Step.closes env day manager_id) s audited =
    close_found-IsAudited env day manager_id (find day s.closes) s refl audited

-- From tables where it holds, over any run of sales, counts, explanations and closes: every close
-- has the counted total less the expected one as its discrepancy, and waits for an explanation, has
-- no discrepancy or is explained; every entry of the log is without a discrepancy or explained; and
-- every published close of a day tells the difference of the two totals it carries.
pub run-IsAudited : (xs : List Step) (s : Audit) → IsAudited s → IsAudited (run xs s)
run-IsAudited [] s audited = audited
run-IsAudited (x ∷ xs) s audited = run-IsAudited xs _ (take_step-IsAudited x s audited)
