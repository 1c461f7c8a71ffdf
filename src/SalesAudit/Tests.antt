-- ===== src/SalesAudit/Tests.antt =====
-- The close of a store's day at concrete inputs.
use merchandising_funnel_aut.Common.{
  number_key, pair_key, ◌≡◌, refl, true, none, some, List, [], ◌∷◌,
}
use merchandising_funnel_aut.Events.{ItemSoldEvent}
use merchandising_funnel_aut.Common.Action.{Error, err}
use merchandising_funnel_aut.Common.Int.{◌+ℤ◌, ◌-ℤ◌, neg, pos, negsuc}
use merchandising_funnel_aut.Common.Table.{total}
use merchandising_funnel_aut.SalesAudit.Closing.{Step, take_step, run, IsAudited, run-IsAudited}
use merchandising_funnel_aut.SalesAudit.Days.{
  save_count, record_count, explain_found, explain_discrepancy, close_with_log_entry, close_with,
  close_counted, close_found, close,
}
use merchandising_funnel_aut.SalesAudit.Sales.{apply_sale, record_sale}
use merchandising_funnel_aut.SalesAudit.State.{
  Env, DailyCloseStatus, DailyClose, Audit, cashier_line_key,
}
use merchandising_funnel_aut.SalesAudit.Takings.{IsAgreed, record_sale_once}

abbrev evening : Env
evening = record { now = 1000; uuid = 1; bus_up = true }

abbrev first_sale : ItemSoldEvent
first_sale = record {
  event_id = 5;
  occurred_at = 1000;
  transaction_id = 6;
  store_id = 1;
  register_id = 2;
  cashier_id = 3;
  lines = [];
  payment_methods = [];
  total_amount = pos 900;
}

abbrev empty_audit : Audit
empty_audit = record {
  ledgers = [];
  cashier_lines = [];
  applied = [];
  closes = [];
  log = [];
  published = [];
}

abbrev steps : List Step
steps =
    Step.sold first_sale
    ∷ Step.sold first_sale
    ∷ Step.counted (err Error.unavailable) (1, 0) (pos 850)
    ∷ Step.closes evening (1, 0) 4
    ∷ Step.explained (1, 0) 77
    ∷ Step.closes evening (1, 0) 4
    ∷ []

-- The close without an explanation is refused; the one after it is logged and published.
steps_log :
    (run steps empty_audit).log
    ≡ record {
      store_id = 1;
      business_date = 0;
      discrepancy_amount = negsuc 49;
      explanation = some 77;
    }
      ∷ []
unfolding take_step record_sale apply_sale record_count save_count explain_discrepancy explain_found
    close close_found close_counted close_with close_with_log_entry ◌+ℤ◌ ◌-ℤ◌ neg
steps_log = refl

run-IsAudited_example : IsAudited (run steps empty_audit)
run-IsAudited_example = run-IsAudited steps empty_audit (tt, tt, tt)

record_sale_once_example :
    (total (λ a. a) (record_sale first_sale empty_audit).ledgers
      ≡ total (λ a. a) empty_audit.ledgers +ℤ pos 900)
    × IsAgreed (record_sale first_sale empty_audit)
    × (record_sale first_sale (record_sale first_sale empty_audit)
        ≡ record_sale first_sale empty_audit)
record_sale_once_example = record_sale_once first_sale empty_audit refl refl

abbrev closed_day : DailyClose
closed_day = record {
  expected_total = pos 900;
  actual_counted_total = some (pos 900);
  discrepancy_amount = some (pos 0);
  status = DailyCloseStatus.closed;
  discrepancy_explanation = none;
  closed_by_manager_id = some 4;
  closed_at = some 1000;
}

abbrev closed_audit : Audit
closed_audit = record empty_audit {
  ledgers = ((1, 0), pos 900) ∷ [];
  closes = ((1, 0), closed_day) ∷ [];
}
