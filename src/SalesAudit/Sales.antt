-- ===== src/SalesAudit/Sales.antt =====
-- The expected takings of a day, from the sales
-- (services/sales-audit/src/item-sold-ledger/ledger.service.ts, ledger.repository.ts).
use merchandising_funnel_aut.Common.{
  ◌==◌, if◌then◌else◌, number_key, pair_key, any, ℕ, ◌/◌, Bool, ◌∷◌,
}
use merchandising_funnel_aut.Events.{ItemSoldEvent}
use merchandising_funnel_aut.Common.Int.{◌+ℤ◌}
use merchandising_funnel_aut.Common.Table.{upsert}
use merchandising_funnel_aut.SalesAudit.State.{Audit, cashier_line_key}

-- The day of an event: the date in its time of occurrence.
abbrev pub day_of : ItemSoldEvent → ℕ × ℕ
day_of event = (event.store_id, event.occurred_at / 86_400_000)

abbrev pub is_event_applied : ℕ → Audit → Bool
is_event_applied event_id s = any (λ id. id == event_id) s.applied

-- One transaction, none of whose writes throws where the event is not applied yet.
unfoldable pub apply_sale : ItemSoldEvent → Audit → Audit
apply_sale event s =
    let amount = event.total_amount in
    record s {
      ledgers = upsert (day_of event) amount (λ total. total +ℤ amount) s.ledgers;
      cashier_lines =
          upsert (day_of event, (event.cashier_id, event.register_id)) amount
            (λ total. total +ℤ amount) s.cashier_lines;
      applied = event.event_id ∷ s.applied;
    }

unfoldable pub record_sale : ItemSoldEvent → Audit → Audit
unfolding apply_sale
record_sale event s = if is_event_applied event.event_id s then s else apply_sale event s
