-- ===== src/SalesAudit/Takings.antt =====
-- The running totals of a store's day (services/sales-audit/src/item-sold-ledger), and the count
-- that starts its close.
use merchandising_funnel_aut.Common.{
  ==_iff, number_key, pair_key, ℕ, ◌≡◌, refl, sym, ap, ◌∙◌, false, Option,
}
use merchandising_funnel_aut.Events.{ItemSoldEvent}
use merchandising_funnel_aut.Common.Int.{ℤ, ◌+ℤ◌, pos, int_laws}
use merchandising_funnel_aut.Common.Table.{upserted, total, total-upsert}
use merchandising_funnel_aut.SalesAudit.Days.{ensure_ledger, counted_close, recounted}
use merchandising_funnel_aut.SalesAudit.Sales.{day_of, is_event_applied, apply_sale, record_sale}
use merchandising_funnel_aut.SalesAudit.State.{DailyClose, Audit, cashier_line_key}

-- The totals of the days agree with the lines of the cashiers.
abbrev pub IsAgreed : Audit → Type 0
IsAgreed s = total (λ a. a) s.ledgers ≡ total (λ a. a) s.cashier_lines

ensure_ledger-total :
    (day : ℕ × ℕ) (s : Audit)
    → total (λ a. a) (ensure_ledger day s).ledgers ≡ total (λ a. a) s.ledgers
ensure_ledger-total day s =
    total-upsert (λ a. a) day (pos 0) (λ a. a) (pos 0) s.ledgers refl (λ w. omega int_laws)
    ∙ omega int_laws

-- A sale is counted once. The first delivery of an event that is not applied yet adds its amount to
-- the totals of the days and to the lines of the cashiers, so that they go on agreeing; any delivery
-- after it changes nothing.
pub record_sale_once :
    (event : ItemSoldEvent) (s : Audit)
    → is_event_applied event.event_id s ≡ false
    → IsAgreed s
    → (total (λ a. a) (record_sale event s).ledgers
        ≡ total (λ a. a) s.ledgers +ℤ event.total_amount)
      × IsAgreed (record_sale event s)
      × (record_sale event (record_sale event s) ≡ record_sale event s)
unfolding record_sale apply_sale
record_sale_once event s fresh agreed =
    let a = event.total_amount in
    let days = total-upsert (λ b. b) (day_of event) a (λ b. b +ℤ a) a s.ledgers refl (λ w. refl) in
    let lines =
      total-upsert (λ b. b) (day_of event, (event.cashier_id, event.register_id)) a (λ b. b +ℤ a) a
        s.cashier_lines refl (λ w. refl) in
    rw fresh (
      days,
      days ∙ ap (λ x. x +ℤ a) agreed ∙ sym lines,
      rw ((==_iff event.event_id event.event_id).1 refl),
    )

-- The row that a count leaves, new or not.
abbrev pub count_row : ℤ → ℤ → Option DailyClose → DailyClose
count_row expected actual found =
    upserted (counted_close expected actual) (recounted expected actual) found
