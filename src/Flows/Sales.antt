-- ===== src/Flows/Sales.antt =====
-- From a checkout that is paid (services/retail-sales/src/checkout/checkout.service.ts) to the entry
-- that Financials books for it (services/financials/src/postings/postings.service.ts).
use merchandising_funnel_aut.Common.{
  sum_of, All, ◌≡◌, refl, sym, ap, ◌∙◌, ℕ, true, List, [], ◌∷◌, map,
}
use merchandising_funnel_aut.Events.{PaymentMethodCapture, ItemSoldLine}
use merchandising_funnel_aut.Common.Action.{ok}
use merchandising_funnel_aut.Common.Int.{
  ℤ, pos, neg, ◌+ℤ◌, ◌-ℤ◌, ◌*ℤ◌, ◌≤ℤ◌, ◌<ℤ◌, ==ℤ_iff, int_laws,
}
use merchandising_funnel_aut.Retail.State.{Env, Transaction, Event, Shop}
use merchandising_funnel_aut.Retail.Stock.{StockService}
use merchandising_funnel_aut.Retail.Checkout.{
  CheckoutRequest, ReservedLine, total_paid, tax_total, sale_total, new_transaction, sold_line,
  item_sold_event, write_sale, pay_reserved,
}
use merchandising_funnel_aut.Financials.Accounts.{sales, vat_payable, cogs, inventory}
use merchandising_funnel_aut.Financials.Journal.{JournalDraft}
use merchandising_funnel_aut.Financials.Plans.{net}
use merchandising_funnel_aut.Financials.Postings.{
  total_revenue, total_tax, total_cogs, with_facts, item_sold,
}
use merchandising_funnel_aut.Financials.Effects.Sold.{facts_of, IsPriced, sale_books}

-- What the goods of a sale cost.
abbrev pub cost_of : (ℕ → ℤ) → List ReservedLine → ℤ
cost_of unit_cost = sum_of (λ l. unit_cost l.sku *ℤ l.quantity_sold)

-- The entry that Financials books for a transaction: its revenue without the tax, its tax, and the
-- cost of its goods, out of the inventory.
pub record IsPosted (t : Transaction) (cost : ℤ) (e : JournalDraft) : Type 0 where
  pub revenue : net sales e.lines ≡ neg (t.total_amount -ℤ t.tax_amount)
  pub tax : net vat_payable e.lines ≡ neg t.tax_amount
  pub cost_booked : net cogs e.lines ≡ cost
  pub goods : net inventory e.lines ≡ neg cost

sale_total-sold :
    (lines : List ReservedLine)
    → sum_of (λ (l : ItemSoldLine). l.line_total) (map sold_line lines) ≡ sale_total lines
sale_total-sold [] = refl
sale_total-sold (line ∷ lines) = ap (λ a. line.line_total +ℤ a) (sale_total-sold lines)

sold-IsPriced :
    (unit_cost : ℕ → ℤ) (lines : List ReservedLine)
    → All (λ (l : ReservedLine). IsPriced unit_cost (sold_line l)) lines
    → All (IsPriced unit_cost) (map sold_line lines)
sold-IsPriced unit_cost [] h = tt
sold-IsPriced unit_cost (line ∷ lines) (h, hs) = (h, sold-IsPriced unit_cost lines hs)

module _ {S : Type 0} (stock : StockService S) (unit_cost : ℕ → ℤ) (env : Env)
    (dto : CheckoutRequest) where
  facts-tax :
      (reserved lines : List ReservedLine)
      → total_tax (facts_of unit_cost (item_sold_event env dto reserved) (map sold_line lines))
        ≡ tax_total lines
  facts-tax reserved [] = refl
  facts-tax reserved (line ∷ lines) = ap (λ a. line.tax_amount +ℤ a) (facts-tax reserved lines)

  facts-cost :
      (reserved lines : List ReservedLine)
      → total_cogs (facts_of unit_cost (item_sold_event env dto reserved) (map sold_line lines))
        ≡ cost_of unit_cost lines
  facts-cost reserved [] = refl
  facts-cost reserved (line ∷ lines) =
      ap (λ a. unit_cost line.sku *ℤ line.quantity_sold +ℤ a) (facts-cost reserved lines)

  facts-revenue :
      (reserved lines : List ReservedLine)
      → total_revenue (facts_of unit_cost (item_sold_event env dto reserved) (map sold_line lines))
        ≡ sale_total lines -ℤ tax_total lines
  facts-revenue reserved [] = omega int_laws
  facts-revenue reserved (line ∷ lines) = rw (facts-revenue reserved lines) (omega int_laws)

  -- Where the bus takes events, no payment for the reserved lines is negative, together they are
  -- more than nothing and what the lines come to, each line's tax lies between nothing and the
  -- line's total, and no cost is negative: the checkout returns its transaction and publishes one
  -- event, and Financials books the event, with the transaction's total less its tax as sales, its
  -- tax as VAT, and the cost of its goods moved from the inventory to the cost of goods sold.
  pub paid_sale_books :
      (reserved : List ReservedLine) (shop : Shop) (s : S)
      → env.bus_up ≡ true
      → total_paid dto.payments ≡ sale_total reserved
      → pos 0 <ℤ total_paid dto.payments
      → All (λ (p : PaymentMethodCapture). pos 0 ≤ℤ p.amount) dto.payments
      → All (λ (l : ReservedLine). IsPriced unit_cost (sold_line l)) reserved
      → let r = pay_reserved stock env dto reserved (shop, s) in
        let event = item_sold_event env dto reserved in
        (t : Transaction) × (e : JournalDraft) × (r.0 ≡ ok t)
        × (r.1.0.published ≡ Event.item_sold event ∷ shop.published)
        × (item_sold (λ sku. ok (unit_cost sku)) event
            ≡ ok (with_facts (facts_of unit_cost event event.lines) e))
        × IsPosted t (cost_of unit_cost reserved) e
  unfolding pay_reserved write_sale new_transaction item_sold_event
  paid_sale_books reserved shop s up even above low priced =
      let event = item_sold_event env dto reserved in
      let (e, booked, effect) =
        sale_books unit_cost event (even ∙ sym (sale_total-sold reserved)) above low
          (sold-IsPriced unit_cost reserved priced) in
      (
        new_transaction env dto reserved shop,
        e,
        rw (up, (==ℤ_iff _ _).1 even) refl,
        rw (up, (==ℤ_iff _ _).1 even) refl,
        booked,
        record {
          revenue = effect.revenue_booked ∙ ap neg (facts-revenue reserved reserved);
          tax = effect.tax_booked ∙ ap neg (facts-tax reserved reserved);
          cost_booked = effect.cost_booked ∙ facts-cost reserved reserved;
          goods = effect.goods_booked ∙ ap neg (facts-cost reserved reserved);
        },
      )
