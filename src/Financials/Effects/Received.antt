-- ===== src/Financials/Effects/Received.antt =====
-- What received goods do to the accounts (services/financials/src/postings/postings.service.ts).
use merchandising_funnel_aut.Common.{
  ℕ, ◌≡◌, refl, ap, ◌∙◌, sym, inl, inr, Bool, not, Option, none, some, List, [], ◌∷◌, map, ◌==◌,
  if◌then◌else◌, arith, Bool-cases, sum_of, find_where, ◌||◌, ==_iff,
}
use merchandising_funnel_aut.Common.Int.{ℤ, pos, ◌+ℤ◌, neg, ◌==ℤ◌, leb_ℤ, int_laws, ==ℤ_iff, ◌*ℤ◌}
use merchandising_funnel_aut.Common.Action.{
  Result, ok, map_ok, bind_ok, bind_ok-ok, map_ok-ok, ok-injective,
}
use merchandising_funnel_aut.Events.{GoodsReceivedEvent, GoodsReceivedLine}
use merchandising_funnel_aut.Financials.Accounts.{inventory, accounts_payable}
use merchandising_funnel_aut.Financials.Journal.{JournalDraft, balanced, debit_line, credit_line}
use merchandising_funnel_aut.Financials.Plans.{
  PostingPlan, net, net-append, net-balanced, billed, booked,
}
use merchandising_funnel_aut.Financials.Postings.{
  PurchaseOrder, PoLine, is_damaged, line_value, received_values, receipt_entry, receipt_plan,
  goods_received, default_currency_code,
}

net-debit_lines :
    (code account : ℕ) (values : List ℤ)
    → net code (map (debit_line account) values)
      ≡ (if account == code then sum_of (λ v. v) values else pos 0)
net-debit_lines code account [] = ground arith
net-debit_lines code account (v ∷ values) = grind (int_laws, net-debit_lines code account values)

net-receipt :
    (code : ℕ) (event : GoodsReceivedEvent) (values : List ℤ) (total : ℤ) (e : JournalDraft)
    → balanced (receipt_entry event values total) ≡ ok e
    → net code e.lines
      ≡ (if inventory == code then sum_of (λ v. v) values else pos 0)
        +ℤ net code (credit_line accounts_payable total ∷ [])
net-receipt code event values total e h =
    net-balanced code _ e h
    ∙ net-append code (map (debit_line inventory) values) _
    ∙ rw (net-debit_lines code inventory values)

receipt_plan-books :
    (event : GoodsReceivedEvent) (po : PurchaseOrder) (values : List ℤ) (plan : PostingPlan)
    → receipt_plan event po values ≡ ok plan
    → (booked inventory plan.entry ≡ sum_of (λ v. v) values)
      × (booked accounts_payable plan.entry ≡ neg (sum_of (λ v. v) values))
      × (billed plan.bill ≡ sum_of (λ v. v) values)
unfolding receipt_plan
receipt_plan-books event po values plan h =
    let total = sum_of (λ (v : ℤ). v) values in
    elim (Bool-cases (total ==ℤ pos 0)) [
      | inl zero ↦
          rw (← ok-injective _ _ (rw zero at h), (==ℤ_iff total (pos 0)).0 zero)
            (refl, omega int_laws, refl)
      | inr changed ↦
          let (e, let_through, made) = map_ok-ok _ _ (rw changed at h) in
          rw (← made) (
            net-receipt inventory event values total e let_through ∙ grind int_laws,
            net-receipt accounts_payable event values total e let_through ∙ grind int_laws,
            refl,
          )
    ]

abbrev pub unit_cost_of : Option PoLine → ℤ
unit_cost_of none = pos 0
unit_cost_of (some o) = o.unit_cost

abbrev pub is_booked : GoodsReceivedLine → Bool
is_booked l = not (is_damaged l.condition || leb_ℤ l.quantity_received (pos 0))

-- What arrived undamaged is worth, at the unit costs of the order.
abbrev pub worth : PurchaseOrder → List GoodsReceivedLine → ℤ
worth po [] = pos 0
worth po (l ∷ ls) =
    if is_booked l
    then unit_cost_of (find_where (λ o. o.sku == l.sku) po.lines) *ℤ l.quantity_received
      +ℤ worth po ls
    else worth po ls

line_value_lem :
    (found : Option PoLine) (l : GoodsReceivedLine) (v : ℤ)
    → line_value found l ≡ ok v
    → v ≡ unit_cost_of found *ℤ l.quantity_received
line_value_lem none l v h = absurd (cc h)
line_value_lem (some o) l v h = sym (ok-injective _ _ h)

received_values-worth :
    (po : PurchaseOrder) (lines : List GoodsReceivedLine) (values : List ℤ)
    → received_values po lines ≡ ok values
    → sum_of (λ v. v) values ≡ worth po lines
unfolding received_values
received_values-worth po [] values h = rw (← ok-injective _ _ h)
received_values-worth po (l ∷ ls) values h = elim (Bool-cases (is_damaged l.condition)) [
  | inl damaged ↦ rw damaged (received_values-worth po ls values (rw damaged at h))
  | inr good ↦ elim (Bool-cases (leb_ℤ l.quantity_received (pos 0))) [
    | inl missing ↦
        rw (good, missing) (received_values-worth po ls values (rw (good, missing) at h))
    | inr arrived ↦
        let h' : bind_ok (line_value (find_where (λ o. o.sku == l.sku) po.lines) l)
              (λ v. map_ok (λ vs. v ∷ vs) (received_values po ls))
            ≡ ok values =
          rw (good, arrived) at h in
        let (v, priced, rest) =
          bind_ok-ok (line_value (find_where (λ o. o.sku == l.sku) po.lines) l)
            (λ v. map_ok (λ vs. v ∷ vs) (received_values po ls)) h' in
        let (vs, valued, whole) = map_ok-ok (received_values po ls) (λ vs. v ∷ vs) rest in
        rw (
          good,
          arrived,
          ← whole,
          line_value_lem (find_where (λ o. o.sku == l.sku) po.lines) l v priced,
          received_values-worth po ls vs valued,
        )
  ]
]

-- Received goods that are posted are priced in KES; the inventory account grows by the worth of the
-- undamaged units at the order's unit costs, accounts payable by as much on the credit side, and the
-- bill is of that amount (0 where nothing is booked).
pub goods_received_books :
    (answer : Result PurchaseOrder) (event : GoodsReceivedEvent) (plan : PostingPlan)
    → goods_received answer event ≡ ok plan
    → (po : PurchaseOrder) × (answer ≡ ok po)
      × (po.currency ≡ default_currency_code)
      × (booked inventory plan.entry ≡ worth po event.lines)
      × (booked accounts_payable plan.entry ≡ neg (worth po event.lines))
      × (billed plan.bill ≡ worth po event.lines)
unfolding goods_received
goods_received_books answer event plan h =
    let (po, answered, rest) = bind_ok-ok answer _ h in
    elim (Bool-cases (po.currency == default_currency_code)) [
      | inl kes ↦
          let (values, valued, planned) = bind_ok-ok _ _ (rw kes at rest) in
          let (stock, owed, bill) = receipt_plan-books event po values plan planned in
          let total = received_values-worth po event.lines values valued in
          (po, answered, (==_iff _ _).0 kes, stock ∙ total, owed ∙ ap neg total, bill ∙ total)
      | inr other ↦ absurd (cc (rw other at rest))
    ]
