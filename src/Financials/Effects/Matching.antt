-- ===== src/Financials/Effects/Matching.antt =====
-- The entries of the posting rules, and what they do to the accounts payable
-- (services/financials/src/postings/postings.service.ts).
use merchandising_funnel_aut.Common.{
  ◌==◌, ==_iff, Bool-cases, number_key, pair_key, sum_of, ℕ, ◌≡◌, refl, sym, ap, ◌∙◌, inl, inr,
  false, Option, none, some, List, [],
}
use merchandising_funnel_aut.Events.{
  GoodsReceivedEvent, StockAdjustedEvent, PaymentMethod, ItemSoldEvent, ItemReturnedEvent,
  DayClosedEvent,
}
use merchandising_funnel_aut.Common.Action.{
  Result, ok-injective, map_ok, bind_ok, bind_ok-ok, map_ok-ok, ok,
}
use merchandising_funnel_aut.Common.Int.{ℤ, neg, ltb_ℤ, ◌==ℤ◌, pos, ◌+ℤ◌}
use merchandising_funnel_aut.Financials.Accounts.{accounts_payable}
use merchandising_funnel_aut.Financials.Journal.{JournalDraft, balanced, debits_of, credits_of}
use merchandising_funnel_aut.Financials.Plans.{
  SaleFactDraft, PostingPlan, nothing_to_book, net, net-append, net-balanced, billed, booked,
}
use merchandising_funnel_aut.Financials.Postings.{
  PurchaseOrder, default_currency_code, received_values, receipt_plan, goods_received,
  payment_account, sale_facts, takings, taking_lines, with_facts, sale_entry, sale_plan, item_sold,
  return_facts, return_plan, item_returned, only_entry, moves, day_closed_entry, day_closed,
  adjusted_value, stock_adjusted_entry, stock_adjusted,
}
use merchandising_funnel_aut.Financials.Effects.Received.{goods_received_books}
use merchandising_funnel_aut.Financials.Effects.Takings.{net-takings}
use merchandising_funnel_aut.Financials.Journal.Balance.{balanced-ok}

-- As much on the debit side as on the credit side.
abbrev pub IsEven : JournalDraft → Type 0
IsEven e = debits_of e.lines ≡ credits_of e.lines

abbrev pub IsEvenPlan : Option JournalDraft → Type 0
IsEvenPlan none = Unit
IsEvenPlan (some e) = IsEven e

-- A plan books on the accounts payable what its bill owes.
abbrev pub IsMatched : PostingPlan → Type 0
IsMatched plan =
    IsEvenPlan plan.entry × (booked accounts_payable plan.entry ≡ neg (billed plan.bill))

balanced-IsMatched :
    (draft : JournalDraft) (make : JournalDraft → PostingPlan) (plan : PostingPlan)
    → map_ok make (balanced draft) ≡ ok plan
    → ((e : JournalDraft) → (make e).entry ≡ some e)
    → ((e : JournalDraft) → (make e).bill ≡ none)
    → net accounts_payable draft.lines ≡ pos 0
    → IsMatched plan
unfolding neg
balanced-IsMatched draft make plan h entry bill settled =
    let (e, passed, made) = map_ok-ok (balanced draft) make h in
    rw (← made, entry e, bill e)
      ((balanced-ok draft e passed).0, net-balanced accounts_payable draft e passed ∙ settled)

nothing-IsMatched : IsMatched nothing_to_book
unfolding neg
nothing-IsMatched = (tt, refl)

-- Signed amounts between two other accounts.
net-moves :
    (to from : ℕ) (a : ℤ)
    → (to == accounts_payable) ≡ false
    → (from == accounts_payable) ≡ false
    → net accounts_payable (moves to from a) ≡ pos 0
net-moves to from a h g = rw (h, g)

pub day_closed-IsMatched :
    (event : DayClosedEvent) (plan : PostingPlan) → day_closed event ≡ ok plan → IsMatched plan
unfolding day_closed
day_closed-IsMatched event plan h = elim (Bool-cases (event.discrepancy_amount ==ℤ pos 0)) [
  | inl even ↦ rw (← ok-injective _ _ (rw even at h)) nothing-IsMatched
  | inr changed ↦
      balanced-IsMatched (day_closed_entry event) only_entry plan (rw changed at h) (λ e. refl)
        (λ e. refl)
        (elim (Bool-cases (ltb_ℤ event.discrepancy_amount (pos 0))) [
          | inl short ↦ rw short
          | inr over ↦ rw over
        ])
]

pub stock_adjusted-IsMatched :
    (event : StockAdjustedEvent) (plan : PostingPlan)
    → stock_adjusted event ≡ ok plan
    → IsMatched plan
unfolding stock_adjusted
stock_adjusted-IsMatched event plan h =
    let value = adjusted_value event.lines in
    elim (Bool-cases (value ==ℤ pos 0)) [
      | inl even ↦ rw (← ok-injective _ _ (rw even at h)) nothing-IsMatched
      | inr changed ↦
          balanced-IsMatched (stock_adjusted_entry event value) only_entry plan (rw changed at h)
            (λ e. refl) (λ e. refl)
            (elim (Bool-cases (ltb_ℤ value (pos 0))) [ inl loss ↦ rw loss | inr gain ↦ rw gain ])
    ]

payment_account-other : (m : PaymentMethod) → (payment_account m == accounts_payable) ≡ false
payment_account-other PaymentMethod.cash = refl
payment_account-other PaymentMethod.card = refl
payment_account-other PaymentMethod.gift_card = refl

pub item_sold-IsMatched :
    (get_unit_cost : ℕ → Result ℤ) (event : ItemSoldEvent) (plan : PostingPlan)
    → item_sold get_unit_cost event ≡ ok plan
    → IsMatched plan
unfolding item_sold sale_plan sale_entry ◌+ℤ◌
item_sold-IsMatched get_unit_cost event plan h =
    let (facts, costed, planned) =
      bind_ok-ok (sale_facts get_unit_cost event event.lines) (sale_plan event) h in
    balanced-IsMatched _ (with_facts facts) plan planned (λ e. refl) (λ e. refl)
      (net-append accounts_payable (taking_lines (takings [] event.payment_methods)) _
        ∙ rw (net-takings accounts_payable payment_account-other event.payment_methods))

pub item_returned-IsMatched :
    (get_unit_cost : ℕ → Result ℤ) (original : List SaleFactDraft) (event : ItemReturnedEvent)
    (plan : PostingPlan)
    → item_returned get_unit_cost original event ≡ ok plan
    → IsMatched plan
unfolding item_returned return_plan
item_returned-IsMatched get_unit_cost original event plan h =
    let (facts, costed, planned) =
      bind_ok-ok (return_facts get_unit_cost original event event.lines) (return_plan event) h in
    balanced-IsMatched _ (with_facts facts) plan planned (λ e. refl) (λ e. refl) refl

receipt_plan-IsEven :
    (event : GoodsReceivedEvent) (po : PurchaseOrder) (values : List ℤ) (plan : PostingPlan)
    → receipt_plan event po values ≡ ok plan
    → IsEvenPlan plan.entry
unfolding receipt_plan
receipt_plan-IsEven event po values plan h =
    let total = sum_of (λ (v : ℤ). v) values in
    elim (Bool-cases (total ==ℤ pos 0)) [
      | inl nothing ↦ rw (← ok-injective _ _ (rw nothing at h)) tt
      | inr some_value ↦
          let (e, passed, made) = map_ok-ok _ _ (rw some_value at h) in
          rw (← made) (balanced-ok _ e passed).0
    ]

pub goods_received-IsMatched :
    (answer : Result PurchaseOrder) (event : GoodsReceivedEvent) (plan : PostingPlan)
    → goods_received answer event ≡ ok plan
    → IsMatched plan
unfolding goods_received
goods_received-IsMatched answer event plan h =
    let (po, answered, kes, stock, owed, bill) = goods_received_books answer event plan h in
    let h' : goods_received (ok po) event ≡ ok plan = rw answered at h in
    let h2 : bind_ok (received_values po event.lines) (receipt_plan event po) ≡ ok plan =
      rw ((==_iff po.currency default_currency_code).1 kes) at h' in
    let (values, valued, planned) =
      bind_ok-ok (received_values po event.lines) (receipt_plan event po) h2 in
    (receipt_plan-IsEven event po values plan planned, owed ∙ ap neg (sym bill))
