-- ===== src/Financials/Effects/Sold.antt =====
-- What a sale does to the accounts (services/financials/src/postings/postings.service.ts).
use merchandising_funnel_aut.Common.{
  ◌==◌, number_key, sum_of, keep, any, All, ℕ, ◌≡◌, refl, sym, ◌∙◌, false, List, [], ◌∷◌, ◌++◌, map,
}
use merchandising_funnel_aut.Events.{
  PaymentMethod, PaymentMethodCapture, ItemSoldLine, ItemSoldEvent,
}
use merchandising_funnel_aut.Common.Action.{ok}
use merchandising_funnel_aut.Common.Int.{ℤ, pos, neg, ◌+ℤ◌, ◌*ℤ◌, ◌≤ℤ◌, ◌<ℤ◌, int_laws}
use merchandising_funnel_aut.Financials.Accounts.{sales, vat_payable, cogs, inventory}
use merchandising_funnel_aut.Financials.Journal.{
  JournalLineDraft, JournalDraft, has_amount, is_bad, balanced, debits_of, credits_of,
}
use merchandising_funnel_aut.Financials.Journal.Balance.{balanced_goes}
use merchandising_funnel_aut.Financials.Plans.{SaleFactDraft, net, net-append, net-keep}
use merchandising_funnel_aut.Financials.Postings.{
  payment_account, sale_fact, sale_facts, takings, taking_lines, total_revenue, total_tax,
  total_cogs, sale_lines, with_facts, sale_entry, sale_plan, item_sold,
}
use merchandising_funnel_aut.Financials.Effects.Takings.{
  paid, net-takings, debits_of-takings, credits_of-taking_lines, takings-AreLow, is_bad-debit,
  is_bad-credit, taking_lines_good, debits_of-append, credits_of-append, some_amount,
}

abbrev pub facts_of : (ℕ → ℤ) → ItemSoldEvent → List ItemSoldLine → List SaleFactDraft
facts_of unit_cost event = map (λ line. sale_fact event line (unit_cost line.sku))

sale_facts_known :
    (unit_cost : ℕ → ℤ) (event : ItemSoldEvent) (lines : List ItemSoldLine)
    → sale_facts (λ sku. ok (unit_cost sku)) event lines ≡ ok (facts_of unit_cost event lines)
unfolding sale_facts
sale_facts_known unit_cost event [] = refl
sale_facts_known unit_cost event (line ∷ lines) = rw (sale_facts_known unit_cost event lines)

-- A line whose tax lies within its total and whose goods cost nothing negative.
abbrev pub IsPriced : (ℕ → ℤ) → ItemSoldLine → Type 0
IsPriced unit_cost line =
    (pos 0 ≤ℤ line.tax_amount)
    × (line.tax_amount ≤ℤ line.line_total)
    × (pos 0 ≤ℤ unit_cost line.sku *ℤ line.quantity_sold)

abbrev pub AreFairTotals : List SaleFactDraft → Type 0
AreFairTotals facts =
    (pos 0 ≤ℤ total_revenue facts) × (pos 0 ≤ℤ total_tax facts) × (pos 0 ≤ℤ total_cogs facts)

fair_totals :
    (unit_cost : ℕ → ℤ) (event : ItemSoldEvent) (lines : List ItemSoldLine)
    → All (IsPriced unit_cost) lines
    → AreFairTotals (facts_of unit_cost event lines)
fair_totals unit_cost event [] h = (omega int_laws, omega int_laws, omega int_laws)
fair_totals unit_cost event (line ∷ lines) ((taxed, within, costed), hs) =
    let (revenue, tax, cost) = fair_totals unit_cost event lines hs in
    (omega int_laws, omega int_laws, omega int_laws)

-- Revenue and tax are what the lines come to.
revenue_and_tax :
    (unit_cost : ℕ → ℤ) (event : ItemSoldEvent) (lines : List ItemSoldLine)
    → total_revenue (facts_of unit_cost event lines) +ℤ total_tax (facts_of unit_cost event lines)
      ≡ sum_of (λ (l : ItemSoldLine). l.line_total) lines
revenue_and_tax unit_cost event [] = omega int_laws
revenue_and_tax unit_cost event (line ∷ lines) =
    rw (← revenue_and_tax unit_cost event lines) (omega int_laws)

sale_lines_good :
    (facts : List SaleFactDraft) → AreFairTotals facts → any is_bad (sale_lines facts) ≡ false
sale_lines_good facts (revenue, tax, cost) =
    rw
      (
        is_bad-credit sales (total_revenue facts) revenue,
        is_bad-credit vat_payable (total_tax facts) tax,
        is_bad-debit cogs (total_cogs facts) cost,
        is_bad-credit inventory (total_cogs facts) cost,
      )
      refl

even_sides :
    (taken revenue tax cost : ℤ)
    → revenue +ℤ tax ≡ taken
    → taken +ℤ (pos 0 +ℤ (pos 0 +ℤ (cost +ℤ (pos 0 +ℤ pos 0))))
      ≡ pos 0 +ℤ (revenue +ℤ (tax +ℤ (pos 0 +ℤ (cost +ℤ pos 0))))
even_sides taken revenue tax cost h = rw (← h) (omega int_laws)

abbrev pub entry_lines : List PaymentMethodCapture → List SaleFactDraft → List JournalLineDraft
entry_lines ps facts = taking_lines (takings [] ps) ++ sale_lines facts

debits_of-entry :
    (ps : List PaymentMethodCapture) (facts : List SaleFactDraft)
    → debits_of (entry_lines ps facts) ≡ paid ps +ℤ debits_of (sale_lines facts)
debits_of-entry ps facts =
    debits_of-append (taking_lines (takings [] ps)) (sale_lines facts)
    ∙ rw (debits_of-takings ps []) (omega int_laws)

entry_even :
    (ps : List PaymentMethodCapture) (facts : List SaleFactDraft)
    → total_revenue facts +ℤ total_tax facts ≡ paid ps
    → debits_of (entry_lines ps facts) ≡ credits_of (entry_lines ps facts)
entry_even ps facts h =
    debits_of-entry ps facts
    ∙ even_sides (paid ps) (total_revenue facts) (total_tax facts) (total_cogs facts) h
    ∙ sym (
        credits_of-append (taking_lines (takings [] ps)) (sale_lines facts)
        ∙ rw (credits_of-taking_lines (takings [] ps)) (omega int_laws))

debits_above :
    (taken cost : ℤ)
    → pos 0 <ℤ taken
    → pos 0 ≤ℤ cost
    → pos 0 <ℤ taken +ℤ (pos 0 +ℤ (pos 0 +ℤ (cost +ℤ (pos 0 +ℤ pos 0))))
debits_above taken cost h g = omega int_laws

entry_above :
    (ps : List PaymentMethodCapture) (facts : List SaleFactDraft)
    → pos 0 <ℤ paid ps
    → pos 0 ≤ℤ total_cogs facts
    → pos 0 <ℤ debits_of (entry_lines ps facts)
entry_above ps facts h g =
    rw (debits_of-entry ps facts) (debits_above (paid ps) (total_cogs facts) h g)

-- The effect of a sale's entry on an account that takes no payments.
net-entry :
    (other : ℕ) (ps : List PaymentMethodCapture) (facts : List SaleFactDraft)
    → ((m : PaymentMethod) → (payment_account m == other) ≡ false)
    → net other (keep has_amount (entry_lines ps facts)) ≡ net other (sale_lines facts)
net-entry other ps facts apart =
    net-keep other (entry_lines ps facts)
    ∙ net-append other (taking_lines (takings [] ps)) (sale_lines facts)
    ∙ rw (net-takings other apart ps) (omega int_laws)

-- No payment method has an account of the sale itself.
takes_nothing :
    (m : PaymentMethod)
    → ((payment_account m == sales) ≡ false)
      × ((payment_account m == vat_payable) ≡ false)
      × ((payment_account m == cogs) ≡ false)
      × ((payment_account m == inventory) ≡ false)
takes_nothing PaymentMethod.cash = (refl, refl, refl, refl)
takes_nothing PaymentMethod.card = (refl, refl, refl, refl)
takes_nothing PaymentMethod.gift_card = (refl, refl, refl, refl)

-- What a sale's entry books.
pub record IsBooked (facts : List SaleFactDraft) (e : JournalDraft) : Type 0 where
  pub revenue_booked : net sales e.lines ≡ neg (total_revenue facts)
  pub tax_booked : net vat_payable e.lines ≡ neg (total_tax facts)
  pub cost_booked : net cogs e.lines ≡ total_cogs facts
  pub goods_booked : net inventory e.lines ≡ neg (total_cogs facts)

sale_entry_lem :
    (draft : JournalDraft) (ps : List PaymentMethodCapture) (facts : List SaleFactDraft)
    → draft.lines ≡ entry_lines ps facts
    → pos 0 <ℤ paid ps
    → All (λ (p : PaymentMethodCapture). pos 0 ≤ℤ p.amount) ps
    → AreFairTotals facts
    → total_revenue facts +ℤ total_tax facts ≡ paid ps
    → (e : JournalDraft) × (balanced draft ≡ ok e) × IsBooked facts e
sale_entry_lem draft ps facts same above low fair whole = (
  record draft { lines = keep has_amount draft.lines },
  balanced_goes draft
      (rw same (
        taking_lines_good (takings [] ps) (sale_lines facts) (takings-AreLow ps [] low tt)
          (sale_lines_good facts fair)))
      (rw same (some_amount (entry_lines ps facts) (entry_above ps facts above fair.2)))
      (rw same (entry_even ps facts whole)),
  record {
    revenue_booked =
        rw (same, net-entry sales ps facts (λ m. (takes_nothing m).0)) (omega int_laws);
    tax_booked =
        rw (same, net-entry vat_payable ps facts (λ m. (takes_nothing m).1)) (omega int_laws);
    cost_booked = rw (same, net-entry cogs ps facts (λ m. (takes_nothing m).2)) (omega int_laws);
    goods_booked =
        rw (same, net-entry inventory ps facts (λ m. (takes_nothing m).3)) (omega int_laws);
  },
)

-- The sale that an event tells of is booked where its payments are what its lines come to, and more
-- than nothing.
pub sale_books :
    (unit_cost : ℕ → ℤ) (event : ItemSoldEvent)
    → paid event.payment_methods ≡ sum_of (λ (l : ItemSoldLine). l.line_total) event.lines
    → pos 0 <ℤ paid event.payment_methods
    → All (λ (p : PaymentMethodCapture). pos 0 ≤ℤ p.amount) event.payment_methods
    → All (IsPriced unit_cost) event.lines
    → let facts = facts_of unit_cost event event.lines in
      (e : JournalDraft) × (item_sold (λ sku. ok (unit_cost sku)) event ≡ ok (with_facts facts e))
      × IsBooked facts e
unfolding item_sold sale_plan sale_entry
sale_books unit_cost event whole above low priced =
    let facts = facts_of unit_cost event event.lines in
    let (e, let_through, is_booked) =
      sale_entry_lem (sale_entry event facts) event.payment_methods facts refl above low
        (fair_totals unit_cost event event.lines priced)
        (revenue_and_tax unit_cost event event.lines ∙ sym whole) in
    (e, rw (sale_facts_known unit_cost event event.lines, let_through) refl, is_booked)
