-- ===== src/Flows/Shrinkage.antt =====
-- From a stock count that is posted
-- (services/inventory/src/stock-counts/stock-counts.service.ts) to the entry that Financials books
-- for it (services/financials/src/postings/postings.service.ts).
use merchandising_funnel_aut.Common.{
  Bool-cases, Option-cases, sum_of, ◌≡◌, ◌⊎◌, refl, sym, ap, ◌∙◌, ℕ, inl, inr, false, not, List, [],
  ◌∷◌, map, some, arith,
}
use merchandising_funnel_aut.Common.Action.{ok}
use merchandising_funnel_aut.Common.Int.{ℤ, pos, neg, ◌-ℤ◌, ◌*ℤ◌, ◌==ℤ◌, int_laws, ==ℤ_iff}
use merchandising_funnel_aut.Inventory.StockCounts.{StockCount, StockCountLine}
use merchandising_funnel_aut.Inventory.State.{Env}
use merchandising_funnel_aut.Inventory.StockCounts.Counting.{delta_of, has_variance, summarize}
use merchandising_funnel_aut.Inventory.StockCounts.Posting.{
  changes_of, adjusted_line, posting_event,
}
use merchandising_funnel_aut.Financials.Accounts.{inventory, inventory_shrinkage}
use merchandising_funnel_aut.Financials.Journal.{JournalDraft}
use merchandising_funnel_aut.Financials.Plans.{nothing_to_book, net}
use merchandising_funnel_aut.Financials.Postings.{only_entry, adjusted_value, stock_adjusted}
use merchandising_funnel_aut.Financials.Effects.Adjusted.{stock_adjusted_books}

abbrev pub variance_of : List StockCountLine → ℤ
variance_of = sum_of (λ l. delta_of l *ℤ l.unit_cost)

difference-none : (a b : ℤ) → not (a ==ℤ b) ≡ false → a -ℤ b ≡ pos 0
difference-none a b h =
    let same : a ≡ b = (==ℤ_iff a b).0 (ground arith) in rw same (omega int_laws)

no_variance : (line : StockCountLine) → has_variance line ≡ false → delta_of line ≡ pos 0
no_variance line h = elim (Option-cases line.counted_qty) [
  | inl e ↦ rw e refl
  | inr (counted, e) ↦ rw e (difference-none counted line.expected_qty (rw e at h))
]

times_none : (a b : ℤ) → a ≡ pos 0 → a *ℤ b ≡ pos 0
unfolding ◌*ℤ◌
times_none a b h = rw h (ground arith)

adjusted_value-changes :
    (lines : List StockCountLine)
    → adjusted_value (map adjusted_line (changes_of lines)) ≡ variance_of lines
unfolding changes_of
adjusted_value-changes [] = refl
adjusted_value-changes (line ∷ lines) = elim (Bool-cases (has_variance line)) [
  | inl changed ↦ rw (changed, adjusted_value-changes lines) refl
  | inr same ↦
      rw
        (
          same,
          adjusted_value-changes lines,
          times_none (delta_of line) line.unit_cost (no_variance line same),
        )
        (omega int_laws)
]

summarize-variance :
    (lines : List StockCountLine) → (summarize lines).variance_value ≡ some (variance_of lines)
unfolding summarize
summarize-variance lines = refl

-- The event that a posted count publishes is never refused by the books, and they book for it what
-- the count's own summary says that it is off by: nothing where that is nothing, and otherwise an
-- entry in which the inventory account changes by that value and inventory shrinkage by its
-- opposite.
pub posted_count_books :
    (env : Env) (user_id : ℕ) (count : StockCount)
    → let event = posting_event env user_id count (changes_of count.lines) in
      (value : ℤ) × ((summarize count.lines).variance_value ≡ some value)
      × (((value ≡ pos 0) × (stock_adjusted event ≡ ok nothing_to_book))
          ⊎ ((e : JournalDraft) × (stock_adjusted event ≡ ok (only_entry e))
              × (net inventory e.lines ≡ value)
              × (net inventory_shrinkage e.lines ≡ neg value)))
unfolding posting_event
posted_count_books env user_id count =
    let event = posting_event env user_id count (changes_of count.lines) in
    let same = adjusted_value-changes count.lines in
    (
      variance_of count.lines,
      summarize-variance count.lines,
      elim (stock_adjusted_books event) [
        | inl (even, booked) ↦ inl (sym same ∙ even, booked)
        | inr (e, _, booked, up, down) ↦ inr (e, booked, up ∙ same, down ∙ ap neg same)
      ],
    )
