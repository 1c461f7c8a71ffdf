-- ===== src/Financials/Effects/Adjusted.antt =====
-- What a closed day and a stock adjustment do to the accounts
-- (services/financials/src/postings/postings.service.ts).
use merchandising_funnel_aut.Common.{
  ◌==◌, if◌then◌else◌, ==_iff, Bool-cases, keep, ℕ, ◌≡◌, refl, ap, ◌∙◌, ◌≢◌, ◌⊎◌, inl, inr, false,
  List, arith,
}
use merchandising_funnel_aut.Events.{StockAdjustedEvent, DayClosedEvent}
use merchandising_funnel_aut.Common.Action.{ok}
use merchandising_funnel_aut.Common.Int.{ℤ, neg, ltb_ℤ, ◌==ℤ◌, ==ℤ_iff, abs_ℤ, pos, int_laws}
use merchandising_funnel_aut.Financials.Accounts.{
  cash, inventory, cash_over_short, inventory_shrinkage,
}
use merchandising_funnel_aut.Financials.Journal.{
  JournalLineDraft, JournalDraft, has_amount, balanced, debits_of, credits_of,
}
use merchandising_funnel_aut.Financials.Plans.{nothing_to_book, net}
use merchandising_funnel_aut.Financials.Postings.{
  only_entry, moves, day_closed_entry, day_closed, adjusted_value, stock_adjusted_entry,
  stock_adjusted,
}
use merchandising_funnel_aut.Financials.Journal.Balance.{balanced_goes}

-- The lines that move an amount, towards `up` where it is positive and towards `down` where it is not.
abbrev signed_moves : ℕ → ℕ → ℤ → List JournalLineDraft
signed_moves up down a =
    if ltb_ℤ a (pos 0) then moves down up (abs_ℤ a) else moves up down (abs_ℤ a)

signed_moves-keep :
    (up down : ℕ) (a : ℤ)
    → a ≢ pos 0
    → keep has_amount (signed_moves up down a) ≡ signed_moves up down a
signed_moves-keep up down a h = ground (arith)

signed_moves-even :
    (up down : ℕ) (a : ℤ) → debits_of (signed_moves up down a) ≡ credits_of (signed_moves up down a)
signed_moves-even up down a = grind (int_laws)

signed_moves-balanced :
    (up down : ℕ) (a : ℤ) (draft : JournalDraft)
    → a ≢ pos 0
    → draft.lines ≡ signed_moves up down a
    → balanced draft ≡ ok (record draft { lines = signed_moves up down a })
signed_moves-balanced up down a draft h e =
    balanced_goes draft (rw e (ground arith)) (rw e (ground arith))
      (rw e (signed_moves-even up down a))
    ∙ ap (λ ls. ok (record draft { lines = ls }))
        (ap (keep has_amount) e ∙ signed_moves-keep up down a h)

==ℤ-ne : (d : ℤ) → (d ==ℤ pos 0) ≡ false → d ≢ pos 0
==ℤ-ne d h e = cc (h, (==ℤ_iff d (pos 0)).1 e)

net-signed_moves :
    (up down : ℕ) (a : ℤ)
    → (up == down) ≡ false
    → (net up (signed_moves up down a) ≡ a) × (net down (signed_moves up down a) ≡ neg a)
net-signed_moves up down a h =
    (grind (int_laws, ==_iff up up, ==_iff down up), grind (int_laws, ==_iff down down))

-- A closed day is never refused: without a discrepancy it books nothing, and with one it books an
-- entry in which the cash account changes by the discrepancy and cash over/short by its opposite.
pub day_closed_books :
    (event : DayClosedEvent)
    → ((event.discrepancy_amount ≡ pos 0) × (day_closed event ≡ ok nothing_to_book))
      ⊎ ((e : JournalDraft) × (event.discrepancy_amount ≢ pos 0)
          × (day_closed event ≡ ok (only_entry e))
          × (net cash e.lines ≡ event.discrepancy_amount)
          × (net cash_over_short e.lines ≡ neg event.discrepancy_amount))
unfolding day_closed
day_closed_books event =
    let d = event.discrepancy_amount in
    elim (Bool-cases (d ==ℤ pos 0)) [
      | inl even ↦ inl ((==ℤ_iff d (pos 0)).0 even, rw even)
      | inr uneven ↦
          let e = day_closed_entry event in
          let changed = ==ℤ-ne d uneven in
          let (up, down) = net-signed_moves cash cash_over_short d refl in
          inr (
            e,
            changed,
            rw (uneven, signed_moves-balanced cash cash_over_short d e changed refl),
            up,
            down,
          )
    ]

-- A stock adjustment is never refused: one of no value books nothing, and any other books an entry
-- in which the inventory account changes by the value and inventory shrinkage by its opposite.
pub stock_adjusted_books :
    (event : StockAdjustedEvent)
    → ((adjusted_value event.lines ≡ pos 0) × (stock_adjusted event ≡ ok nothing_to_book))
      ⊎ ((e : JournalDraft) × (adjusted_value event.lines ≢ pos 0)
          × (stock_adjusted event ≡ ok (only_entry e))
          × (net inventory e.lines ≡ adjusted_value event.lines)
          × (net inventory_shrinkage e.lines ≡ neg (adjusted_value event.lines)))
unfolding stock_adjusted
stock_adjusted_books event =
    let d = adjusted_value event.lines in
    elim (Bool-cases (d ==ℤ pos 0)) [
      | inl even ↦ inl ((==ℤ_iff d (pos 0)).0 even, rw even)
      | inr uneven ↦
          let e = stock_adjusted_entry event d in
          let changed = ==ℤ-ne d uneven in
          let (up, down) = net-signed_moves inventory inventory_shrinkage d refl in
          inr (
            e,
            changed,
            rw (uneven, signed_moves-balanced inventory inventory_shrinkage d e changed refl),
            up,
            down,
          )
    ]
