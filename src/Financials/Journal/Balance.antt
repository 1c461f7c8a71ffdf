-- ===== src/Financials/Journal/Balance.antt =====
-- What `balanced` (services/financials/src/ledger/journal.ts) lets through.
use merchandising_funnel_aut.Common.{
  ◌⊎◌, sym, ◌∙◌, ◌≡◌, ◌≢◌, refl, inl, inr, true, false, ◌||◌, List, [], ◌∷◌, if◌then◌else◌, arith,
  Bool-cases, keep, any, All,
}
use merchandising_funnel_aut.Common.Int.{
  ℤ, pos, ◌+ℤ◌, ◌≤ℤ◌, ◌<ℤ◌, ◌==ℤ◌, int_laws, +ℤ_assoc, zero-+ℤ, ==ℤ_iff,
}
use merchandising_funnel_aut.Common.Action.{ok-injective, Error, ok, err}
use merchandising_funnel_aut.Financials.Journal.{
  JournalLineDraft, JournalDraft, debit_of, credit_of, has_amount, is_bad, check_lines,
  check_totals, balanced, debits_of, credits_of,
}

-- Neither side is negative, and exactly one moves an amount.
abbrev pub IsOneSided : JournalLineDraft → Type 0
IsOneSided l =
    (pos 0 ≤ℤ debit_of l)
    × (pos 0 ≤ℤ credit_of l)
    × (pos 0 <ℤ debit_of l +ℤ credit_of l)
    × ((debit_of l ≡ pos 0) ⊎ (credit_of l ≡ pos 0))

-- The loop over the lines, in one equation.
check_lines_lem :
    (d c : ℤ) (ls : List JournalLineDraft)
    → check_lines d c ls
      ≡ (if any is_bad ls then err Error.unbalanced else ok (d +ℤ debits_of ls, c +ℤ credits_of ls))
unfolding check_lines
check_lines_lem d c [] = grind (int_laws)
check_lines_lem d c (l ∷ ls) = elim (Bool-cases (is_bad l)) [
  | inl bad ↦ rw bad
  | inr good ↦
      rw (good, check_lines_lem (d +ℤ debit_of l) (c +ℤ credit_of l) ls)
        (rw (+ℤ_assoc d (debit_of l) (debits_of ls), +ℤ_assoc c (credit_of l) (credits_of ls)))
]

-- Dropping the lines of no amount changes neither side.
debits_of-keep : (ls : List JournalLineDraft) → debits_of (keep has_amount ls) ≡ debits_of ls
debits_of-keep [] = refl
debits_of-keep (l ∷ ls) = grind (int_laws, debits_of-keep ls)

credits_of-keep : (ls : List JournalLineDraft) → credits_of (keep has_amount ls) ≡ credits_of ls
credits_of-keep [] = refl
credits_of-keep (l ∷ ls) = grind (int_laws, credits_of-keep ls)

one_sided : (l : JournalLineDraft) → has_amount l ≡ true → is_bad l ≡ false → IsOneSided l
one_sided l h g = grind (int_laws)

keep-IsOneSided :
    (ls : List JournalLineDraft)
    → any is_bad (keep has_amount ls) ≡ false
    → All IsOneSided (keep has_amount ls)
keep-IsOneSided [] g = tt
keep-IsOneSided (l ∷ ls) g = elim (Bool-cases (has_amount l)) [
  | inl some_amount ↦
      let g' : is_bad l || any is_bad (keep has_amount ls) ≡ false = rw some_amount at g in
      rw some_amount (one_sided l some_amount (ground arith), keep-IsOneSided ls (ground arith))
  | inr none_amount ↦ rw none_amount (keep-IsOneSided ls (rw none_amount at g))
]

balanced_lem :
    (draft : JournalDraft) (ls : List JournalLineDraft)
    → keep has_amount draft.lines ≡ ls
    → balanced draft
      ≡ check_totals draft ls
          (if any is_bad ls then err Error.unbalanced else ok (debits_of ls, credits_of ls))
unfolding balanced
balanced_lem draft ls e = rw (e, check_lines_lem, zero-+ℤ (debits_of ls), zero-+ℤ (credits_of ls))

check_totals-ok :
    (draft e : JournalDraft) (ls : List JournalLineDraft)
    → check_totals draft ls
        (if any is_bad ls then err Error.unbalanced else ok (debits_of ls, credits_of ls))
      ≡ ok e
    → (e ≡ record draft { lines = ls })
      × (ls ≢ [])
      × (any is_bad ls ≡ false)
      × (debits_of ls ≡ credits_of ls)
unfolding check_totals
check_totals-ok draft e [] h = cc
check_totals-ok draft e (l ∷ ls) h = elim (Bool-cases (any is_bad (l ∷ ls))) [
  | inl bad ↦ absurd (cc (rw bad at h))
  | inr good ↦ elim (Bool-cases (debits_of (l ∷ ls) ==ℤ credits_of (l ∷ ls))) [
    | inl same ↦
        (sym (ok-injective _ _ (rw (good, same) at h)), λ k. cc k, good, (==ℤ_iff _ _).0 same)
    | inr other ↦ absurd (cc (rw (good, other) at h))
  ]
]

-- An entry that is let through has as much on the debit side as on the credit side; it has lines,
-- each of which moves a positive amount on exactly one side; and it is the draft without its lines
-- of no amount, whose two totals it keeps.
pub balanced-ok :
    (draft e : JournalDraft)
    → balanced draft ≡ ok e
    → (debits_of e.lines ≡ credits_of e.lines)
      × (e.lines ≢ [])
      × All IsOneSided e.lines
      × (e ≡ record draft { lines = keep has_amount draft.lines })
      × (debits_of e.lines ≡ debits_of draft.lines)
      × (credits_of e.lines ≡ credits_of draft.lines)
balanced-ok draft e h =
    let (same, lines, good, totals) =
      check_totals-ok draft e _ (sym (balanced_lem draft _ refl) ∙ h) in
    rw same (
      totals,
      lines,
      keep-IsOneSided draft.lines good,
      refl,
      debits_of-keep draft.lines,
      credits_of-keep draft.lines,
    )

any_bad-keep :
    (ls : List JournalLineDraft) → any is_bad ls ≡ false → any is_bad (keep has_amount ls) ≡ false
any_bad-keep [] h = refl
any_bad-keep (l ∷ ls) h = ground (arith, any_bad-keep ls)

keep-ne-nil : (ls : List JournalLineDraft) → any has_amount ls ≡ true → keep has_amount ls ≢ []
keep-ne-nil [] h = cc
keep-ne-nil (l ∷ ls) h = ground (arith, keep-ne-nil ls)

check_totals_goes :
    (draft : JournalDraft) (ls : List JournalLineDraft) (d c : ℤ)
    → ls ≢ []
    → d ≡ c
    → check_totals draft ls (ok (d, c)) ≡ ok (record draft { lines = ls })
unfolding check_totals
check_totals_goes draft [] d c n e = absurd (n refl)
check_totals_goes draft (l ∷ ls) d c n e = rw ((==ℤ_iff d c).1 e)

-- The other way round: a draft with an amount, no line that is negative or two-sided, and equal
-- totals is let through.
pub balanced_goes :
    (draft : JournalDraft)
    → any is_bad draft.lines ≡ false
    → any has_amount draft.lines ≡ true
    → debits_of draft.lines ≡ credits_of draft.lines
    → balanced draft ≡ ok (record draft { lines = keep has_amount draft.lines })
balanced_goes draft good amounts totals =
    balanced_lem draft _ refl
    ∙ rw (any_bad-keep draft.lines good) (
        check_totals_goes draft _ _ _ (keep-ne-nil draft.lines amounts)
          (debits_of-keep draft.lines ∙ totals ∙ sym (credits_of-keep draft.lines)))
