-- ===== src/Tally.antt =====
-- Amounts that are added up by key, as the services do with a `Map`.
use merchandising_funnel_aut.Common.{
  ◌==◌, if◌then◌else◌, Bool-cases, number_key, pair_key, ℕ, ◌≡◌, refl, ap, ◌∙◌, inl, inr, Option,
  none, some, List, [], ◌∷◌,
}
use merchandising_funnel_aut.Common.Int.{ℤ, ◌+ℤ◌, pos, int_laws}
use merchandising_funnel_aut.Common.Table.{Table, upserted, find, upsert, find-upsert}

unfoldable pub tally : Table ℕ ℤ → List (ℕ × ℤ) → Table ℕ ℤ
tally t [] = t
tally t ((k, a) ∷ xs) = tally (upsert k a (λ b. b +ℤ a) t) xs

abbrev pub amount_of : Option ℤ → ℤ
amount_of none = pos 0
amount_of (some a) = a

-- The amounts that stand under a key, added up.
abbrev pub amounts_under : ℕ → List (ℕ × ℤ) → ℤ
amounts_under k [] = pos 0
amounts_under k ((j, a) ∷ xs) = if j == k then a +ℤ amounts_under k xs else amounts_under k xs

amount_of-upserted :
    (a : ℤ) (found : Option ℤ) → upserted a (λ b. b +ℤ a) found ≡ amount_of found +ℤ a
amount_of-upserted a none = omega int_laws
amount_of-upserted a (some b) = refl

pub find-tally :
    (k : ℕ) (xs : List (ℕ × ℤ)) (t : Table ℕ ℤ)
    → amount_of (find k (tally t xs)) ≡ amount_of (find k t) +ℤ amounts_under k xs
unfolding tally
find-tally k [] t = omega int_laws
find-tally k ((j, a) ∷ xs) t =
    find-tally k xs (upsert j a (λ b. b +ℤ a) t)
    ∙ ap (λ o. amount_of o +ℤ amounts_under k xs) (find-upsert j k a (λ b. b +ℤ a) t)
    ∙ elim (Bool-cases (j == k)) [
      | inl here ↦ rw (here, amount_of-upserted a (find k t)) (omega int_laws)
      | inr there ↦ rw there
    ]
