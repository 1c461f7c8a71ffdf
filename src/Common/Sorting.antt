-- ===== src/Common/Sorting.antt =====
-- `sort` with a comparison, as JavaScript's arrays have it: entries that compare as equal keep their
-- order. `before a b` is that the comparison of a with b is not positive.
use mathlib.Core.Path.{◌≡◌, refl, sym, ap, ◌∙◌, subst}
use mathlib.Core.Logic.{inl, inr}
use mathlib.Core.Bool.{Bool, true, false}
use mathlib.Core.Option
use mathlib.Core.Option.{Option, none, some}
use mathlib.Core.List.{List, [], ◌∷◌}
use merchandising_funnel_aut.Common.Tests.{Bool-cases, Option-cases, if◌then◌else◌}
use merchandising_funnel_aut.Common.Lists.{All, All-map, sum_of}
use merchandising_funnel_aut.Common.Int.{ℤ, ◌+ℤ◌, int_laws}

module _ {ℓ} {A : Type ℓ} (before : A → A → Bool) where
  abbrev pub insert : A → List A → List A
  insert x [] = x ∷ []
  insert x (y ∷ ys) = if before x y then x ∷ y ∷ ys else y ∷ insert x ys

  abbrev pub sort : List A → List A
  sort [] = []
  sort (x ∷ xs) = insert x (sort xs)

-- The first entry.
abbrev pub first_of {ℓ} : {A : Type ℓ} → List A → Option A
first_of [] = none
first_of (x ∷ xs) = some x

-- The first of two, by the comparison.
abbrev pub first_or {ℓ} : {A : Type ℓ} → (A → A → Bool) → A → Option A → A
first_or before x none = x
first_or before x (some y) = if before x y then x else y

module _ {ℓ} {A : Type ℓ} (before : A → A → Bool) where
  first_of-insert :
      (x : A) (xs : List A) → first_of (insert before x xs) ≡ some (first_or before x (first_of xs))
  first_of-insert x [] = refl
  first_of-insert x (y ∷ ys) = elim (Bool-cases (before x y)) [
    | inl e ↦ rw e refl
    | inr e ↦ rw e refl
  ]

  sort-none :
      (z : A) (xs : List A) → first_of (sort before xs) ≡ none → All (λ y. before z y ≡ true) xs
  sort-none z [] e = tt
  sort-none z (w ∷ ws) e = absurd (cc (first_of-insert w (sort before ws), e))

  pub sort-empty : (xs : List A) → first_of (sort before xs) ≡ none → xs ≡ []
  sort-empty [] e = refl
  sort-empty (w ∷ ws) e = absurd (cc (first_of-insert w (sort before ws), e))

  earlier_of :
      ((x y z : A) → before x y ≡ true → before y z ≡ true → before x z ≡ true)
      → ((x y : A) → before x y ≡ false → before y x ≡ true)
      → ((x : A) → before x x ≡ true)
      → (z y : A) (xs : List A) (b : Bool) → before z y ≡ b
      → All (λ w. before y w ≡ true) xs
      → All (λ w. before (if b then z else y) w ≡ true) (z ∷ xs)
  earlier_of trans total same z y xs true e all = (same z, All-map _ _ xs (λ w. trans z y w e) all)
  earlier_of trans total same z y xs false e all = (total z y e, all)

  -- The first entry of a list in order comes before every other, where the order is total.
  pub first_of-sort :
      ((x y z : A) → before x y ≡ true → before y z ≡ true → before x z ≡ true)
      → ((x y : A) → before x y ≡ false → before y x ≡ true)
      → ((x : A) → before x x ≡ true)
      → (xs : List A) {x : A} → first_of (sort before xs) ≡ some x
      → All (λ y. before x y ≡ true) xs
  first_of-sort trans total same [] h = tt
  first_of-sort trans total same (z ∷ xs) {x} h = elim (Option-cases (first_of (sort before xs))) [
    | inl e ↦
        let first =
          sym (ap (λ o. some (first_or before z o)) e)
          ∙ sym (first_of-insert z (sort before xs))
          ∙ h in
        subst (λ x. All (λ y. before x y ≡ true) (z ∷ xs)) (Option.some-injective z x first)
          (same z, sort-none z xs e)
    | inr (y, e) ↦
        let first =
          sym (ap (λ o. some (first_or before z o)) e)
          ∙ sym (first_of-insert z (sort before xs))
          ∙ h in
        subst (λ x. All (λ y. before x y ≡ true) (z ∷ xs)) (Option.some-injective _ x first)
          (earlier_of trans total same z y xs _ refl (first_of-sort trans total same xs e))
  ]

  -- Sorting changes no sum and no property that holds of every entry.
  sum_of-insert :
      (f : A → ℤ) (x : A) (xs : List A) → sum_of f (insert before x xs) ≡ f x +ℤ sum_of f xs
  sum_of-insert f x [] = refl
  sum_of-insert f x (y ∷ ys) = elim (Bool-cases (before x y)) [
    | inl e ↦ rw e refl
    | inr e ↦ rw (e, sum_of-insert f x ys) (omega int_laws)
  ]

  pub sum_of-sort : (f : A → ℤ) (xs : List A) → sum_of f (sort before xs) ≡ sum_of f xs
  sum_of-sort f [] = refl
  sum_of-sort f (x ∷ xs) = rw (sum_of-insert, sum_of-sort f xs) refl

  All-insert {κ} :
      (P : A → Type κ) (x : A) (xs : List A) → P x → All P xs → All P (insert before x xs)
  All-insert P x [] p ps = (p, tt)
  All-insert P x (y ∷ ys) p (q, ps) = elim (Bool-cases (before x y)) [
    | inl e ↦ rw e (p, (q, ps))
    | inr e ↦ rw e (q, All-insert P x ys p ps)
  ]

  pub All-sort {κ} : (P : A → Type κ) (xs : List A) → All P xs → All P (sort before xs)
  All-sort P [] ps = tt
  All-sort P (x ∷ xs) (p, ps) = All-insert P x (sort before xs) p (All-sort P xs ps)
