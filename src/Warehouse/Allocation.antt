-- ===== src/Warehouse/Allocation.antt =====
-- What the picks of a transfer come to
-- (services/warehouse-operations/src/transfers/transfers.service.ts).
use merchandising_funnel_aut.Common.{
  Bool-cases, sum_of, All, ◌≡◌, refl, ◌⊎◌, inl, inr, false, List, [], ◌∷◌, arith,
}
use merchandising_funnel_aut.Common.Int.{
  ℤ, ◌+ℤ◌, ◌-ℤ◌, ◌≤ℤ◌, ◌<ℤ◌, leb_ℤ, ◌==ℤ◌, ==ℤ_iff, parts_same, pos, int_laws,
}
use merchandising_funnel_aut.Warehouse.Transfers.{Source, PickDraft, min_ℤ, allocate}

abbrev pub drafted : List PickDraft → ℤ
drafted = sum_of (λ d. d.quantity)

abbrev pub offered : List Source → ℤ
offered = sum_of (λ x. x.available)

abbrev pub HasSome : Source → Type 0
HasSome source = pos 0 <ℤ source.available

pub min_ℤ-bounds :
    (a b : ℤ) → (min_ℤ a b ≤ℤ a) × (min_ℤ a b ≤ℤ b) × ((min_ℤ a b ≡ a) ⊎ (min_ℤ a b ≡ b))
min_ℤ-bounds a b = elim (Bool-cases (leb_ℤ a b)) [
  | inl low ↦ rw low (omega arith, ground arith, inl refl)
  | inr high ↦ rw high (ground arith, omega arith, inr refl)
]

-- The loop draws the whole quantity, or all that there is.
pub record IsDrawn (sources : List Source) (wanted : ℤ) (r : List PickDraft × ℤ) : Type 0 where
  pub adds_up : drafted r.0 +ℤ r.1 ≡ wanted
  pub left : pos 0 ≤ℤ r.1
  pub positive : All (λ (d : PickDraft). pos 0 <ℤ d.quantity) r.0
  pub short : pos 0 <ℤ r.1 → drafted r.0 ≡ offered sources
  pub enough : r.1 ≡ pos 0 → wanted ≤ℤ offered sources

offered_low : (sources : List Source) → All HasSome sources → pos 0 ≤ℤ offered sources
offered_low [] all = omega arith
offered_low (x ∷ sources) (has, all) = let rest = offered_low sources all in omega int_laws

drafted_low :
    (drafts : List PickDraft)
    → All (λ (d : PickDraft). pos 0 <ℤ d.quantity) drafts
    → pos 0 ≤ℤ drafted drafts
drafted_low [] all = omega arith
drafted_low (d ∷ drafts) (has, all) = let rest = drafted_low drafts all in omega int_laws

-- The arithmetic of one turn of the loop.
module _ (wanted available q rest_drafted rest_left rest_offered : ℤ)
    (adds_up : rest_drafted +ℤ rest_left ≡ wanted -ℤ q) where
  turn_adds : q +ℤ rest_drafted +ℤ rest_left ≡ wanted
  turn_adds = let e = parts_same _ _ adds_up in omega int_laws

  turn_short :
      (q ≡ available) ⊎ (q ≡ wanted)
      → pos 0 ≤ℤ rest_drafted
      → pos 0 <ℤ rest_left
      → rest_drafted ≡ rest_offered
      → q +ℤ rest_drafted ≡ available +ℤ rest_offered
  turn_short (inl all) low more same = rw (all, same) refl
  turn_short (inr whole) low more same = absurd (turn_over whole low more)
    where
      turn_over : q ≡ wanted → pos 0 ≤ℤ rest_drafted → pos 0 <ℤ rest_left → ⊥
      turn_over whole low more =
          let e = parts_same _ _ adds_up in let f = parts_same _ _ whole in omega int_laws

  turn_enough : q ≤ℤ available → wanted -ℤ q ≤ℤ rest_offered → wanted ≤ℤ available +ℤ rest_offered
  turn_enough low enough = omega int_laws

above_none : (a : ℤ) → a ≡ pos 0 → pos 0 <ℤ a → ⊥
above_none a h more = let e = parts_same _ _ h in omega int_laws

positive_min : (a b : ℤ) → pos 0 <ℤ a → pos 0 ≤ℤ b → (b ==ℤ pos 0) ≡ false → pos 0 <ℤ min_ℤ a b
positive_min a b h k n = elim (Bool-cases (leb_ℤ a b)) [
  | inl low ↦ rw low h
  | inr high ↦ rw high (ground arith)
]

pub allocate-IsDrawn :
    (sources : List Source) (wanted : ℤ)
    → All HasSome sources
    → pos 0 ≤ℤ wanted
    → IsDrawn sources wanted (allocate sources wanted)
unfolding allocate
allocate-IsDrawn [] wanted all h = record {
  adds_up = omega int_laws;
  left = h;
  positive = tt;
  short = λ _. refl;
  enough = λ e. rw e (omega arith);
}
allocate-IsDrawn (x ∷ sources) wanted (some_left, all) h = elim (Bool-cases (wanted ==ℤ pos 0)) [
  | inl none_wanted ↦
      let zero_wanted = (==ℤ_iff wanted (pos 0)).0 none_wanted in
      rw none_wanted (record {
        adds_up = omega int_laws;
        left = h;
        positive = tt;
        short = λ more. absurd (above_none wanted zero_wanted more);
        enough = λ _. rw zero_wanted (offered_low (x ∷ sources) (some_left, all));
      })
  | inr more ↦
      let (low, high, which) = min_ℤ-bounds x.available wanted in
      let rest =
        allocate-IsDrawn sources (wanted -ℤ min_ℤ x.available wanted) all (omega int_laws) in
      rw more (record {
        adds_up = turn_adds _ x.available _ _ _ (offered sources) rest.adds_up;
        left = rest.left;
        positive = (positive_min x.available wanted some_left h more, rest.positive);
        short = λ over.
            turn_short _ x.available _ _ _ (offered sources) rest.adds_up which
              (drafted_low _ rest.positive) over (rest.short over);
        enough = λ done.
            turn_enough _ x.available _ _ _ (offered sources) rest.adds_up low (rest.enough done);
      })
]
