-- ===== src/Warehouse/Bins.antt =====
-- The choice of a bin (services/warehouse-operations/src/putaway/bin-selection.ts).
use mathlib.Core.Option
use merchandising_funnel_aut.Common.{
  ltb, leb, ◌==◌, if◌then◌else◌, Bool-cases, Option-cases, length, keep, All, ℕ, ◌≡◌, subst, ◌⊎◌,
  inl, inr, Bool, true, false, ◌&&◌, Option, none, some, List, [], ◌∷◌, arith,
}
use merchandising_funnel_aut.Common.Int.{ℤ, ◌-ℤ◌, ◌*ℤ◌, leb_ℤ, pos}
use merchandising_funnel_aut.Common.Sorting.{sort, first_of, sort-empty, first_of-sort, All-sort}
use merchandising_funnel_aut.Warehouse.State.{ItemAttributes}

pub record BinCandidate : Type 0 where
  pub id : ℕ
  pub code : ℕ
  pub pick_priority : ℕ
  pub capacity_volume : ℤ
  pub max_weight : ℤ
  pub used_volume : ℤ
  pub used_weight : ℤ

pub record Footprint : Type 0 where
  pub volume : ℤ
  pub weight : ℤ

-- The volume of a unit; an unknown measure makes it 0.
abbrev pub unit_volume_of : Option ℤ → Option ℤ → Option ℤ → ℤ
unit_volume_of (some length) (some width) (some height) = length *ℤ width *ℤ height
unit_volume_of _ _ _ = pos 0

abbrev pub or_zero : Option ℤ → ℤ
or_zero none = pos 0
or_zero (some a) = a

unfoldable pub footprint_for : ItemAttributes → ℤ → Footprint
footprint_for attributes quantity = record {
  volume = unit_volume_of attributes.length attributes.width attributes.height *ℤ quantity;
  weight = or_zero attributes.weight *ℤ quantity;
}

unfoldable pub has_room : Footprint → BinCandidate → Bool
has_room footprint bin =
    leb_ℤ footprint.volume (bin.capacity_volume -ℤ bin.used_volume)
    && leb_ℤ footprint.weight (bin.max_weight -ℤ bin.used_weight)

-- The comparison of the sort; codes are numbers in the order in which they are sorted.
unfoldable pub comes_first : Bool → BinCandidate → BinCandidate → Bool
comes_first high_velocity a b =
    if a.pick_priority == b.pick_priority
    then leb a.code b.code
    else (if high_velocity
        then ltb a.pick_priority b.pick_priority
        else ltb b.pick_priority a.pick_priority)

-- FR-5.1
unfoldable pub select_bin : List BinCandidate → Footprint → Bool → Option BinCandidate
unfolding has_room comes_first
select_bin bins footprint high_velocity =
    first_of (sort (comes_first high_velocity) (keep (has_room footprint) bins))

-- A bin that a putaway may go to, and comes first of those.
pub record IsBest (bins : List BinCandidate) (footprint : Footprint) (high_velocity : Bool)
    (bin : BinCandidate) : Type 0 where
  pub fits : has_room footprint bin ≡ true
  pub first : All (λ b. has_room footprint b ≡ true → comes_first high_velocity bin b ≡ true) bins

comes_first_trans :
    (v : Bool) (x y z : BinCandidate)
    → comes_first v x y ≡ true
    → comes_first v y z ≡ true
    → comes_first v x z ≡ true
unfolding comes_first
comes_first_trans true x y z h k = ground arith
comes_first_trans false x y z h k = ground arith

comes_first_total :
    (v : Bool) (x y : BinCandidate) → comes_first v x y ≡ false → comes_first v y x ≡ true
unfolding comes_first
comes_first_total true x y h = ground arith
comes_first_total false x y h = ground arith

comes_first_same : (v : Bool) (x : BinCandidate) → comes_first v x x ≡ true
unfolding comes_first
comes_first_same v x = ground arith

keep-All :
    {A : Type 0} (p : A → Bool) (P : A → Type 0) (xs : List A)
    → All P (keep p xs)
    → All (λ x. p x ≡ true → P x) xs
keep-All p P [] all = tt
keep-All p P (x ∷ xs) all = elim (Bool-cases (p x)) [
  | inl e ↦ let all' : All P (x ∷ keep p xs) = rw e at all in (λ _. all'.0, keep-All p P xs all'.1)
  | inr e ↦ (λ h. absurd (cc (e, h)), keep-All p P xs (rw e at all))
]

keep_passed : {A : Type 0} (p : A → Bool) (xs : List A) → All (λ x. p x ≡ true) (keep p xs)
keep_passed p [] = tt
keep_passed p (x ∷ xs) = elim (Bool-cases (p x)) [
  | inl e ↦ rw e (e, keep_passed p xs)
  | inr e ↦ rw e (keep_passed p xs)
]

first_of-All :
    {A : Type 0} (P : A → Type 0) (xs : List A) {x : A} → first_of xs ≡ some x → All P xs → P x
first_of-All P [] e all = absurd (cc e)
first_of-All P (y ∷ ys) {x} e (p, _) = subst P (Option.some-injective y x e) p

keep-none : {A : Type 0} (p : A → Bool) (xs : List A) → keep p xs ≡ [] → All (λ x. p x ≡ false) xs
keep-none p [] e = tt
keep-none p (x ∷ xs) e = elim (Bool-cases (p x)) [
  | inl y ↦ absurd (cc (rw y at e))
  | inr n ↦ (n, keep-none p xs (rw n at e))
]

-- The bin that is chosen has room for the volume and the weight, and no other bin that has comes
-- before it: fast-moving goods go to the lowest pick priority, slow ones to the highest, and a tie
-- goes to the first code. No bin is chosen only where none has room.
pub select_bin_lem :
    (bins : List BinCandidate) (footprint : Footprint) (high_velocity : Bool)
    → ((bin : BinCandidate) × (select_bin bins footprint high_velocity ≡ some bin)
        × IsBest bins footprint high_velocity bin)
      ⊎ ((select_bin bins footprint high_velocity ≡ none)
          × All (λ b. has_room footprint b ≡ false) bins)
unfolding select_bin
select_bin_lem bins footprint v =
    let fitting = keep (has_room footprint) bins in
    elim (Option-cases (first_of (sort (comes_first v) fitting))) [
      | inl e ↦ inr (e, keep-none (has_room footprint) bins (sort-empty (comes_first v) fitting e))
      | inr (bin, e) ↦ inl (
        bin,
        e,
        record {
          fits =
              first_of-All (λ b. has_room footprint b ≡ true) _ e
                (All-sort (comes_first v) _ fitting (keep_passed (has_room footprint) bins));
          first = keep-All (has_room footprint) _ bins (
              first_of-sort (comes_first v) (comes_first_trans v) (comes_first_total v)
                (comes_first_same v) fitting e);
        },
      )
    ]
