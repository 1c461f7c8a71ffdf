-- ===== src/Inventory/Levels.antt =====
-- What each write of the Inventory service does to the stock of a product at a location.
use merchandising_funnel_aut.Common.{
  ℕ, ◌≡◌, ◌≢◌, Option, none, some, if◌then◌else◌, arith, pair_key, number_key, same_pair,
  same_pair_iff,
}
use merchandising_funnel_aut.Common.{inl, inr, Option-cases}
use merchandising_funnel_aut.Common.Int.{ℤ, pos, ◌+ℤ◌, int_laws}
use merchandising_funnel_aut.Common.Table.{Table, find, update, upsert, find-update, find-upsert}
use merchandising_funnel_aut.Inventory.State.{StockLevel, empty_level, increment}

abbrev pub on_hand_of : Option StockLevel → ℤ
on_hand_of none = pos 0
on_hand_of (some l) = l.on_hand

abbrev pub allocated_of : Option StockLevel → ℤ
allocated_of none = pos 0
allocated_of (some l) = l.allocated

-- The stock of a product at a location; 0 where it has no level.
abbrev pub on_hand_at : ℕ → ℕ → Table (ℕ × ℕ) StockLevel → ℤ
on_hand_at p l levels = on_hand_of (find (p, l) levels)

abbrev pub allocated_at : ℕ → ℕ → Table (ℕ × ℕ) StockLevel → ℤ
allocated_at p l levels = allocated_of (find (p, l) levels)

abbrev pub HasLevel : ℕ → ℕ → Table (ℕ × ℕ) StockLevel → Type 0
HasLevel p l levels = find (p, l) levels ≢ none

module _ (q m p l : ℕ) (levels : Table (ℕ × ℕ) StockLevel) where
  -- Making sure that a level exists changes no stock.
  pub on_hand-upsert :
      (v : ℤ)
      → on_hand_at p l (upsert (q, m) (empty_level v) (λ r. r) levels) ≡ on_hand_at p l levels
  on_hand-upsert v = rw find-upsert (ground (arith, same_pair_iff (q, m) (p, l)))

  pub allocated-upsert :
      (v : ℤ)
      → allocated_at p l (upsert (q, m) (empty_level v) (λ r. r) levels) ≡ allocated_at p l levels
  allocated-upsert v = rw find-upsert (ground (arith, same_pair_iff (q, m) (p, l)))

  pub HasLevel-upsert :
      (v : StockLevel) (f : StockLevel → StockLevel)
      → HasLevel p l levels
      → HasLevel p l (upsert (q, m) v f levels)
  HasLevel-upsert v f h = rw find-upsert (ground arith)

  pub HasLevel-update :
      (f : StockLevel → StockLevel) → HasLevel p l levels → HasLevel p l (update (q, m) f levels)
  HasLevel-update f h = rw find-update (ground arith)

  -- A change reaches the level of its key, and no other.
  pub on_hand-change :
      (d a : ℤ)
      → HasLevel q m levels
      → on_hand_at p l (update (q, m) (increment d a) levels)
        ≡ (if same_pair (q, m) (p, l) then on_hand_at p l levels +ℤ d else on_hand_at p l levels)
  on_hand-change d a h = rw find-update (ground (arith, same_pair_iff (q, m) (p, l)))

  pub allocated-change :
      (d a : ℤ)
      → HasLevel q m levels
      → allocated_at p l (update (q, m) (increment d a) levels) ≡ (
          if same_pair (q, m) (p, l) then allocated_at p l levels +ℤ a else allocated_at p l levels)
  allocated-change d a h = rw find-update (ground (arith, same_pair_iff (q, m) (p, l)))

  -- An adjustment of a level that does not exist yet counts from 0.
  pub on_hand-adjust :
      (d v : ℤ)
      → on_hand_at p l (
          upsert
            (q, m)
            (record { on_hand = d; allocated = pos 0; unit_value = v })
            (increment d (pos 0))
            levels)
        ≡ (if same_pair (q, m) (p, l) then on_hand_at p l levels +ℤ d else on_hand_at p l levels)
  on_hand-adjust d v = rw find-upsert (elim (Option-cases (find (p, l) levels)) [
    | inl e ↦ rw e (grind int_laws)
    | inr (r, e) ↦ rw e (ground arith)
  ])

pub HasLevel-upsert_self :
    (q m : ℕ) (v : StockLevel) (f : StockLevel → StockLevel) (levels : Table (ℕ × ℕ) StockLevel)
    → HasLevel q m (upsert (q, m) v f levels)
HasLevel-upsert_self q m v f levels = rw find-upsert (ground (arith, same_pair_iff (q, m) (q, m)))
