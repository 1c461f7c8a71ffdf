-- ===== src/Inventory/Checkout.antt =====
-- The stock check of a checkout (StockService.reserve in
-- services/inventory/src/stock/stock.service.ts).
use merchandising_funnel_aut.Common.{
  Bool-cases, Option-cases, number_key, same_pair_iff, pair_key, same_pair_refl, ℕ, ◌≡◌, refl, ◌⊎◌,
  inl, inr, true, false, Option, none, some, arith,
}
use merchandising_funnel_aut.Common.Action.{Keeps, Keeps-bind, ok}
use merchandising_funnel_aut.Common.Int.{ℤ, ◌+ℤ◌, ◌-ℤ◌, ◌≤ℤ◌, ◌<ℤ◌, ltb_ℤ, pos, int_laws}
use merchandising_funnel_aut.Common.Table.{find, upsert, find-update, find-upsert}
use merchandising_funnel_aut.Inventory.Levels.{
  on_hand_at, allocated_at, on_hand-upsert, allocated-upsert, on_hand-change, allocated-change,
  HasLevel-upsert_self,
}
use merchandising_funnel_aut.Inventory.Lifecycle.{available_at, IsCovered}
use merchandising_funnel_aut.Inventory.Reservations.{
  StockCheckOutcome, reserve_stock, check_and_reserve, check_level, reserve_product, reserve,
}
use merchandising_funnel_aut.Inventory.State.{
  Env, Product, StockLevel, Inventory, empty_level, available, upsert_level, get_product_or_throw,
}

-- A check that promises no more than the level has keeps every promise covered.
check_and_reserve-IsCovered :
    (env : Env) (p : Product) (l : ℕ) (quantity : ℤ) (ref : ℕ) (level : StockLevel) (s : Inventory)
    → find (p.id, l) s.levels ≡ some level
    → IsCovered s
    → IsCovered (check_and_reserve env p l quantity ref level s).1
unfolding check_and_reserve reserve_stock
check_and_reserve-IsCovered env p l quantity ref level s e c q m =
    elim (Bool-cases (ltb_ℤ (available level) quantity)) [
      | inl short ↦ rw short (c q m)
      | inr enough ↦
          rw (enough, find-update) (grind (int_laws, c q m, same_pair_iff (p.id, l) (q, m)))
    ]

check_level-IsCovered :
    (env : Env) (p : Product) (l : ℕ) (quantity : ℤ) (ref : ℕ) (found : Option StockLevel)
    (s : Inventory)
    → find (p.id, l) s.levels ≡ found
    → IsCovered s
    → IsCovered (check_level env p l quantity ref found s).1
unfolding check_level
check_level-IsCovered env p l quantity ref none s e c = c
check_level-IsCovered env p l quantity ref (some level) s e c =
    check_and_reserve-IsCovered env p l quantity ref level s e c

reserve_product-Keeps :
    (env : Env) (l : ℕ) (quantity : ℤ) (ref : ℕ) (p : Product)
    → Keeps IsCovered (reserve_product env l quantity ref p)
unfolding reserve_product
reserve_product-Keeps env l quantity ref p s c =
    check_level-IsCovered env p l quantity ref _ _ refl λ q m.
      rw
        (
          on_hand-upsert p.id l q m s.levels p.unit_cost,
          allocated-upsert p.id l q m s.levels p.unit_cost,
        )
        (c q m)

get_product_or_throw-Keeps : (sku : ℕ) → Keeps IsCovered (get_product_or_throw sku)
get_product_or_throw-Keeps sku s c = ground (arith, c)

-- Whatever a checkout asks for, one that runs alone never promises more of a product at a location
-- than is on hand there.
pub reserve-IsCovered :
    (env : Env) (sku l : ℕ) (quantity : ℤ) (ref : ℕ) (s : Inventory)
    → IsCovered s
    → IsCovered (reserve env sku l quantity ref s).1
unfolding reserve
reserve-IsCovered env sku l quantity ref =
    Keeps-bind IsCovered (get_product_or_throw sku) _ (get_product_or_throw-Keeps sku)
      (reserve_product-Keeps env l quantity ref)

-- The level that the check reads is there, with the stock that it had.
checked_level :
    (p : Product) (l : ℕ) (v : ℤ) (s : Inventory)
    → (level : StockLevel) × (find (p.id, l) (upsert (p.id, l) (empty_level v) (λ r. r) s.levels)
        ≡ some level)
      × (available level ≡ available_at p.id l s)
checked_level p l v s = elim (Option-cases (find (p.id, l) s.levels)) [
  | inl e ↦ (empty_level v, rw (find-upsert, same_pair_refl, e), rw e)
  | inr (r, e) ↦ (r, rw (find-upsert, same_pair_refl, e), rw e)
]

abbrev pub granted : ℤ → ℤ → ℕ → StockCheckOutcome
granted quantity available_after id = record {
  available = true;
  quantity_reserved = quantity;
  available_quantity_after_reservation = available_after;
  reservation_id = some id;
}

abbrev pub refused : ℤ → StockCheckOutcome
refused available_after = record {
  available = false;
  quantity_reserved = pos 0;
  available_quantity_after_reservation = available_after;
  reservation_id = none;
}

module _ (env : Env) (l : ℕ) (quantity : ℤ) (ref : ℕ) (p : Product) (s : Inventory) where
  reserve_product_enough :
      quantity ≤ℤ available_at p.id l s
      → reserve_product env l quantity ref p s ≡ (
        ok (granted quantity (available_at p.id l s -ℤ quantity) s.next_id),
        reserve_stock env p l quantity ref (upsert_level p.id l p.unit_cost s),
      )
  unfolding reserve_product check_level check_and_reserve upsert_level
  reserve_product_enough h =
      let (level, found, same) = checked_level p l p.unit_cost s in
      rw (found, check_level, same) (ground arith)

  reserve_product_short :
      available_at p.id l s <ℤ quantity
      → reserve_product env l quantity ref p s
        ≡ (ok (refused (available_at p.id l s)), upsert_level p.id l p.unit_cost s)
  unfolding reserve_product check_level check_and_reserve upsert_level
  reserve_product_short h =
      let (level, found, same) = checked_level p l p.unit_cost s in
      rw (found, check_level, same) (ground arith)

  reserve_stock_changes :
      let s' = reserve_stock env p l quantity ref (upsert_level p.id l p.unit_cost s) in
      (allocated_at p.id l s'.levels ≡ allocated_at p.id l s.levels +ℤ quantity)
      × (on_hand_at p.id l s'.levels ≡ on_hand_at p.id l s.levels)
  unfolding reserve_stock upsert_level
  reserve_stock_changes = (
    rw (
      allocated-change p.id l p.id l _ (pos 0) quantity (HasLevel-upsert_self p.id l _ _ s.levels),
      same_pair_refl,
      allocated-upsert p.id l p.id l s.levels p.unit_cost,
    ),
    rw
        (
          on_hand-change p.id l p.id l _ (pos 0) quantity
              (HasLevel-upsert_self p.id l _ _ s.levels),
          same_pair_refl,
          on_hand-upsert p.id l p.id l s.levels p.unit_cost,
        )
        (omega int_laws),
  )

enough_or_short : (a b : ℤ) → (a ≤ℤ b) ⊎ (b <ℤ a)
enough_or_short a b = elim (Bool-cases (ltb_ℤ b a)) [
  | inl short ↦ inr (ground arith)
  | inr enough ↦ inl (ground arith)
]

-- A known product is reserved in full where enough of it is available at the location, and not at
-- all where it is not; the answer says which, and what is available afterwards.
pub reserve_all_or_nothing :
    (env : Env) (sku l : ℕ) (quantity : ℤ) (ref : ℕ) (s : Inventory) (p : Product)
    → find sku s.products ≡ some p
    → let r = reserve env sku l quantity ref s in
      ((quantity ≤ℤ available_at p.id l s)
        × (r.0 ≡ ok (granted quantity (available_at p.id l s -ℤ quantity) s.next_id))
        × (allocated_at p.id l r.1.levels ≡ allocated_at p.id l s.levels +ℤ quantity)
        × (on_hand_at p.id l r.1.levels ≡ on_hand_at p.id l s.levels))
      ⊎ ((available_at p.id l s <ℤ quantity)
          × (r.0 ≡ ok (refused (available_at p.id l s)))
          × (allocated_at p.id l r.1.levels ≡ allocated_at p.id l s.levels)
          × (r.1.reservations ≡ s.reservations))
unfolding reserve upsert_level
reserve_all_or_nothing env sku l quantity ref s p known =
    rw (known, reserve)
      (elim (enough_or_short quantity (available_at p.id l s)) [
        | inl enough ↦
            let (changed, kept) = reserve_stock_changes env l quantity ref p s in
            rw (reserve_product_enough env l quantity ref p s enough)
              (inl (enough, refl, changed, kept))
        | inr short ↦
            rw (reserve_product_short env l quantity ref p s short)
              (inr (short, refl, allocated-upsert p.id l p.id l s.levels p.unit_cost, refl))
      ])
