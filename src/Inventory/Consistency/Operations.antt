-- ===== src/Inventory/Consistency/Operations.antt =====
-- The calls of StockService and the invariant of the stock tables
-- (services/inventory/src/stock/stock.service.ts).
use merchandising_funnel_aut.Common.{
  ℕ, ◌≡◌, refl, inl, inr, true, not, ◌||◌, Option, none, some, List, [], ◌∷◌, arith, pair_key,
  number_key, Bool-cases, any,
}
use merchandising_funnel_aut.Common.Int.{ℤ, pos, leb_ℤ, ltb_ℤ, ◌==ℤ◌}
use merchandising_funnel_aut.Common.Table.{find}
use merchandising_funnel_aut.Common.Action.{Keeps, Keeps-bind, Keeps-when, when}
use merchandising_funnel_aut.Inventory.State.{Event, publish, get_product_or_throw}
use merchandising_funnel_aut.Inventory.Stock.{adjust_product, or_stub, transfer_found, return_found}
use merchandising_funnel_aut.Inventory.Reservations.{check_level, reserve_product}
use merchandising_funnel_aut.Events.{GoodsReceivedEvent, GoodsReceivedLine, StockTransferredEvent}
use merchandising_funnel_aut.Inventory.State.{
  Product, StockLevel, TransactionType, ReferenceType, Inventory, Env, available,
}
use merchandising_funnel_aut.Inventory.Stock.{
  adjust, product_or_stub, is_good, move_stock, receive_line, receive_lines, is_transfer_entry,
  transfer_stock, apply_stock_transfer, is_return_entry,
}
use merchandising_funnel_aut.Inventory.Reservations.{reserve_stock, check_and_reserve, reserve}
use merchandising_funnel_aut.Inventory.Levels.{
  HasLevel, HasLevel-upsert, HasLevel-upsert_self, HasLevel-update,
}
use merchandising_funnel_aut.Inventory.Consistency.Writes.{
  IsConsistent, is_movement, upsert-IsConsistent, movement-IsConsistent, entry-IsConsistent,
  adjustment-IsConsistent, reservation-IsConsistent,
}

abbrev pub Consistent : Inventory → Type 0
Consistent s = IsConsistent s.levels s.transactions s.reservations

publish-Keeps : (env : Env) (event : Event) → Keeps Consistent (publish env event)
publish-Keeps env event s c = ground (arith, c)

-- A publication changes no stock, whether the bus takes it or not.
adjust_product-Keeps :
    (env : Env) (sku location_code : ℕ) (delta : ℤ) (reason adjusted_by_id : ℕ) (p : Product)
    → Keeps Consistent (adjust_product env sku location_code delta reason adjusted_by_id p)
unfolding adjust_product
adjust_product-Keeps env sku location_code delta reason adjusted_by_id p s c =
    Keeps-bind Consistent (when (not (delta ==ℤ pos 0)) (publish env _)) _
      (Keeps-when Consistent (not (delta ==ℤ pos 0)) _ (publish-Keeps env _)) (λ _ _ k. k) _
      (adjustment-IsConsistent s.levels s.transactions s.reservations c _ p.unit_cost refl)

get_product_or_throw-Keeps : (sku : ℕ) → Keeps Consistent (get_product_or_throw sku)
get_product_or_throw-Keeps sku s c = ground (arith, c)

pub adjust-Keeps :
    (env : Env) (sku location_code : ℕ) (delta : ℤ) (reason adjusted_by_id : ℕ)
    → Keeps Consistent (adjust env sku location_code delta reason adjusted_by_id)
unfolding adjust
adjust-Keeps env sku location_code delta reason adjusted_by_id =
    Keeps-bind Consistent (get_product_or_throw sku) _ (get_product_or_throw-Keeps sku)
      (adjust_product-Keeps env sku location_code delta reason adjusted_by_id)

move_stock-Consistent :
    (env : Env) (p : Product) (location_code : ℕ) (delta : ℤ) (type : TransactionType)
    (reference_type : ReferenceType) (reference_id : ℕ) (s : Inventory)
    → is_movement type ≡ true
    → Consistent s
    → Consistent (move_stock env p location_code delta type reference_type reference_id s)
unfolding move_stock
move_stock-Consistent env p location_code delta type reference_type reference_id s m c =
    movement-IsConsistent _ s.transactions s.reservations
      (upsert-IsConsistent s.levels s.transactions s.reservations c p.id location_code p.unit_cost)
      _ m (HasLevel-upsert_self p.id location_code _ _ s.levels)

or_stub-Consistent :
    (line : GoodsReceivedLine) (found : Option Product) (s : Inventory)
    → Consistent s
    → Consistent (or_stub line found s).1
unfolding or_stub
or_stub-Consistent line none s c = c
or_stub-Consistent line (some p) s c = c

receive_line-Consistent :
    (env : Env) (event : GoodsReceivedEvent) (line : GoodsReceivedLine) (s : Inventory)
    → Consistent s
    → Consistent (receive_line env event line s)
unfolding receive_line product_or_stub
receive_line-Consistent env event line s c =
    elim (Bool-cases (not (is_good line.condition) || leb_ℤ line.quantity_received (pos 0))) [
      | inl skipped ↦ rw skipped c
      | inr taken ↦ rw taken (
          move_stock-Consistent env (or_stub line (find line.sku s.products) s).0 _ _ _ _ _
            (or_stub line (find line.sku s.products) s).1 refl
            (or_stub-Consistent line (find line.sku s.products) s c))
    ]

pub receive_lines-Consistent :
    (env : Env) (event : GoodsReceivedEvent) (lines : List GoodsReceivedLine) (s : Inventory)
    → Consistent s
    → Consistent (receive_lines env event lines s)
unfolding receive_lines
receive_lines-Consistent env event [] s c = c
receive_lines-Consistent env event (line ∷ lines) s c =
    receive_lines-Consistent env event lines (receive_line env event line s)
      (receive_line-Consistent env event line s c)

transfer_stock-Consistent :
    (env : Env) (p : Product) (event : StockTransferredEvent) (s : Inventory)
    → Consistent s
    → Consistent (transfer_stock env p event s)
unfolding transfer_stock
transfer_stock-Consistent env p event s c =
    movement-IsConsistent _ _ s.reservations
      (movement-IsConsistent _ s.transactions s.reservations
        (upsert-IsConsistent _ s.transactions s.reservations
          (upsert-IsConsistent s.levels s.transactions s.reservations c p.id
            event.from_location_code p.unit_cost)
          p.id event.to_location_code p.unit_cost)
        _ refl
        (HasLevel-upsert p.id event.to_location_code p.id event.from_location_code _ _ _
          (HasLevel-upsert_self p.id event.from_location_code _ _ s.levels)))
      _ refl
      (HasLevel-update p.id event.from_location_code p.id event.to_location_code _ _
        (HasLevel-upsert_self p.id event.to_location_code _ _ _))

transfer_found-Consistent :
    (env : Env) (event : StockTransferredEvent) (found : Option Product) (s : Inventory)
    → Consistent s
    → Consistent (transfer_found env event found s)
unfolding transfer_found
transfer_found-Consistent env event none s c = c
transfer_found-Consistent env event (some p) s c = transfer_stock-Consistent env p event s c

pub apply_stock_transfer-Consistent :
    (env : Env) (event : StockTransferredEvent) (s : Inventory)
    → Consistent s
    → Consistent (apply_stock_transfer env event s)
unfolding apply_stock_transfer
apply_stock_transfer-Consistent env event s c =
    elim (Bool-cases (any (is_transfer_entry event.transfer_number) s.transactions)) [
      | inl applied ↦ rw applied c
      | inr new ↦ rw new (transfer_found-Consistent env event (find event.sku s.products) s c)
    ]

pub return_found-Consistent :
    (env : Env) (location_code : ℕ) (quantity : ℤ) (return_id : ℕ) (found : Option Product)
    (s : Inventory)
    → Consistent s
    → Consistent (return_found env location_code quantity return_id found s)
unfolding return_found
return_found-Consistent env location_code quantity return_id none s c = c
return_found-Consistent env location_code quantity return_id (some p) s c =
    elim (Bool-cases (any (is_return_entry return_id p.id location_code) s.transactions)) [
      | inl applied ↦ rw applied c
      | inr new ↦ rw new (move_stock-Consistent env p _ _ _ _ _ s refl c)
    ]

reserve_stock-Consistent :
    (env : Env) (p : Product) (location_code : ℕ) (quantity : ℤ) (reference : ℕ) (s : Inventory)
    → HasLevel p.id location_code s.levels
    → Consistent s
    → Consistent (reserve_stock env p location_code quantity reference s)
unfolding reserve_stock
reserve_stock-Consistent env p location_code quantity reference s h c =
    entry-IsConsistent _ s.transactions _
      (reservation-IsConsistent s.levels s.transactions s.reservations c s.next_id _ refl h) _ refl

check_level-Consistent :
    (env : Env) (p : Product) (location_code : ℕ) (quantity : ℤ) (reference : ℕ)
    (found : Option StockLevel) (s : Inventory)
    → HasLevel p.id location_code s.levels
    → Consistent s
    → Consistent (check_level env p location_code quantity reference found s).1
unfolding check_level check_and_reserve
check_level-Consistent env p location_code quantity reference none s h c = c
check_level-Consistent env p location_code quantity reference (some level) s h c =
    elim (Bool-cases (ltb_ℤ (available level) quantity)) [
      | inl short ↦ rw short c
      | inr enough ↦
          rw enough (reserve_stock-Consistent env p location_code quantity reference s h c)
    ]

reserve_product-Keeps :
    (env : Env) (location_code : ℕ) (quantity : ℤ) (reference : ℕ) (p : Product)
    → Keeps Consistent (reserve_product env location_code quantity reference p)
unfolding reserve_product
reserve_product-Keeps env location_code quantity reference p s c =
    check_level-Consistent env p location_code quantity reference _ _
      (HasLevel-upsert_self p.id location_code _ _ s.levels)
      (upsert-IsConsistent s.levels s.transactions s.reservations c p.id location_code p.unit_cost)

pub reserve-Keeps :
    (env : Env) (sku location_code : ℕ) (quantity : ℤ) (reference : ℕ)
    → Keeps Consistent (reserve env sku location_code quantity reference)
unfolding reserve
reserve-Keeps env sku location_code quantity reference =
    Keeps-bind Consistent (get_product_or_throw sku) _ (get_product_or_throw-Keeps sku)
      (reserve_product-Keeps env location_code quantity reference)
