-- ===== src/Inventory/Redelivery.antt =====
-- What the bus may deliver twice: transfers and returns
-- (services/inventory/src/stock/stock.service.ts).
use merchandising_funnel_aut.Common.{
  ℕ, ◌≡◌, refl, inl, inr, Bool, true, false, Option, none, some, if◌then◌else◌, arith, pair_key,
  number_key, Bool-cases, same_pair, any, ==_iff,
}
use merchandising_funnel_aut.Common.Int.{ℤ, pos, ◌+ℤ◌, neg, int_laws}
use merchandising_funnel_aut.Common.Table.{Table, find, update, upsert}
use merchandising_funnel_aut.Events.{StockTransferredEvent}
use merchandising_funnel_aut.Inventory.State.{
  Product, StockLevel, Inventory, Env, empty_level, increment,
}
use merchandising_funnel_aut.Inventory.Stock.{
  is_transfer_entry, transfer_stock, transfer_found, apply_stock_transfer, is_return_entry,
  return_found, apply_item_return, move_stock,
}
use merchandising_funnel_aut.Inventory.Levels.{
  on_hand_at, allocated_at, HasLevel, on_hand-upsert, on_hand-change, allocated-upsert,
  allocated-change, HasLevel-upsert, HasLevel-upsert_self, HasLevel-update,
}

abbrev is_applied : StockTransferredEvent → Inventory → Bool
is_applied event s = any (is_transfer_entry event.transfer_number) s.transactions

-- After its transfer an event is in the log.
transfer_stock-is_applied :
    (env : Env) (p : Product) (event : StockTransferredEvent) (s : Inventory)
    → is_applied event (transfer_stock env p event s) ≡ true
unfolding transfer_stock
transfer_stock-is_applied env p event s =
    ground (arith, ==_iff event.transfer_number event.transfer_number)

transfer_found_again :
    (env env' : Env) (event : StockTransferredEvent) (found : Option Product) (s : Inventory)
    → found ≡ find event.sku s.products
    → apply_stock_transfer env' event (transfer_found env event found s)
      ≡ transfer_found env event found s
unfolding apply_stock_transfer transfer_found
transfer_found_again env env' event none s e = elim (Bool-cases (is_applied event s)) [
  | inl h ↦ rw h
  | inr h ↦ rw (h, ← e)
]
transfer_found_again env env' event (some p) s e = rw (transfer_stock-is_applied env p event s)

-- A transfer event that is delivered again changes nothing.
pub apply_stock_transfer_twice :
    (env env' : Env) (event : StockTransferredEvent) (s : Inventory)
    → apply_stock_transfer env' event (apply_stock_transfer env event s)
      ≡ apply_stock_transfer env event s
unfolding apply_stock_transfer
apply_stock_transfer_twice env env' event s = elim (Bool-cases (is_applied event s)) [
  | inl h ↦ rw (h, h)
  | inr h ↦ rw h (transfer_found_again env env' event (find event.sku s.products) s refl)
]

return_found_again :
    (env env' : Env) (sku location_code : ℕ) (quantity : ℤ) (return_id : ℕ) (found : Option Product)
    (s : Inventory)
    → found ≡ find sku s.products
    → apply_item_return env' sku location_code quantity return_id
        (return_found env location_code quantity return_id found s)
      ≡ return_found env location_code quantity return_id found s
unfolding apply_item_return return_found move_stock
return_found_again env env' sku location_code quantity return_id none s e = rw (← e)
return_found_again env env' sku location_code quantity return_id (some p) s e =
    elim (Bool-cases (any (is_return_entry return_id p.id location_code) s.transactions)) [
      | inl h ↦ rw (h, ← e, h)
      | inr h ↦
          rw (h, ← e)
            (ground (
              arith,
              ==_iff return_id return_id,
              ==_iff p.id p.id,
              ==_iff location_code location_code,
            ))
    ]

-- A returned line that is delivered again changes nothing.
pub apply_item_return_twice :
    (env env' : Env) (sku location_code : ℕ) (quantity : ℤ) (return_id : ℕ) (s : Inventory)
    → apply_item_return env' sku location_code quantity return_id
        (apply_item_return env sku location_code quantity return_id s)
      ≡ apply_item_return env sku location_code quantity return_id s
unfolding apply_item_return
apply_item_return_twice env env' sku location_code quantity return_id s =
    return_found_again env env' sku location_code quantity return_id (find sku s.products) s refl

-- The quantity that a transfer brings to a product at a location.
abbrev pub brought : Product → StockTransferredEvent → ℕ → ℕ → ℤ
brought p event q l =
    (if same_pair (p.id, event.to_location_code) (q, l) then event.quantity else pos 0)
    +ℤ (if same_pair (p.id, event.from_location_code) (q, l) then neg event.quantity else pos 0)

-- Both levels of a transfer are there before they change.
abbrev ready : ℕ → ℕ → ℕ → ℤ → Table (ℕ × ℕ) StockLevel → Table (ℕ × ℕ) StockLevel
ready p from to v L =
    upsert (p, to) (empty_level v) (λ r. r) (upsert (p, from) (empty_level v) (λ r. r) L)

module _ (p from to : ℕ) (v : ℤ) (L : Table (ℕ × ℕ) StockLevel) where
  ready-from : HasLevel p from (ready p from to v L)
  ready-from = HasLevel-upsert p to p from _ _ _ (HasLevel-upsert_self p from _ _ L)

  ready-to : (d : ℤ) → HasLevel p to (update (p, from) (increment d (pos 0)) (ready p from to v L))
  ready-to d = HasLevel-update p from p to _ _ (HasLevel-upsert_self p to _ _ _)

  transfer-on_hand :
      (d : ℤ) (q l : ℕ)
      → on_hand_at q l (
          update
            (p, to)
            (increment d (pos 0))
            (update (p, from) (increment (neg d) (pos 0)) (ready p from to v L)))
        ≡ on_hand_at q l L
          +ℤ ((if same_pair (p, to) (q, l) then d else pos 0)
              +ℤ (if same_pair (p, from) (q, l) then neg d else pos 0))
  transfer-on_hand d q l =
      rw
        (
          on_hand-change p to q l _ d (pos 0) (ready-to (neg d)),
          on_hand-change p from q l _ (neg d) (pos 0) ready-from,
          on_hand-upsert p to q l _ v,
          on_hand-upsert p from q l L v,
        )
        (grind int_laws)

  transfer-allocated :
      (d : ℤ) (q l : ℕ)
      → allocated_at q l (
          update
            (p, to)
            (increment d (pos 0))
            (update (p, from) (increment (neg d) (pos 0)) (ready p from to v L)))
        ≡ allocated_at q l L
  transfer-allocated d q l =
      rw
        (
          allocated-change p to q l _ d (pos 0) (ready-to (neg d)),
          allocated-change p from q l _ (neg d) (pos 0) ready-from,
          allocated-upsert p to q l _ v,
          allocated-upsert p from q l L v,
        )
        (grind int_laws)

-- The first delivery of a transfer of a known product takes its quantity from the source and adds
-- it to the destination; no other stock changes, and nothing allocated does.
pub apply_stock_transfer_moves :
    (env : Env) (event : StockTransferredEvent) (p : Product) (s : Inventory)
    → any (is_transfer_entry event.transfer_number) s.transactions ≡ false
    → find event.sku s.products ≡ some p
    → (q l : ℕ)
    → let s' = apply_stock_transfer env event s in
      (on_hand_at q l s'.levels ≡ on_hand_at q l s.levels +ℤ brought p event q l)
      × (allocated_at q l s'.levels ≡ allocated_at q l s.levels)
unfolding apply_stock_transfer transfer_found transfer_stock
apply_stock_transfer_moves env event p s new known q l =
    rw (new, known)
      (
        transfer-on_hand p.id event.from_location_code event.to_location_code p.unit_cost s.levels
            event.quantity q l,
        transfer-allocated p.id event.from_location_code event.to_location_code p.unit_cost s.levels
            event.quantity q l,
      )
