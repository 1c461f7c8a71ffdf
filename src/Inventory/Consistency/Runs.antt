-- ===== src/Inventory/Consistency/Runs.antt =====
-- Sequences of calls of StockService (services/inventory/src/stock/stock.service.ts).
use merchandising_funnel_aut.Common.{
  ℕ, ◌≡◌, refl, inl, inr, true, Option, none, some, List, [], ◌∷◌, arith, Bool-cases,
}
use merchandising_funnel_aut.Common.{pair_key, number_key}
use merchandising_funnel_aut.Common.Int.{ℤ, pos, neg, ltb_ℤ, int_laws}
use merchandising_funnel_aut.Common.Action.{Keeps}
use merchandising_funnel_aut.Common.Table.{find}
use merchandising_funnel_aut.Events.{GoodsReceivedEvent, StockTransferredEvent}
use merchandising_funnel_aut.Inventory.State.{
  StockLevel, Reservation, ReservationStatus, Product, Inventory, Env, available,
}
use merchandising_funnel_aut.Inventory.Stock.{
  adjust, apply_goods_received, apply_stock_transfer, apply_item_return,
}
use merchandising_funnel_aut.Inventory.Reservations.{
  active_reservation, release_active, release_found, release_reservation, reserve, consume_active,
  consume_found, consume_reservation_for_sale, recompute_velocity, check_threshold,
  publish_stock_low, product_with_id,
}
use merchandising_funnel_aut.Inventory.Consistency.Writes.{is_active, settlement-IsConsistent}
use merchandising_funnel_aut.Inventory.Consistency.Operations.{
  Consistent, adjust-Keeps, receive_lines-Consistent, apply_stock_transfer-Consistent,
  return_found-Consistent, reserve-Keeps,
}

-- A reservation that is found active is in the table, and active.
pub active_reservation-found :
    (found : Option Reservation) {r : Reservation}
    → active_reservation found ≡ some r
    → (found ≡ some r) × (is_active r.status ≡ true)
active_reservation-found none e = cc
active_reservation-found (some q) e = ground arith

release_active-Consistent :
    (env : Env) (id : ℕ) (r : Reservation) (s : Inventory)
    → find id s.reservations ≡ some r
    → is_active r.status ≡ true
    → Consistent s
    → Consistent (release_active env id r s)
unfolding release_active
release_active-Consistent env id r s found a c =
    settlement-IsConsistent s.levels s.transactions s.reservations c id r ReservationStatus.released
      (pos 0) _ found a refl (λ p l. grind int_laws)

consume_active-Consistent :
    (env : Env) (id : ℕ) (r : Reservation) (quantity : ℤ) (reference : ℕ) (s : Inventory)
    → find id s.reservations ≡ some r
    → is_active r.status ≡ true
    → Consistent s
    → Consistent (consume_active env id r quantity reference s)
unfolding consume_active
consume_active-Consistent env id r quantity reference s found a c =
    settlement-IsConsistent s.levels s.transactions s.reservations c id r ReservationStatus.consumed
      (neg quantity) _ found a refl (λ p l. ground arith)

release_found-Consistent :
    (env : Env) (id : ℕ) (found : Option Reservation) (s : Inventory)
    → active_reservation (find id s.reservations) ≡ found
    → Consistent s
    → Consistent (release_found env id found s).1
unfolding release_found
release_found-Consistent env id none s e c = c
release_found-Consistent env id (some r) s e c =
    let (found, a) = active_reservation-found (find id s.reservations) e in
    release_active-Consistent env id r s found a c

publish_stock_low-Keeps :
    (env : Env) (location_code units threshold : ℕ) (level : StockLevel) (found : Option Product)
    → Keeps Consistent (publish_stock_low env location_code units threshold level found)
unfolding publish_stock_low
publish_stock_low-Keeps env location_code units threshold level none s c = c
publish_stock_low-Keeps env location_code units threshold level (some p) s c = ground (arith, c)

check_threshold-Keeps :
    (env : Env) (product_id location_code units threshold : ℕ) (found : Option StockLevel)
    → Keeps Consistent (check_threshold env product_id location_code units threshold found)
unfolding check_threshold
check_threshold-Keeps env product_id location_code units threshold none s c = c
check_threshold-Keeps env product_id location_code units threshold (some level) s c =
    elim (Bool-cases (ltb_ℤ (pos threshold) (available level))) [
      | inl above ↦ rw above c
      | inr low ↦ rw low (
          publish_stock_low-Keeps env location_code units threshold level
            (product_with_id product_id s.products) s c)
    ]

recompute_velocity-Keeps :
    (env : Env) (product_id location_code : ℕ)
    → Keeps Consistent (recompute_velocity env product_id location_code)
unfolding recompute_velocity
recompute_velocity-Keeps env product_id location_code s c =
    check_threshold-Keeps env product_id location_code _ _
      (find (product_id, location_code) s.levels) _ c

consume_found-Consistent :
    (env : Env) (id : ℕ) (quantity : ℤ) (reference : ℕ) (found : Option Reservation) (s : Inventory)
    → active_reservation (find id s.reservations) ≡ found
    → Consistent s
    → Consistent (consume_found env id quantity reference found s).1
unfolding consume_found
consume_found-Consistent env id quantity reference none s e c = c
consume_found-Consistent env id quantity reference (some r) s e c =
    let (found, a) = active_reservation-found (find id s.reservations) e in
    recompute_velocity-Keeps env r.product_id r.location_code _
      (consume_active-Consistent env id r quantity reference s found a c)

-- A call of StockService that writes, by the endpoint or consumer that makes it.
pub data Call : Type 0 where
  adjusts : (sku location_code : ℕ) → ℤ → (reason adjusted_by_id : ℕ) → Call
  receives : GoodsReceivedEvent → Call
  transfers : StockTransferredEvent → Call
  returns : (sku location_code : ℕ) → ℤ → (return_id : ℕ) → Call
  reserves : (sku location_code : ℕ) → ℤ → (transaction_reference : ℕ) → Call
  releases : (reservation_id : ℕ) → Call
  consumes : (reservation_id : ℕ) → ℤ → (transaction_reference : ℕ) → Call

-- The database after a call, which may have thrown.
abbrev pub step : Env × Call → Inventory → Inventory
step (env, Call.adjusts sku loc delta reason by) s = (adjust env sku loc delta reason by s).1
step (env, Call.receives event) s = apply_goods_received env event s
step (env, Call.transfers event) s = apply_stock_transfer env event s
step (env, Call.returns sku loc quantity id) s = apply_item_return env sku loc quantity id s
step (env, Call.reserves sku loc quantity reference) s =
    (reserve env sku loc quantity reference s).1
step (env, Call.releases id) s = (release_reservation env id s).1
step (env, Call.consumes id quantity reference) s =
    (consume_reservation_for_sale env id quantity reference s).1

abbrev pub run : List (Env × Call) → Inventory → Inventory
run [] s = s
run (c ∷ cs) s = run cs (step c s)

pub step-Consistent : (c : Env × Call) (s : Inventory) → Consistent s → Consistent (step c s)
unfolding apply_goods_received apply_item_return release_reservation consume_reservation_for_sale
step-Consistent (env, Call.adjusts sku loc delta reason by) s c =
    adjust-Keeps env sku loc delta reason by s c
step-Consistent (env, Call.receives event) s c = receive_lines-Consistent env event event.lines s c
step-Consistent (env, Call.transfers event) s c = apply_stock_transfer-Consistent env event s c
step-Consistent (env, Call.returns sku loc quantity id) s c =
    return_found-Consistent env loc quantity id (find sku s.products) s c
step-Consistent (env, Call.reserves sku loc quantity reference) s c =
    reserve-Keeps env sku loc quantity reference s c
step-Consistent (env, Call.releases id) s c = release_found-Consistent env id _ s refl c
step-Consistent (env, Call.consumes id quantity reference) s c =
    consume_found-Consistent env id quantity reference _ s refl c

-- After any sequence of adjustments, receipts, transfers, returns, reservations, releases and sales,
-- failed ones included, a consistent database is consistent: on hand is the sum of the logged
-- movements and allocated the sum of the active reservations, of each product at each location.
pub run-Consistent : (cs : List (Env × Call)) (s : Inventory) → Consistent s → Consistent (run cs s)
run-Consistent [] s c = c
run-Consistent (x ∷ cs) s c = run-Consistent cs (step x s) (step-Consistent x s c)
