-- ===== src/Inventory/Lifecycle.antt =====
-- A reservation from the stock check to its end (services/inventory/src/stock/stock.service.ts).
use merchandising_funnel_aut.Common.{
  ℕ, ◌≡◌, ◌⊎◌, same_pair_refl, refl, inl, inr, false, Option, none, some, arith, pair_key,
  number_key, ==_iff,
}
use merchandising_funnel_aut.Common.Int.{ℤ, pos, ◌+ℤ◌, ◌-ℤ◌, ◌≤ℤ◌, ◌<ℤ◌, int_laws}
use merchandising_funnel_aut.Common.Action.{ok}
use merchandising_funnel_aut.Common.Table.{Table, find, update, find-update}
use merchandising_funnel_aut.Inventory.State.{
  Product, StockLevel, Reservation, ReservationStatus, Inventory, Env, available, increment,
}
use merchandising_funnel_aut.Inventory.Reservations.{
  reserve_stock, check_and_reserve, set_status, active_reservation, release_active, release_found,
  release_reservation, consume_active, recompute_velocity, check_threshold, publish_stock_low,
  consume_found, consume_reservation_for_sale,
}
use merchandising_funnel_aut.Inventory.Levels.{on_hand_at, allocated_at}

-- What is not promised of a product at a location.
abbrev pub available_at : ℕ → ℕ → Inventory → ℤ
available_at p l s = on_hand_at p l s.levels -ℤ allocated_at p l s.levels

-- Nothing is promised that is not there.
abbrev pub IsCovered : Inventory → Type 0
IsCovered s = (p l : ℕ) → allocated_at p l s.levels ≤ℤ on_hand_at p l s.levels

-- The stock check on a level that was read: all or nothing.
pub check_and_reserve-enough :
    (env : Env) (p : Product) (l : ℕ) (quantity : ℤ) (ref : ℕ) (level : StockLevel) (s : Inventory)
    → quantity ≤ℤ available level
    → (check_and_reserve env p l quantity ref level s).1 ≡ reserve_stock env p l quantity ref s
unfolding check_and_reserve
check_and_reserve-enough env p l quantity ref level s h = ground arith

pub reserve_stock-levels :
    (env : Env) (p : Product) (l : ℕ) (quantity : ℤ) (ref : ℕ) (s : Inventory)
    → (reserve_stock env p l quantity ref s).levels
      ≡ update (p.id, l) (increment (pos 0) quantity) s.levels
unfolding reserve_stock
reserve_stock-levels env p l quantity ref s = refl

-- Two checkouts that both read a level before either has written to it: where each finds enough
-- and there is not enough for both, more is promised in the end than is on hand.
pub interleaved_reservations_oversell :
    (env env' : Env) (p : Product) (l : ℕ) (a b : ℤ) (ref ref' : ℕ) (level : StockLevel)
    (s : Inventory)
    → find (p.id, l) s.levels ≡ some level
    → a ≤ℤ available level
    → b ≤ℤ available level
    → available level <ℤ a +ℤ b
    → let s' = (check_and_reserve env p l a ref level s).1 in
      let s'' = (check_and_reserve env' p l b ref' level s').1 in
      on_hand_at p.id l s''.levels <ℤ allocated_at p.id l s''.levels
interleaved_reservations_oversell env env' p l a b ref ref' level s e ha hb short =
    rw
      (
        check_and_reserve-enough env p l a ref level s ha,
        check_and_reserve-enough env' p l b ref' level (reserve_stock env p l a ref s) hb,
        reserve_stock-levels env' p l b ref' (reserve_stock env p l a ref s),
        reserve_stock-levels env p l a ref s,
        find-update,
        same_pair_refl,
        find-update,
        same_pair_refl,
        e,
      )
      (omega int_laws)

settled-none :
    (id : ℕ) (status : ReservationStatus) (R : Table ℕ Reservation)
    → status ≡ ReservationStatus.released ⊎ (status ≡ ReservationStatus.consumed)
    → active_reservation (find id (update id (set_status status) R)) ≡ none
settled-none id status R h = rw find-update (ground (arith, ==_iff id id))

release_found-settled :
    (env : Env) (id : ℕ) (found : Option Reservation) (s : Inventory)
    → active_reservation (find id s.reservations) ≡ found
    → active_reservation (find id (release_found env id found s).1.reservations) ≡ none
unfolding release_found release_active
release_found-settled env id none s e = e
release_found-settled env id (some r) s e =
    settled-none id ReservationStatus.released s.reservations (inl refl)

consume_active-settled :
    (env : Env) (id : ℕ) (r : Reservation) (quantity : ℤ) (reference : ℕ) (s : Inventory)
    → active_reservation (find id (consume_active env id r quantity reference s).reservations)
      ≡ none
unfolding consume_active
consume_active-settled env id r quantity reference s =
    settled-none id ReservationStatus.consumed s.reservations (inr refl)

-- Neither the velocity nor the event touches a reservation.
recompute_velocity-reservations :
    (env : Env) (p l : ℕ) (s : Inventory)
    → (recompute_velocity env p l s).1.reservations ≡ s.reservations
unfolding recompute_velocity check_threshold publish_stock_low
recompute_velocity-reservations env p l s = ground arith

consume_found-settled :
    (env : Env) (id : ℕ) (quantity : ℤ) (reference : ℕ) (found : Option Reservation) (s : Inventory)
    → active_reservation (find id s.reservations) ≡ found
    → active_reservation (find id (consume_found env id quantity reference found s).1.reservations)
      ≡ none
unfolding consume_found
consume_found-settled env id quantity reference none s e = e
consume_found-settled env id quantity reference (some r) s e =
    rw
      (recompute_velocity-reservations env r.product_id r.location_code
        (consume_active env id r quantity reference s))
      (consume_active-settled env id r quantity reference s)

-- The answers to a release and to a sale of a reservation, which then change nothing.
abbrev pub IsSettled : Env → ℕ → ℤ → ℕ → Inventory → Type 0
IsSettled env id quantity reference s =
    (release_reservation env id s ≡ (false, s))
    × (consume_reservation_for_sale env id quantity reference s ≡ (ok tt, s))

IsSettled-none :
    (env : Env) (id : ℕ) (quantity : ℤ) (reference : ℕ) (s : Inventory)
    → active_reservation (find id s.reservations) ≡ none
    → IsSettled env id quantity reference s
unfolding release_reservation consume_reservation_for_sale release_found consume_found
IsSettled-none env id quantity reference s e = rw e (refl, refl)

-- A reservation is settled at most once: after a release or a sale of it, whether the bus took the
-- event of that sale or not, neither a release nor a sale of it changes anything.
pub settles_once :
    (env env' : Env) (id : ℕ) (quantity quantity' : ℤ) (reference reference' : ℕ) (s : Inventory)
    → IsSettled env' id quantity' reference' (release_reservation env id s).1
      × IsSettled env' id quantity' reference'
          (consume_reservation_for_sale env id quantity reference s).1
unfolding release_reservation consume_reservation_for_sale
settles_once env env' id quantity quantity' reference reference' s = (
  IsSettled-none env' id quantity' reference' _ (release_found-settled env id _ s refl),
  IsSettled-none env' id quantity' reference' _
      (consume_found-settled env id quantity reference _ s refl),
)
