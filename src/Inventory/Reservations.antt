-- ===== src/Inventory/Reservations.antt =====
-- The reservations of StockService (services/inventory/src/stock/stock.service.ts): the checkout's
-- stock check, what becomes of a reservation, and the reorder threshold that a sale recomputes.
use merchandising_funnel_aut.Common.{
  ℕ, suc, ◌-◌, ◌*◌, Bool, true, false, Option, none, some, [], ◌∷◌, ◌==◌, ◌&&◌, leb, if◌then◌else◌,
  pair_key, number_key, keep, sum_of,
}
use merchandising_funnel_aut.Common.Double.{number, ◌*d◌, ◌/d◌, ceil}
use merchandising_funnel_aut.Common.Int.{ℤ, pos, ◌-ℤ◌, neg, abs, ltb_ℤ}
use merchandising_funnel_aut.Common.Table.{Table, find, create, update}
use merchandising_funnel_aut.Common.Action.{Error, ok, err, Action, ◌>>=◌}
use merchandising_funnel_aut.Inventory.State.{
  Product, StockLevel, TransactionType, ReferenceType, InventoryTransaction, ReservationStatus,
  Reservation, Event, Inventory, Env, available, upsert_level, change_level, record_transaction,
  get_product_or_throw, publish,
}

-- `const VELOCITY_WINDOW_DAYS = 14`
abbrev pub velocity_window_days : ℕ
velocity_window_days = 14

pub record StockCheckOutcome : Type 0 where
  pub available : Bool
  pub quantity_reserved : ℤ
  pub available_quantity_after_reservation : ℤ
  pub reservation_id : Option ℕ

-- The writes of a reservation that is granted.
unfoldable pub reserve_stock : Env → Product → ℕ → ℤ → ℕ → Inventory → Inventory
unfolding change_level record_transaction
reserve_stock env product location_code quantity transaction_reference s =
    record_transaction env product.id location_code TransactionType.reservation quantity
      ReferenceType.pos_txn transaction_reference
      (change_level product.id location_code (pos 0) quantity (record s {
        reservations =
            create s.next_id
              (record {
                product_id = product.id;
                location_code = location_code;
                quantity = quantity;
                transaction_reference = transaction_reference;
                status = ReservationStatus.active;
              })
              s.reservations;
        next_id = suc s.next_id;
      }))

-- The stock check itself, on the level that was read.
unfoldable pub check_and_reserve :
    Env → Product → ℕ → ℤ → ℕ → StockLevel → Action Inventory StockCheckOutcome
unfolding reserve_stock
check_and_reserve env product location_code quantity transaction_reference level s =
    if ltb_ℤ (available level) quantity
    then (
      ok (record {
        available = false;
        quantity_reserved = pos 0;
        available_quantity_after_reservation = available level;
        reservation_id = none;
      }),
      s,
    )
    else (
      ok (record {
        available = true;
        quantity_reserved = quantity;
        available_quantity_after_reservation = available level -ℤ quantity;
        reservation_id = some s.next_id;
      }),
      reserve_stock env product location_code quantity transaction_reference s,
    )

unfoldable pub check_level :
    Env → Product → ℕ → ℤ → ℕ → Option StockLevel → Action Inventory StockCheckOutcome
unfolding check_and_reserve
check_level env product location_code quantity transaction_reference none s =
    (err Error.not_found, s)
check_level env product location_code quantity transaction_reference (some level) s =
    check_and_reserve env product location_code quantity transaction_reference level s

unfoldable pub reserve_product : Env → ℕ → ℤ → ℕ → Product → Action Inventory StockCheckOutcome
unfolding upsert_level check_level
reserve_product env location_code quantity transaction_reference product s =
    let s' = upsert_level product.id location_code product.unit_cost s in
    check_level env product location_code quantity transaction_reference
      (find (product.id, location_code) s'.levels) s'

-- FR-4.5, FR-6.2: the checkout's stock check and reservation.
unfoldable pub reserve : Env → ℕ → ℕ → ℤ → ℕ → Action Inventory StockCheckOutcome
unfolding reserve_product
reserve env sku location_code quantity transaction_reference =
    get_product_or_throw sku >>= reserve_product env location_code quantity transaction_reference

abbrev pub set_status : ReservationStatus → Reservation → Reservation
set_status status r = record r { status = status }

unfoldable pub release_active : Env → ℕ → Reservation → Inventory → Inventory
unfolding change_level record_transaction
release_active env reservation_id r s =
    record_transaction env r.product_id r.location_code TransactionType.release (neg r.quantity)
      ReferenceType.reservation reservation_id
      (change_level r.product_id r.location_code (pos 0) (neg r.quantity) (record s {
        reservations = update reservation_id (set_status ReservationStatus.released) s.reservations;
      }))

-- The reservation, where it is there and active.
abbrev pub active_reservation : Option Reservation → Option Reservation
active_reservation none = none
active_reservation (some r) = elim r.status [ ReservationStatus.active ↦ some r | _ ↦ none ]

unfoldable pub release_found : Env → ℕ → Option Reservation → Inventory → Bool × Inventory
unfolding release_active
release_found env reservation_id none s = (false, s)
release_found env reservation_id (some r) s = (true, release_active env reservation_id r s)

-- Abandons a reservation; only an active one.
unfoldable pub release_reservation : Env → ℕ → Inventory → Bool × Inventory
unfolding release_found
release_reservation env reservation_id s =
    release_found env reservation_id (active_reservation (find reservation_id s.reservations)) s

abbrev pub is_sale : TransactionType → Bool
is_sale TransactionType.sale = true
is_sale _ = false

abbrev pub is_sale_since : ℕ → ℕ → InventoryTransaction → Bool
is_sale_since product_id since t =
    t.product_id == product_id && is_sale t.type && leb since t.created_at

abbrev pub day_ms : ℕ
day_ms = 86_400_000

-- Units of a product sold in the window up to now, at every location.
unfoldable pub units_sold : Env → ℕ → Inventory → ℕ
units_sold env product_id s = abs (
    sum_of (λ t. t.quantity_delta)
      (keep (is_sale_since product_id (env.now - velocity_window_days * day_ms)) s.transactions))

-- `Math.ceil(unitsPerDay * reorderLeadTimeDays)`, in doubles.
unfoldable pub reorder_threshold : ℕ → ℕ → ℕ
reorder_threshold units lead_days =
    let units_per_day = number (pos units) /d number (pos velocity_window_days) in
    ceil (units_per_day *d number (pos lead_days))

abbrev pub product_with_id : ℕ → Table ℕ Product → Option Product
product_with_id id [] = none
product_with_id id ((_, p) ∷ t) = if p.id == id then some p else product_with_id id t

-- The event, where the product is known.
unfoldable pub publish_stock_low :
    Env → ℕ → ℕ → ℕ → StockLevel → Option Product → Action Inventory (Unit {0})
publish_stock_low env location_code units threshold level none s = (ok tt, s)
publish_stock_low env location_code units threshold level (some product) s =
    publish env
      (Event.stock_low (record {
        event_id = env.uuid;
        occurred_at = env.now;
        sku = product.sku;
        product_name = product.name;
        location_code = location_code;
        available_quantity = available level;
        dynamic_reorder_threshold = threshold;
        velocity_units = units;
        velocity_days = velocity_window_days;
      }))
      s

unfoldable pub check_threshold :
    Env → ℕ → ℕ → ℕ → ℕ → Option StockLevel → Action Inventory (Unit {0})
unfolding publish_stock_low
check_threshold env product_id location_code units threshold none s = (ok tt, s)
check_threshold env product_id location_code units threshold (some level) s =
    if ltb_ℤ (pos threshold) (available level)
    then (ok tt, s)
    else publish_stock_low env location_code units threshold level
        (product_with_id product_id s.products) s

-- FR-4.6, D-3: StockLow at or below the threshold that recent sales give.
unfoldable pub recompute_velocity : Env → ℕ → ℕ → Action Inventory (Unit {0})
unfolding units_sold reorder_threshold check_threshold
recompute_velocity env product_id location_code s =
    let units = units_sold env product_id s in
    check_threshold env product_id location_code units
      (reorder_threshold units env.reorder_lead_time_days)
      (find (product_id, location_code) s.levels)
      (record s {
        velocities =
            record { product_id = product_id; units = units; window_days = velocity_window_days }
            ∷ s.velocities;
      })

unfoldable pub consume_active : Env → ℕ → Reservation → ℤ → ℕ → Inventory → Inventory
unfolding change_level record_transaction
consume_active env reservation_id r quantity_sold transaction_reference s =
    record_transaction env r.product_id r.location_code TransactionType.sale (neg quantity_sold)
      ReferenceType.pos_txn transaction_reference
      (change_level r.product_id r.location_code (neg quantity_sold) (neg r.quantity) (record s {
        reservations = update reservation_id (set_status ReservationStatus.consumed) s.reservations;
      }))

unfoldable pub consume_found : Env → ℕ → ℤ → ℕ → Option Reservation → Action Inventory (Unit {0})
unfolding consume_active recompute_velocity
consume_found env reservation_id quantity_sold transaction_reference none s = (ok tt, s)
consume_found env reservation_id quantity_sold transaction_reference (some r) s =
    recompute_velocity env r.product_id r.location_code
      (consume_active env reservation_id r quantity_sold transaction_reference s)

-- FR-4.2: a sale takes its reservation; one that is not active is skipped.
unfoldable pub consume_reservation_for_sale : Env → ℕ → ℤ → ℕ → Action Inventory (Unit {0})
unfolding consume_found
consume_reservation_for_sale env reservation_id quantity_sold transaction_reference s =
    consume_found env reservation_id quantity_sold transaction_reference
      (active_reservation (find reservation_id s.reservations)) s
