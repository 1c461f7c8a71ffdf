-- ===== src/Inventory/State.antt =====
-- The database of the Inventory service (services/inventory/src/stock), as far as StockService
-- reads and writes it, and the writes that its methods share. A table with a unique key is a table
-- of rows under that key; the transaction log and the published events stand newest first.
use merchandising_funnel_aut.Common.{ℕ, suc, Bool, List, ◌∷◌, if◌then◌else◌, pair_key, number_key}
use merchandising_funnel_aut.Common.Int.{ℤ, pos, ◌+ℤ◌, ◌-ℤ◌}
use merchandising_funnel_aut.Common.Table.{Table, find, update, upsert}
use merchandising_funnel_aut.Common.Action.{Error, ok, err, Action, or_throw}
use merchandising_funnel_aut.Events.{StockAdjustedEvent, StockLowEvent}

pub record Product : Type 0 where
  pub id : ℕ
  pub sku : ℕ
  pub name : ℕ
  pub unit_cost : ℤ

-- The row of a product at a location, which is its key.
pub record StockLevel : Type 0 where
  pub on_hand : ℤ
  pub allocated : ℤ
  pub unit_value : ℤ

pub data TransactionType : Type 0 where
  receipt sale adjustment transfer_in transfer_out reservation release return : TransactionType

pub data ReferenceType : Type 0 where
  adjustment grn transfer return pos_txn reservation stock_count : ReferenceType

pub record InventoryTransaction : Type 0 where
  pub id : ℕ
  pub product_id : ℕ
  pub location_code : ℕ
  pub type : TransactionType
  pub quantity_delta : ℤ
  pub reference_type : ReferenceType
  pub reference_id : ℕ
  pub created_at : ℕ

pub data ReservationStatus : Type 0 where
  active consumed released : ReservationStatus

pub record Reservation : Type 0 where
  pub product_id : ℕ
  pub location_code : ℕ
  pub quantity : ℤ
  pub transaction_reference : ℕ
  pub status : ReservationStatus

-- `unitsPerDay` is the number of units over the number of days.
pub record SalesVelocity : Type 0 where
  pub product_id : ℕ
  pub units : ℕ
  pub window_days : ℕ

pub data Event : Type 0 where
  stock_adjusted : StockAdjustedEvent → Event
  stock_low : StockLowEvent → Event

pub record Inventory : Type 0 where
  pub products : Table ℕ Product
  pub levels : Table (ℕ × ℕ) StockLevel
  pub transactions : List InventoryTransaction
  pub reservations : Table ℕ Reservation
  pub velocities : List SalesVelocity
  pub published : List Event
  pub next_id : ℕ

-- What a call finds around it: the clock, a random identifier, whether the bus takes an event, and
-- REORDER_LEAD_TIME_DAYS.
pub record Env : Type 0 where
  pub now : ℕ
  pub uuid : ℕ
  pub bus_up : Bool
  pub reorder_lead_time_days : ℕ

abbrev pub empty_level : ℤ → StockLevel
empty_level value = record { on_hand = pos 0; allocated = pos 0; unit_value = value }

-- `onHand: { increment }, allocated: { increment }`
abbrev pub increment : ℤ → ℤ → StockLevel → StockLevel
increment on_hand allocated l = record l {
  on_hand = l.on_hand +ℤ on_hand;
  allocated = l.allocated +ℤ allocated;
}

abbrev pub available : StockLevel → ℤ
available l = l.on_hand -ℤ l.allocated

unfoldable pub upsert_level : ℕ → ℕ → ℤ → Inventory → Inventory
upsert_level product_id location_code value s = record s {
  levels = upsert (product_id, location_code) (empty_level value) (λ l. l) s.levels;
}

unfoldable pub change_level : ℕ → ℕ → ℤ → ℤ → Inventory → Inventory
change_level product_id location_code on_hand allocated s = record s {
  levels = update (product_id, location_code) (increment on_hand allocated) s.levels;
}

unfoldable pub record_transaction :
    Env → ℕ → ℕ → TransactionType → ℤ → ReferenceType → ℕ → Inventory → Inventory
record_transaction env product_id location_code type delta reference_type reference_id s =
    record s { transactions = entry ∷ s.transactions; next_id = suc s.next_id }
  where
    entry : InventoryTransaction
    entry = record {
      id = s.next_id;
      product_id = product_id;
      location_code = location_code;
      type = type;
      quantity_delta = delta;
      reference_type = reference_type;
      reference_id = reference_id;
      created_at = env.now;
    }

-- `getProductOrThrow`
abbrev pub get_product_or_throw : ℕ → Action Inventory Product
get_product_or_throw sku s = or_throw (find sku s.products) Error.not_found s

abbrev pub publish : Env → Event → Action Inventory (Unit {0})
publish env event s =
    if env.bus_up
    then (ok tt, record s { published = event ∷ s.published })
    else (err Error.unavailable, s)
