-- ===== src/Warehouse/State.antt =====
-- The database of Warehouse Operations (services/warehouse-operations/prisma/schema.prisma).
-- Volumes and weights are whole numbers of a unit fine enough for the products of measures.
use merchandising_funnel_aut.Common.{if◌then◌else◌, ℕ, Bool, Option, List, ◌∷◌}
use merchandising_funnel_aut.Events.{StockTransferredEvent}
use merchandising_funnel_aut.Common.Action.{Error, Result, Action, ok, err}
use merchandising_funnel_aut.Common.Int.{ℤ}
use merchandising_funnel_aut.Common.Table.{Table}

-- A row under its id.
pub record Bin : Type 0 where
  pub code : ℕ
  pub location_code : ℕ
  pub zone : ℕ
  pub pick_priority : ℕ
  pub capacity_volume : ℤ
  pub max_weight : ℤ
  pub used_volume : ℤ
  pub used_weight : ℤ

-- A row under its bin and SKU.
pub record BinStock : Type 0 where
  pub quantity : ℤ
  pub unit_volume : ℤ
  pub unit_weight : ℤ

pub data PutawayTaskStatus : Type 0 where
  pending completed : PutawayTaskStatus

pub record PutawayTask : Type 0 where
  pub goods_received_note_number : ℕ
  pub po_number : ℕ
  pub sku : ℕ
  pub product_name : ℕ
  pub quantity : ℤ
  pub location_code : ℕ
  pub bin_id : Option ℕ
  pub reserved_volume : ℤ
  pub reserved_weight : ℤ
  pub status : PutawayTaskStatus
  pub completed_by : Option (ℕ × ℕ)

pub data TransferStatus : Type 0 where
  picking completed : TransferStatus

pub record Transfer : Type 0 where
  pub sequence : ℕ
  pub transfer_number : ℕ
  pub sku : ℕ
  pub quantity : ℤ
  pub from_location_code : ℕ
  pub to_location_code : ℕ
  pub requested_by_id : ℕ
  pub status : TransferStatus
  pub completed_at : Option ℕ

pub data PickTaskStatus : Type 0 where
  pending picked : PickTaskStatus

pub record PickTask : Type 0 where
  pub transfer_id : ℕ
  pub bin_id : ℕ
  pub sku : ℕ
  pub quantity : ℤ
  pub status : PickTaskStatus
  pub picked_by : Option (ℕ × ℕ)

-- What Inventory was told of a bin: the SKU, the bin's code, the location and the quantity.
pub record Confirmation : Type 0 where
  pub sku : ℕ
  pub bin_code : ℕ
  pub location_code : ℕ
  pub quantity : ℤ

pub record Warehouse : Type 0 where
  pub bins : Table ℕ Bin
  pub stock : Table (ℕ × ℕ) BinStock
  pub tasks : Table ℕ PutawayTask
  pub transfers : Table ℕ Transfer
  pub picks : Table ℕ PickTask
  pub transfer_sequence : ℕ
  pub confirmed : List Confirmation
  pub published : List StockTransferredEvent
  pub next_id : ℕ

pub record ItemAttributes : Type 0 where
  pub length : Option ℤ
  pub width : Option ℤ
  pub height : Option ℤ
  pub weight : Option ℤ
  pub units_per_day : Option ℕ

-- What a call finds around it: the clock, a random identifier, whether the bus and Inventory answer,
-- Inventory's attributes of an item, and HIGH_VELOCITY_UNITS_PER_DAY.
pub record Env : Type 0 where
  pub now : ℕ
  pub uuid : ℕ
  pub bus_up : Bool
  pub inventory_up : Bool
  pub get_item_attributes : ℕ → Result ItemAttributes
  pub high_velocity_units_per_day : ℕ

abbrev pub publish : Env → StockTransferredEvent → Action Warehouse (Unit {0})
publish env event s =
    if env.bus_up
    then (ok tt, record s { published = event ∷ s.published })
    else (err Error.unavailable, s)

-- `confirmBinLocation`
abbrev pub confirm_bin_location : Env → Confirmation → Action Warehouse (Unit {0})
confirm_bin_location env confirmation s =
    if env.inventory_up
    then (ok tt, record s { confirmed = confirmation ∷ s.confirmed })
    else (err Error.unavailable, s)
