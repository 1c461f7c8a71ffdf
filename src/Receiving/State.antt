-- ===== src/Receiving/State.antt =====
-- The tables of Receiving (services/receiving/prisma/schema.prisma).
use merchandising_funnel_aut.Common.{ℕ, Bool, Option, List}
use merchandising_funnel_aut.Events.{Condition, DiscrepancyType, GoodsReceivedEvent}
use merchandising_funnel_aut.Common.Int.{ℤ}
use merchandising_funnel_aut.Common.Table.{Table}

pub record GoodsReceivedNoteLine : Type 0 where
  pub sku : ℕ
  pub product_name : ℕ
  pub condition : Condition
  pub quantity_ordered : ℤ
  pub quantity_received : ℤ
  pub discrepancy_type : DiscrepancyType
  pub quarantined : Bool
  pub notes : Option ℕ

pub data GoodsReceivedNoteStatus : Type 0 where
  draft finalized : GoodsReceivedNoteStatus

pub record GoodsReceivedNote : Type 0 where
  pub goods_received_note_number : ℕ
  pub po_number : ℕ
  pub supplier_id : ℕ
  pub received_at_location : ℕ
  pub status : GoodsReceivedNoteStatus
  pub finalized_at : Option ℕ
  pub lines : List GoodsReceivedNoteLine

pub data ExpectedDeliveryStatus : Type 0 where
  expected partially_received received : ExpectedDeliveryStatus

pub record ExpectedDeliveryLine : Type 0 where
  pub sku : ℕ
  pub product_name : ℕ
  pub quantity_ordered : ℤ
  pub quantity_received : ℤ

pub record ExpectedDelivery : Type 0 where
  pub supplier_id : ℕ
  pub supplier_name : ℕ
  pub status : ExpectedDeliveryStatus
  pub lines : List ExpectedDeliveryLine

-- The tables: notes under their ids, deliveries under the numbers of their orders.
pub record Receiving : Type 0 where
  pub notes : Table ℕ GoodsReceivedNote
  pub deliveries : Table ℕ ExpectedDelivery
  pub published : List GoodsReceivedEvent

pub record Env : Type 0 where
  pub now : ℕ
  pub uuid : ℕ
  pub bus_up : Bool

pub record RecordScan : Type 0 where
  pub sku : ℕ
  pub condition : Condition
  pub quantity : ℤ
  pub notes : Option ℕ
