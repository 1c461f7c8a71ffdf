-- ===== src/Events.antt =====
-- The domain events on the bus (libs/shared/src/events), with the fields that a consumer reads.
-- Identifiers, codes and texts are numbers, since they are only stored and compared; quantities are
-- integers, amounts of money integers in cents, times and dates numbers.
use merchandising_funnel_aut.Common.{ℕ, List}
use merchandising_funnel_aut.Common.Int.{ℤ}

pub data Condition : Type 0 where
  good damaged : Condition

pub data DiscrepancyType : Type 0 where
  nothing shortage overage damage : DiscrepancyType

pub record GoodsReceivedLine : Type 0 where
  pub sku : ℕ
  pub product_name : ℕ
  pub quantity_ordered : ℤ
  pub quantity_received : ℤ
  pub condition : Condition
  pub discrepancy_type : DiscrepancyType

pub record GoodsReceivedEvent : Type 0 where
  pub event_id : ℕ
  pub occurred_at : ℕ
  pub goods_received_note_number : ℕ
  pub po_number : ℕ
  pub supplier_id : ℕ
  pub received_at_location : ℕ
  pub lines : List GoodsReceivedLine

pub record PurchaseOrderApprovedLine : Type 0 where
  pub sku : ℕ
  pub product_name : ℕ
  pub quantity_ordered : ℤ
  pub unit_cost : ℤ

pub record PurchaseOrderApprovedEvent : Type 0 where
  pub event_id : ℕ
  pub occurred_at : ℕ
  pub po_number : ℕ
  pub supplier_id : ℕ
  pub supplier_name : ℕ
  pub payment_terms_days : ℕ
  pub currency : ℕ
  pub approved_by_id : ℕ
  pub approved_at : ℕ
  pub lines : List PurchaseOrderApprovedLine

pub data AdjustmentKind : Type 0 where
  stock_count manual : AdjustmentKind

pub record StockAdjustedLine : Type 0 where
  pub sku : ℕ
  pub product_name : ℕ
  pub quantity_delta : ℤ
  pub unit_cost : ℤ

pub record StockAdjustedEvent : Type 0 where
  pub event_id : ℕ
  pub occurred_at : ℕ
  pub kind : AdjustmentKind
  pub reference : ℕ
  pub location_code : ℕ
  pub description : ℕ
  pub adjusted_by_id : ℕ
  pub lines : List StockAdjustedLine

-- `sales_velocity_units_per_day` is a number of units over a number of days.
pub record StockLowEvent : Type 0 where
  pub event_id : ℕ
  pub occurred_at : ℕ
  pub sku : ℕ
  pub product_name : ℕ
  pub location_code : ℕ
  pub available_quantity : ℤ
  pub dynamic_reorder_threshold : ℕ
  pub velocity_units : ℕ
  pub velocity_days : ℕ

pub record StockTransferredEvent : Type 0 where
  pub event_id : ℕ
  pub occurred_at : ℕ
  pub transfer_number : ℕ
  pub sku : ℕ
  pub quantity : ℤ
  pub from_location_code : ℕ
  pub to_location_code : ℕ

pub record ItemSoldLine : Type 0 where
  pub sku : ℕ
  pub product_name : ℕ
  pub quantity_sold : ℤ
  pub unit_price : ℤ
  pub discount_amount : ℤ
  pub tax_amount : ℤ
  pub line_total : ℤ
  pub reservation_id : ℕ

pub data PaymentMethod : Type 0 where
  cash card gift_card : PaymentMethod

pub record PaymentMethodCapture : Type 0 where
  pub method : PaymentMethod
  pub amount : ℤ

pub record ItemSoldEvent : Type 0 where
  pub event_id : ℕ
  pub occurred_at : ℕ
  pub transaction_id : ℕ
  pub store_id : ℕ
  pub register_id : ℕ
  pub cashier_id : ℕ
  pub lines : List ItemSoldLine
  pub payment_methods : List PaymentMethodCapture
  pub total_amount : ℤ

pub record ItemReturnedLine : Type 0 where
  pub sku : ℕ
  pub product_name : ℕ
  pub quantity_returned : ℤ
  pub location_code : ℕ
  pub refund_amount : ℤ

pub record ItemReturnedEvent : Type 0 where
  pub event_id : ℕ
  pub occurred_at : ℕ
  pub return_id : ℕ
  pub original_transaction_id : ℕ
  pub store_id : ℕ
  pub register_id : ℕ
  pub lines : List ItemReturnedLine

pub record DayClosedEvent : Type 0 where
  pub event_id : ℕ
  pub occurred_at : ℕ
  pub store_id : ℕ
  pub business_date : ℕ
  pub expected_total : ℤ
  pub actual_counted_total : ℤ
  pub discrepancy_amount : ℤ
  pub closed_by_manager_id : ℕ
