-- ===== src/Retail/State.antt =====
-- The database of the Retail Sales service (services/retail-sales/prisma/schema.prisma), as far as
-- its services read and write it. Rates are hundredths of a percent, prices and amounts are cents.
use merchandising_funnel_aut.Common.{if◌then◌else◌, ℕ, Bool, List, ◌∷◌}
use merchandising_funnel_aut.Events.{PaymentMethodCapture, ItemSoldEvent, ItemReturnedEvent}
use merchandising_funnel_aut.Common.Action.{Error, Action, ok, err}
use merchandising_funnel_aut.Common.Int.{ℤ}
use merchandising_funnel_aut.Common.Table.{Table}

pub record Promotion : Type 0 where
  pub discount_pct : ℕ
  pub starts_at : ℕ
  pub ends_at : ℕ

-- A row under its SKU, with its promotions.
pub record Product : Type 0 where
  pub id : ℕ
  pub name : ℕ
  pub unit_price : ℤ
  pub tax_rate_pct : ℕ
  pub promotions : List Promotion

pub data TransactionStatus : Type 0 where
  completed returned : TransactionStatus

-- A row under its id.
pub record TransactionLine : Type 0 where
  pub product_id : ℕ
  pub sku : ℕ
  pub product_name : ℕ
  pub quantity_sold : ℤ
  pub unit_price : ℤ
  pub discount_amount : ℤ
  pub tax_amount : ℤ
  pub line_total : ℤ
  pub reservation_id : ℕ
  pub location_code : ℕ
  pub quantity_returned : ℤ

pub record Transaction : Type 0 where
  pub sequence : ℕ
  pub transaction_number : ℕ
  pub store_id : ℕ
  pub register_id : ℕ
  pub cashier_id : ℕ
  pub status : TransactionStatus
  pub subtotal_amount : ℤ
  pub discount_amount : ℤ
  pub tax_amount : ℤ
  pub total_amount : ℤ
  pub created_at : ℕ
  pub lines : Table ℕ TransactionLine
  pub payments : List PaymentMethodCapture

pub record ReturnLine : Type 0 where
  pub transaction_line_id : ℕ
  pub sku : ℕ
  pub product_name : ℕ
  pub quantity_returned : ℤ
  pub location_code : ℕ
  pub refund_amount : ℤ

pub record ReturnTransaction : Type 0 where
  pub id : ℕ
  pub sequence : ℕ
  pub return_number : ℕ
  pub original_transaction_id : ℕ
  pub store_id : ℕ
  pub register_id : ℕ
  pub refund_amount : ℤ
  pub created_at : ℕ
  pub lines : List ReturnLine

pub data Event : Type 0 where
  item_sold : ItemSoldEvent → Event
  item_returned : ItemReturnedEvent → Event

-- `sequence` counters run on, whether or not the row they were taken for is written.
pub record Shop : Type 0 where
  pub products : Table ℕ Product
  pub transactions : Table ℕ Transaction
  pub transaction_sequence : ℕ
  pub returns : List ReturnTransaction
  pub return_sequence : ℕ
  pub published : List Event
  pub next_id : ℕ

-- What a call finds around it: the clock, its random identifiers for the row and for the event, and
-- whether the bus takes an event.
pub record Env : Type 0 where
  pub now : ℕ
  pub uuid : ℕ
  pub event_uuid : ℕ
  pub bus_up : Bool

abbrev pub publish : Env → Event → Action Shop (Unit {0})
publish env event s =
    if env.bus_up
    then (ok tt, record s { published = event ∷ s.published })
    else (err Error.unavailable, s)
