-- ===== src/Procurement/State.antt =====
-- The tables of purchase orders, and the lookups of an order
-- (services/procurement/src/purchase-orders/purchase-orders.service.ts).
use merchandising_funnel_aut.Common.{
  ◌==◌, if◌then◌else◌, number_key, pair_key, ℕ, Bool, true, false, Option, none, some, List, [],
  ◌∷◌,
}
use merchandising_funnel_aut.Events.{PurchaseOrderApprovedEvent}
use merchandising_funnel_aut.Common.Action.{Error, Result, Action, or_throw, ok, err}
use merchandising_funnel_aut.Common.Int.{ℤ}
use merchandising_funnel_aut.Common.Table.{Table, find}

pub data PurchaseOrderStatus : Type 0 where
  draft pending_approval approved sent partially_received closed : PurchaseOrderStatus

pub record PurchaseOrderLine : Type 0 where
  pub sku : ℕ
  pub product_name : ℕ
  pub quantity_ordered : ℤ
  pub unit_cost : ℤ
  pub quantity_received : ℤ

pub record PurchaseOrder : Type 0 where
  pub po_number : ℕ
  pub supplier_id : ℕ
  pub supplier_name : ℕ
  pub payment_terms_days : ℕ
  pub currency : ℕ
  pub status : PurchaseOrderStatus
  pub total_amount : ℤ
  pub requested_by_id : ℕ
  pub approved_by_id : Option ℕ
  pub approved_at : Option ℕ
  pub lines : List PurchaseOrderLine

-- The tables: orders by id, the notes that are applied, what is published, and the sequence.
pub record Orders : Type 0 where
  pub orders : Table ℕ PurchaseOrder
  pub processed_receipts : List ℕ
  pub published : List PurchaseOrderApprovedEvent
  pub sequence : ℕ

-- What Vendor Management offers for a SKU.
pub record SupplierOffer : Type 0 where
  pub supplier_id : ℕ
  pub supplier_name : ℕ
  pub product_name : ℕ
  pub unit_cost : ℤ
  pub currency : ℕ
  pub payment_terms_days : ℕ

-- The clock, new identifiers, the bus, PO_APPROVAL_THRESHOLD_KES in cents, and the offers.
pub record Env : Type 0 where
  pub now : ℕ
  pub new_id : ℕ
  pub bus_up : Bool
  pub approval_threshold_kes : ℤ
  pub find_suppliers_for_sku : ℕ → Result (List SupplierOffer)

pub record OrderedLine : Type 0 where
  pub sku : ℕ
  pub quantity_ordered : ℤ

-- `findOne`
abbrev pub find_one : ℕ → Action Orders PurchaseOrder
find_one id s = or_throw (find id s.orders) Error.not_found s

abbrev pub find_by_number : ℕ → Table ℕ PurchaseOrder → Option (ℕ × PurchaseOrder)
find_by_number number [] = none
find_by_number number ((id, po) ∷ t) =
    if po.po_number == number then some (id, po) else find_by_number number t

abbrev pub is_open : PurchaseOrderStatus → Bool
is_open PurchaseOrderStatus.approved = true
is_open PurchaseOrderStatus.sent = true
is_open PurchaseOrderStatus.partially_received = true
is_open _ = false

abbrev pub open_only : Option (ℕ × PurchaseOrder) → Result PurchaseOrder
open_only none = err Error.not_found
open_only (some (id, po)) = if is_open po.status then ok po else err Error.not_found

-- `findByPoNumber`: what Receiving asks before it opens a note.
abbrev pub find_by_po_number : ℕ → Action Orders PurchaseOrder
find_by_po_number number s = (open_only (find_by_number number s.orders), s)
