-- ===== src/Procurement/Tests.antt =====
-- Purchase orders at concrete inputs: an order of 10 units at 50.00.
use merchandising_funnel_aut.Common.{
  number_key, pair_key, every, ◌≡◌, refl, ◌↔◌, ◌⊎◌, true, none, some, List, [], ◌∷◌, map,
}
use merchandising_funnel_aut.Events.{Condition, DiscrepancyType, GoodsReceivedEvent}
use merchandising_funnel_aut.Roles.{Role}
use merchandising_funnel_aut.Common.Action.{ok}
use merchandising_funnel_aut.Common.Int.{pos}
use merchandising_funnel_aut.Common.Table.{find}
use merchandising_funnel_aut.Procurement.Ordering.{
  approved_event, approved_by, is_full, apply_goods_received,
}
use merchandising_funnel_aut.Procurement.Prices.{AreInOrder}
use merchandising_funnel_aut.Procurement.Receipts.{with_arrivals, apply_goods_received_once}
use merchandising_funnel_aut.Procurement.Runs.{Step, run, run-AreInOrder}
use merchandising_funnel_aut.Procurement.State.{
  Env, PurchaseOrder, PurchaseOrderStatus, Orders, SupplierOffer,
}

abbrev dairy : SupplierOffer
dairy = record {
  supplier_id = 4;
  supplier_name = 40;
  product_name = 700;
  unit_cost = pos 5_000;
  currency = 404;
  payment_terms_days = 30;
}

abbrev office : Env
office = record {
  now = 1000;
  new_id = 8;
  bus_up = true;
  approval_threshold_kes = pos 10_000_000;
  find_suppliers_for_sku = λ sku. ok (dairy ∷ []);
}

abbrev no_orders : Orders
no_orders = record { orders = []; processed_receipts = []; published = []; sequence = 0 }

abbrev arrival : GoodsReceivedEvent
arrival = record {
  event_id = 1;
  occurred_at = 2000;
  goods_received_note_number = 1001;
  po_number = 1001;
  supplier_id = 4;
  received_at_location = 1;
  lines =
      record {
        sku = 70;
        product_name = 700;
        quantity_ordered = pos 10;
        quantity_received = pos 10;
        condition = Condition.good;
        discrepancy_type = DiscrepancyType.nothing;
      }
      ∷ [];
}

abbrev steps : List Step
steps =
    Step.creates office 4 3 (record { sku = 70; quantity_ordered = pos 10 } ∷ [])
    ∷ Step.submits 8
    ∷ Step.approves office 8 2 Role.cashier
    ∷ Step.approves office 8 2 Role.manager
    ∷ Step.sends 8
    ∷ Step.receives arrival
    ∷ Step.receives arrival
    ∷ []

run-AreInOrder_example : AreInOrder (run steps no_orders)
run-AreInOrder_example = run-AreInOrder steps no_orders tt

abbrev waiting : PurchaseOrder
waiting = record {
  po_number = 1001;
  supplier_id = 4;
  supplier_name = 40;
  payment_terms_days = 30;
  currency = 404;
  status = PurchaseOrderStatus.pending_approval;
  total_amount = pos 50_000;
  requested_by_id = 3;
  approved_by_id = none;
  approved_at = none;
  lines =
      record {
        sku = 70;
        product_name = 700;
        quantity_ordered = pos 10;
        unit_cost = pos 5_000;
        quantity_received = pos 0;
      }
      ∷ [];
}

abbrev one_waiting : Orders
one_waiting = record no_orders { orders = (8, waiting) ∷ [] }

abbrev one_approved : Orders
one_approved = record no_orders {
  orders = (8, approved_by office 2 waiting) ∷ [];
  published = approved_event office 2 waiting ∷ [];
}

apply_goods_received_once_example :
    (after : PurchaseOrder) × (find 8 (apply_goods_received arrival one_approved).orders
      ≡ some after)
    × (after ≡ record (approved_by office 2 waiting) {
      lines = map (with_arrivals arrival.lines) waiting.lines;
      status = after.status;
    })
    × ((after.status ≡ PurchaseOrderStatus.closed) ↔ (
        (PurchaseOrderStatus.approved ≡ PurchaseOrderStatus.closed)
        ⊎ (every is_full after.lines ≡ true)))
    × (apply_goods_received arrival (apply_goods_received arrival one_approved)
        ≡ apply_goods_received arrival one_approved)
apply_goods_received_once_example =
    apply_goods_received_once arrival one_approved 8 (approved_by office 2 waiting)
      (approved_by office 2 waiting) refl refl refl
