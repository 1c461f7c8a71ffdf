-- ===== src/Procurement/Ordering.antt =====
-- What becomes of an order: submission, approval, dispatch and received goods
-- (services/procurement/src/purchase-orders/purchase-orders.service.ts).
use merchandising_funnel_aut.Common.{
  ◌==◌, if◌then◌else◌, number_key, pair_key, every, any, ℕ, Bool, true, false, not, ◌&&◌, ◌||◌,
  Option, none, some, List, [], ◌∷◌, map,
}
use merchandising_funnel_aut.Events.{
  GoodsReceivedLine, GoodsReceivedEvent, PurchaseOrderApprovedEvent,
}
use merchandising_funnel_aut.Roles.{Role}
use merchandising_funnel_aut.Tally.{tally, amount_of}
use merchandising_funnel_aut.Common.Action.{Error, Action, ◌>>=◌, ◌>>◌, throw_if, modify, ok, err}
use merchandising_funnel_aut.Common.Int.{ℤ, ◌+ℤ◌, leb_ℤ}
use merchandising_funnel_aut.Common.Table.{Table, find, update}
use merchandising_funnel_aut.Procurement.State.{
  Env, find_one, PurchaseOrder, PurchaseOrderStatus, PurchaseOrderLine, Orders, find_by_number,
}

abbrev pub status_number : PurchaseOrderStatus → ℕ
status_number PurchaseOrderStatus.draft = 0
status_number PurchaseOrderStatus.pending_approval = 1
status_number PurchaseOrderStatus.approved = 2
status_number PurchaseOrderStatus.sent = 3
status_number PurchaseOrderStatus.partially_received = 4
status_number PurchaseOrderStatus.closed = 5

-- `assertStatus`
abbrev pub assert_status : PurchaseOrder → PurchaseOrderStatus → Action Orders (Unit {0})
assert_status po expected =
    throw_if (not (status_number po.status == status_number expected)) Error.bad_request

abbrev pub set_order : ℕ → (PurchaseOrder → PurchaseOrder) → Orders → Orders
set_order id f s = record s { orders = update id f s.orders }

abbrev pub with_status : PurchaseOrderStatus → PurchaseOrder → PurchaseOrder
with_status status po = record po { status = status }

unfoldable pub submit : ℕ → Action Orders (Unit {0})
submit id = find_one id >>= λ po.
    assert_status po PurchaseOrderStatus.draft
    >> modify (set_order id (with_status PurchaseOrderStatus.pending_approval))

unfoldable pub mark_sent : ℕ → Action Orders (Unit {0})
mark_sent id = find_one id >>= λ po.
    assert_status po PurchaseOrderStatus.approved
    >> modify (set_order id (with_status PurchaseOrderStatus.sent))

abbrev pub is_owner : Role → Bool
is_owner Role.owner = true
is_owner _ = false

abbrev pub is_manager : Role → Bool
is_manager Role.manager = true
is_manager _ = false

abbrev pub approved_event : Env → ℕ → PurchaseOrder → PurchaseOrderApprovedEvent
approved_event env approver_id po = record {
  event_id = env.new_id;
  occurred_at = env.now;
  po_number = po.po_number;
  supplier_id = po.supplier_id;
  supplier_name = po.supplier_name;
  payment_terms_days = po.payment_terms_days;
  currency = po.currency;
  approved_by_id = approver_id;
  approved_at = env.now;
  lines =
      map
        (λ l. record {
          sku = l.sku;
          product_name = l.product_name;
          quantity_ordered = l.quantity_ordered;
          unit_cost = l.unit_cost;
        })
        po.lines;
}

abbrev pub publish : Env → PurchaseOrderApprovedEvent → Action Orders (Unit {0})
publish env event s =
    if env.bus_up
    then (ok tt, record s { published = event ∷ s.published })
    else (err Error.unavailable, s)

abbrev pub approved_by : Env → ℕ → PurchaseOrder → PurchaseOrder
approved_by env approver_id po = record po {
  status = PurchaseOrderStatus.approved;
  approved_by_id = some approver_id;
  approved_at = some env.now;
}

-- Who may not approve the order.
abbrev pub may_not_approve : Env → Role → PurchaseOrder → Bool
may_not_approve env role po =
    not (is_owner role) && not (is_manager role)
    || leb_ℤ env.approval_threshold_kes po.total_amount && not (is_owner role)

unfoldable pub approve : Env → ℕ → ℕ → Role → Action Orders (Unit {0})
approve env id approver_id role = find_one id >>= λ po.
    assert_status po PurchaseOrderStatus.pending_approval
    >> throw_if (may_not_approve env role po) Error.forbidden
    >> modify (set_order id (approved_by env approver_id))
    >> publish env (approved_event env approver_id po)

-- What arrived of each SKU, and the running totals after it.
unfoldable pub arrived_by_sku : List GoodsReceivedLine → Table ℕ ℤ
arrived_by_sku lines = tally [] (map (λ l. (l.sku, l.quantity_received)) lines)

abbrev pub received_after : Table ℕ ℤ → PurchaseOrderLine → PurchaseOrderLine
received_after arrived l = record l {
  quantity_received = l.quantity_received +ℤ amount_of (find l.sku arrived);
}

abbrev pub is_full : PurchaseOrderLine → Bool
is_full l = leb_ℤ l.quantity_ordered l.quantity_received

-- A closed order keeps its status.
abbrev pub next_status : PurchaseOrderStatus → Bool → PurchaseOrderStatus
next_status PurchaseOrderStatus.closed fully_received = PurchaseOrderStatus.closed
next_status status true = PurchaseOrderStatus.closed
next_status status false = PurchaseOrderStatus.partially_received

abbrev pub received_order : Table ℕ ℤ → PurchaseOrder → PurchaseOrder
received_order arrived po =
    let lines = map (received_after arrived) po.lines in
    record po { lines = lines; status = next_status po.status (every is_full lines) }

-- The transaction fails on a note that is applied already, and the failure is swallowed.
unfoldable pub apply_found : GoodsReceivedEvent → Option (ℕ × PurchaseOrder) → Orders → Orders
unfolding arrived_by_sku
apply_found event none s = s
apply_found event (some (id, po)) s =
    if any (λ n. n == event.goods_received_note_number) s.processed_receipts then s else record s {
      processed_receipts = event.goods_received_note_number ∷ s.processed_receipts;
      orders = update id (λ _. received_order (arrived_by_sku event.lines) po) s.orders;
    }

unfoldable pub apply_goods_received : GoodsReceivedEvent → Orders → Orders
unfolding apply_found
apply_goods_received event s = apply_found event (find_by_number event.po_number s.orders) s
