-- ===== src/Procurement/Prices.antt =====
-- The prices and the approver of an order
-- (services/procurement/src/purchase-orders/purchase-orders.service.ts).
use merchandising_funnel_aut.Common.{
  ◌==◌, Bool-cases, number_key, pair_key, any, sum_of, ℕ, suc, ◌≡◌, refl, sym, ap, ◌∙◌, subst, ◌≢◌,
  ◌⊎◌, inl, inr, Bool, true, false, Option, none, some, List, [], ◌∷◌, map,
}
use merchandising_funnel_aut.Events.{GoodsReceivedEvent}
use merchandising_funnel_aut.Roles.{Role}
use merchandising_funnel_aut.Common.Action.{
  Error, or_throw, lift, ◌>>=◌, ◌>>◌, throw_if, modify, Keeps, Keeps-bind,
}
use merchandising_funnel_aut.Common.Int.{ℤ, ◌*ℤ◌}
use merchandising_funnel_aut.Common.Table.{
  Table, find, update, Rows, find-Rows, update-Rows, create-Rows,
}
use merchandising_funnel_aut.Procurement.Creation.{
  priced_lines, order_line, draft_order, create_priced, create_order,
}
use merchandising_funnel_aut.Procurement.Ordering.{
  publish, arrived_by_sku, status_number, assert_status, set_order, approved_event, approved_by,
  may_not_approve, received_after, next_status, received_order, apply_found,
}
use merchandising_funnel_aut.Procurement.State.{
  Env, PurchaseOrder, PurchaseOrderStatus, PurchaseOrderLine, Orders, SupplierOffer, OrderedLine,
  find_by_number,
}

-- The total is that of the lines at their unit costs.
abbrev pub IsPriced : PurchaseOrder → Type 0
IsPriced po = po.total_amount ≡ sum_of (λ l. l.unit_cost *ℤ l.quantity_ordered) po.lines

-- An order that is approved or sent has an approver.
abbrev pub IsApproved : PurchaseOrder → Type 0
IsApproved po =
    (po.status ≡ PurchaseOrderStatus.approved) ⊎ (po.status ≡ PurchaseOrderStatus.sent)
    → po.approved_by_id ≢ none

abbrev pub IsInOrder : PurchaseOrder → Type 0
IsInOrder po = IsPriced po × IsApproved po

abbrev pub AreInOrder : Orders → Type 0
AreInOrder s = Rows IsInOrder s.orders

order_line-cost :
    (lines : List (OrderedLine × SupplierOffer))
    → sum_of (λ l. l.1.unit_cost *ℤ l.0.quantity_ordered) lines
      ≡ sum_of (λ l. l.unit_cost *ℤ l.quantity_ordered) (map order_line lines)
order_line-cost [] = refl
order_line-cost (l ∷ lines) = rw (order_line-cost lines)

create_priced-AreInOrder :
    (env : Env) (supplier_id requested_by_id : ℕ) (lines : List (OrderedLine × SupplierOffer))
    → Keeps AreInOrder (create_priced env supplier_id requested_by_id lines)
unfolding create_priced
create_priced-AreInOrder env supplier_id requested_by_id [] s good = good
create_priced-AreInOrder env supplier_id requested_by_id (l ∷ lines) s good =
    create-Rows IsInOrder env.new_id
      (draft_order (suc s.sequence) supplier_id requested_by_id l.1 (l ∷ lines)) s.orders good
      (order_line-cost (l ∷ lines), λ h. absurd (elim h [ inl k ↦ cc k | inr k ↦ cc k ]))

pub create_order-AreInOrder :
    (env : Env) (supplier_id requested_by_id : ℕ) (lines : List OrderedLine)
    → Keeps AreInOrder (create_order env supplier_id requested_by_id lines)
unfolding create_order
create_order-AreInOrder env supplier_id requested_by_id lines =
    Keeps-bind AreInOrder (lift (priced_lines env supplier_id lines)) _ (λ s good. good)
      (λ priced. create_priced-AreInOrder env supplier_id requested_by_id priced)

-- A call that sets the order it read, to a row that is in order where the one it read was.
set_order-AreInOrder :
    (id : ℕ) (f : PurchaseOrder → PurchaseOrder) (po : PurchaseOrder) (s : Orders)
    → find id s.orders ≡ some po
    → (IsInOrder po → IsInOrder (f po))
    → AreInOrder s
    → AreInOrder (set_order id f s)
set_order-AreInOrder id f po s here keeps good =
    update-Rows IsInOrder id f s.orders good here
      (keeps (find-Rows IsInOrder id s.orders good here))

pub submit_found-AreInOrder :
    (id : ℕ) (found : Option PurchaseOrder) (f : PurchaseOrder → PurchaseOrder)
    (expected : PurchaseOrderStatus) (s : Orders)
    → find id s.orders ≡ found
    → ((po : PurchaseOrder)
        → (status_number po.status == status_number expected) ≡ true
        → IsInOrder po
        → IsInOrder (f po))
    → AreInOrder s
    → AreInOrder
        ((or_throw found Error.not_found >>= λ po.
            assert_status po expected >> modify (set_order id f))
          s).1
submit_found-AreInOrder id none f expected s here keeps good = good
submit_found-AreInOrder id (some po) f expected s here keeps good =
    elim (Bool-cases (status_number po.status == status_number expected)) [
      | inl right ↦ rw right (set_order-AreInOrder id f po s here (keeps po right) good)
      | inr wrong ↦ rw wrong good
    ]

pub approve_found-AreInOrder :
    (env : Env) (id approver_id : ℕ) (role : Role) (found : Option PurchaseOrder) (s : Orders)
    → find id s.orders ≡ found
    → AreInOrder s
    → AreInOrder
        ((or_throw found Error.not_found >>= λ po.
            assert_status po PurchaseOrderStatus.pending_approval
            >> throw_if (may_not_approve env role po) Error.forbidden
            >> modify (set_order id (approved_by env approver_id))
            >> publish env (approved_event env approver_id po))
          s).1
approve_found-AreInOrder env id approver_id role none s here good = good
approve_found-AreInOrder env id approver_id role (some po) s here good =
    let approved_rows =
      set_order-AreInOrder id (approved_by env approver_id) po s here
        (λ in_order. (in_order.0, λ h n. cc n)) good in
    elim (Bool-cases
      (status_number po.status == status_number PurchaseOrderStatus.pending_approval)) [
        | inl right ↦ elim (Bool-cases (may_not_approve env role po)) [
          | inl forbidden ↦ rw (right, forbidden) good
          | inr allowed ↦ elim (Bool-cases env.bus_up) [
            | inl up ↦ rw (right, allowed, up) approved_rows
            | inr down ↦ rw (right, allowed, down) approved_rows
          ]
        ]
        | inr wrong ↦ rw wrong good
      ]

abbrev order_or : PurchaseOrder → Option (ℕ × PurchaseOrder) → PurchaseOrder
order_or po none = po
order_or po (some (_, found)) = found

next_status-ne :
    (status : PurchaseOrderStatus) (full : Bool)
    → ¬ (
        (next_status status full ≡ PurchaseOrderStatus.approved)
        ⊎ (next_status status full ≡ PurchaseOrderStatus.sent))
next_status-ne PurchaseOrderStatus.closed full h = elim h [ inl k ↦ cc k | inr k ↦ cc k ]
next_status-ne PurchaseOrderStatus.draft true h = elim h [ inl k ↦ cc k | inr k ↦ cc k ]
next_status-ne PurchaseOrderStatus.draft false h = elim h [ inl k ↦ cc k | inr k ↦ cc k ]
next_status-ne PurchaseOrderStatus.pending_approval true h = elim h [ inl k ↦ cc k | inr k ↦ cc k ]
next_status-ne PurchaseOrderStatus.pending_approval false h = elim h [ inl k ↦ cc k | inr k ↦ cc k ]
next_status-ne PurchaseOrderStatus.approved true h = elim h [ inl k ↦ cc k | inr k ↦ cc k ]
next_status-ne PurchaseOrderStatus.approved false h = elim h [ inl k ↦ cc k | inr k ↦ cc k ]
next_status-ne PurchaseOrderStatus.sent true h = elim h [ inl k ↦ cc k | inr k ↦ cc k ]
next_status-ne PurchaseOrderStatus.sent false h = elim h [ inl k ↦ cc k | inr k ↦ cc k ]
next_status-ne PurchaseOrderStatus.partially_received true h = elim h [
  | inl k ↦ cc k
  | inr k ↦ cc k
]
next_status-ne PurchaseOrderStatus.partially_received false h = elim h [
  | inl k ↦ cc k
  | inr k ↦ cc k
]

find_by_number-Rows :
    (number id : ℕ) (po : PurchaseOrder) (t : Table ℕ PurchaseOrder)
    → Rows IsInOrder t
    → find_by_number number t ≡ some (id, po)
    → IsInOrder po
find_by_number-Rows number id po [] rows h = absurd (cc h)
find_by_number-Rows number id po ((j, p) ∷ t) (row, rows) h =
    elim (Bool-cases (p.po_number == number)) [
      | inl here ↦
          let same : some (j, p) ≡ some (id, po) = rw here at h in
          subst IsInOrder (ap (λ o. order_or po o) same) row
      | inr there ↦ find_by_number-Rows number id po t rows (rw there at h)
    ]

set_row-Rows :
    (id : ℕ) (po : PurchaseOrder) (t : Table ℕ PurchaseOrder)
    → Rows IsInOrder t
    → IsInOrder po
    → Rows IsInOrder (update id (λ _. po) t)
set_row-Rows id po [] rows row = tt
set_row-Rows id po ((j, p) ∷ t) (first, rows) row = elim (Bool-cases (j == id)) [
  | inl here ↦ rw here (row, rows)
  | inr there ↦ rw there (first, set_row-Rows id po t rows row)
]

received_after-cost :
    (arrived : Table ℕ ℤ) (lines : List PurchaseOrderLine)
    → sum_of (λ l. l.unit_cost *ℤ l.quantity_ordered) (map (received_after arrived) lines)
      ≡ sum_of (λ l. l.unit_cost *ℤ l.quantity_ordered) lines
received_after-cost arrived [] = refl
received_after-cost arrived (l ∷ lines) = rw (received_after-cost arrived lines)

received_order-IsInOrder :
    (arrived : Table ℕ ℤ) (po : PurchaseOrder)
    → IsInOrder po
    → IsInOrder (received_order arrived po)
received_order-IsInOrder arrived po (priced, approver) = (
  priced ∙ sym (received_after-cost arrived po.lines),
  λ h. absurd (next_status-ne po.status _ h),
)

pub apply_found-AreInOrder :
    (event : GoodsReceivedEvent) (found : Option (ℕ × PurchaseOrder)) (s : Orders)
    → find_by_number event.po_number s.orders ≡ found
    → AreInOrder s
    → AreInOrder (apply_found event found s)
unfolding apply_found
apply_found-AreInOrder event none s here good = good
apply_found-AreInOrder event (some (id, po)) s here good =
    elim (Bool-cases (any (λ n. n == event.goods_received_note_number) s.processed_receipts)) [
      | inl again ↦ rw again good
      | inr fresh ↦ rw fresh (
          set_row-Rows id _ s.orders good (
            received_order-IsInOrder (arrived_by_sku event.lines) po
              (find_by_number-Rows event.po_number id po s.orders good here)))
    ]
