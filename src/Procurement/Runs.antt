-- ===== src/Procurement/Runs.antt =====
-- Sequences of calls on purchase orders
-- (services/procurement/src/purchase-orders/purchase-orders.service.ts).
use merchandising_funnel_aut.Common.{
  ◌==◌, number_key, pair_key, ℕ, ◌≡◌, refl, inl, inr, true, List, [], ◌∷◌,
}
use merchandising_funnel_aut.Events.{GoodsReceivedEvent}
use merchandising_funnel_aut.Roles.{Role}
use merchandising_funnel_aut.Common.Table.{find}
use merchandising_funnel_aut.Procurement.Creation.{create_order}
use merchandising_funnel_aut.Procurement.Ordering.{
  status_number, with_status, submit, mark_sent, approve, apply_goods_received,
}
use merchandising_funnel_aut.Procurement.Prices.{
  AreInOrder, create_order-AreInOrder, submit_found-AreInOrder, approve_found-AreInOrder,
  apply_found-AreInOrder,
}
use merchandising_funnel_aut.Procurement.State.{
  Env, PurchaseOrderStatus, Orders, OrderedLine, find_by_number,
}

is_approved :
    (status : PurchaseOrderStatus)
    → (status_number status == status_number PurchaseOrderStatus.approved) ≡ true
    → status ≡ PurchaseOrderStatus.approved
is_approved PurchaseOrderStatus.approved h = refl
is_approved PurchaseOrderStatus.pending_approval h = absurd (cc h)
is_approved PurchaseOrderStatus.draft h = absurd (cc h)
is_approved PurchaseOrderStatus.sent h = absurd (cc h)
is_approved PurchaseOrderStatus.partially_received h = absurd (cc h)
is_approved PurchaseOrderStatus.closed h = absurd (cc h)

-- The calls that change orders.
pub data Step : Type 0 where
  creates : Env → ℕ → ℕ → List OrderedLine → Step
  submits : ℕ → Step
  approves : Env → ℕ → ℕ → Role → Step
  sends : ℕ → Step
  receives : GoodsReceivedEvent → Step

unfoldable pub take_step : Step → Orders → Orders
take_step (Step.creates env supplier_id requested_by_id lines) s =
    (create_order env supplier_id requested_by_id lines s).1
take_step (Step.submits id) s = (submit id s).1
take_step (Step.approves env id approver_id role) s = (approve env id approver_id role s).1
take_step (Step.sends id) s = (mark_sent id s).1
take_step (Step.receives event) s = apply_goods_received event s

abbrev pub run : List Step → Orders → Orders
run [] s = s
run (x ∷ xs) s = run xs (take_step x s)

take_step-AreInOrder : (x : Step) (s : Orders) → AreInOrder s → AreInOrder (take_step x s)
unfolding take_step submit approve mark_sent apply_goods_received
take_step-AreInOrder (Step.creates env supplier_id requested_by_id lines) s good =
    create_order-AreInOrder env supplier_id requested_by_id lines s good
take_step-AreInOrder (Step.submits id) s good =
    submit_found-AreInOrder id (find id s.orders) (with_status PurchaseOrderStatus.pending_approval)
      PurchaseOrderStatus.draft s refl
      (λ po right row. (row.0, λ h. absurd (elim h [ inl k ↦ cc k | inr k ↦ cc k ]))) good
take_step-AreInOrder (Step.approves env id approver_id role) s good =
    approve_found-AreInOrder env id approver_id role (find id s.orders) s refl good
take_step-AreInOrder (Step.sends id) s good =
    submit_found-AreInOrder id (find id s.orders) (with_status PurchaseOrderStatus.sent)
      PurchaseOrderStatus.approved s refl
      (λ po right row. (row.0, λ h. row.1 (inl (is_approved po.status right)))) good
take_step-AreInOrder (Step.receives event) s good =
    apply_found-AreInOrder event (find_by_number event.po_number s.orders) s refl good

-- From orders where it holds, over any run of creations, submissions, approvals, dispatches and
-- receipts: the total of every order is still that of its lines at the unit costs they were priced
-- with, and every order that is approved or sent has an approver.
pub run-AreInOrder : (xs : List Step) (s : Orders) → AreInOrder s → AreInOrder (run xs s)
run-AreInOrder [] s good = good
run-AreInOrder (x ∷ xs) s good = run-AreInOrder xs _ (take_step-AreInOrder x s good)
