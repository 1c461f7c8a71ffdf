-- ===== src/Procurement/Receipts.antt =====
-- Received goods on a purchase order (FR-2.5,
-- services/procurement/src/purchase-orders/purchase-orders.service.ts).
use merchandising_funnel_aut.Common.{
  ◌==◌, if◌then◌else◌, ==_iff, number_key, pair_key, every, any, ℕ, ◌≡◌, refl, ◌∙◌, ◌↔◌, ◌⊎◌, inl,
  inr, Bool, true, false, Option, none, some, List, [], ◌∷◌, map,
}
use merchandising_funnel_aut.Events.{GoodsReceivedLine, GoodsReceivedEvent}
use merchandising_funnel_aut.Tally.{amount_of, amounts_under, find-tally}
use merchandising_funnel_aut.Common.Int.{ℤ, ◌+ℤ◌, pos, int_laws}
use merchandising_funnel_aut.Common.Table.{find, find-update}
use merchandising_funnel_aut.Procurement.Ordering.{
  arrived_by_sku, received_after, is_full, next_status, received_order, apply_found,
  apply_goods_received,
}
use merchandising_funnel_aut.Procurement.State.{
  PurchaseOrder, PurchaseOrderStatus, PurchaseOrderLine, Orders, find_by_number,
}

-- All units of a SKU in a note, whatever their condition.
abbrev pub arrivals_of : ℕ → List GoodsReceivedLine → ℤ
arrivals_of sku [] = pos 0
arrivals_of sku (l ∷ ls) =
    if l.sku == sku then l.quantity_received +ℤ arrivals_of sku ls else arrivals_of sku ls

arrivals_of-under :
    (sku : ℕ) (ls : List GoodsReceivedLine)
    → amounts_under sku (map (λ l. (l.sku, l.quantity_received)) ls) ≡ arrivals_of sku ls
arrivals_of-under sku [] = refl
arrivals_of-under sku (l ∷ ls) = rw (arrivals_of-under sku ls)

arrived_by_sku_lem :
    (sku : ℕ) (ls : List GoodsReceivedLine)
    → amount_of (find sku (arrived_by_sku ls)) ≡ arrivals_of sku ls
unfolding arrived_by_sku
arrived_by_sku_lem sku ls =
    find-tally sku (map (λ l. (l.sku, l.quantity_received)) ls) []
    ∙ rw (arrivals_of-under sku ls) (omega int_laws)

-- A line with the arrivals of its SKU added.
abbrev pub with_arrivals : List GoodsReceivedLine → PurchaseOrderLine → PurchaseOrderLine
with_arrivals ls l = record l { quantity_received = l.quantity_received +ℤ arrivals_of l.sku ls }

map-received_after :
    (ls : List GoodsReceivedLine) (lines : List PurchaseOrderLine)
    → map (received_after (arrived_by_sku ls)) lines ≡ map (with_arrivals ls) lines
map-received_after ls [] = refl
map-received_after ls (l ∷ lines) = rw (arrived_by_sku_lem l.sku ls, map-received_after ls lines)

next_status_lem :
    (status : PurchaseOrderStatus) (full : Bool)
    → (next_status status full ≡ PurchaseOrderStatus.closed)
      ↔ ((status ≡ PurchaseOrderStatus.closed) ⊎ (full ≡ true))
next_status_lem PurchaseOrderStatus.closed full = (λ h. inl refl, λ h. refl)
next_status_lem PurchaseOrderStatus.draft true = (λ h. inr refl, λ h. refl)
next_status_lem PurchaseOrderStatus.pending_approval true = (λ h. inr refl, λ h. refl)
next_status_lem PurchaseOrderStatus.approved true = (λ h. inr refl, λ h. refl)
next_status_lem PurchaseOrderStatus.sent true = (λ h. inr refl, λ h. refl)
next_status_lem PurchaseOrderStatus.partially_received true = (λ h. inr refl, λ h. refl)
next_status_lem PurchaseOrderStatus.draft false =
    (λ h. cc h, λ h. elim h [ inl k ↦ cc k | inr k ↦ cc k ])
next_status_lem PurchaseOrderStatus.pending_approval false =
    (λ h. cc h, λ h. elim h [ inl k ↦ cc k | inr k ↦ cc k ])
next_status_lem PurchaseOrderStatus.approved false =
    (λ h. cc h, λ h. elim h [ inl k ↦ cc k | inr k ↦ cc k ])
next_status_lem PurchaseOrderStatus.sent false =
    (λ h. cc h, λ h. elim h [ inl k ↦ cc k | inr k ↦ cc k ])
next_status_lem PurchaseOrderStatus.partially_received false =
    (λ h. cc h, λ h. elim h [ inl k ↦ cc k | inr k ↦ cc k ])

applied_again :
    (event : GoodsReceivedEvent) (found : Option (ℕ × PurchaseOrder)) (s : Orders)
    → any (λ n. n == event.goods_received_note_number) s.processed_receipts ≡ true
    → apply_found event found s ≡ s
unfolding apply_found
applied_again event none s known = refl
applied_again event (some (id, po)) s known = rw known

-- A note for a known order that is not applied yet: the order stands under its id with each line's
-- running total raised by all that arrived of its SKU and everything else but the status as it was;
-- it is closed exactly where it was closed or every line has at least what was ordered. Delivered
-- again, the note changes nothing.
pub apply_goods_received_once :
    (event : GoodsReceivedEvent) (s : Orders) (id : ℕ) (po stored : PurchaseOrder)
    → find_by_number event.po_number s.orders ≡ some (id, po)
    → find id s.orders ≡ some stored
    → any (λ n. n == event.goods_received_note_number) s.processed_receipts ≡ false
    → (after : PurchaseOrder) × (find id (apply_goods_received event s).orders ≡ some after)
      × (after
          ≡ record po { lines = map (with_arrivals event.lines) po.lines; status = after.status })
      × ((after.status ≡ PurchaseOrderStatus.closed)
          ↔ ((po.status ≡ PurchaseOrderStatus.closed) ⊎ (every is_full after.lines ≡ true)))
      × (apply_goods_received event (apply_goods_received event s) ≡ apply_goods_received event s)
unfolding apply_goods_received apply_found
apply_goods_received_once event s id po stored known here fresh =
    let after = received_order (arrived_by_sku event.lines) po in
    rw (known, fresh)
      (
        after,
        find-update id id (λ _. after) s.orders ∙ rw ((==_iff id id).1 refl, here),
        rw (map-received_after event.lines po.lines),
        next_status_lem po.status _,
        applied_again event _ _ (rw ((==_iff event.goods_received_note_number _).1 refl)),
      )
