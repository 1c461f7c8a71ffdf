-- ===== src/Flows/Deliveries.antt =====
-- From a goods received note that is completed
-- (services/receiving/src/goods-received-notes/goods-received-notes.service.ts) to the purchase order
-- (services/procurement/src/purchase-orders/purchase-orders.service.ts).
use merchandising_funnel_aut.Common.{
  ◌==◌, number_key, pair_key, every, any, All, ℕ, ◌≡◌, refl, sym, ap, ◌∙◌, subst, inl, inr, true,
  false, some, List, [], ◌∷◌, map, arith,
}
use merchandising_funnel_aut.Events.{GoodsReceivedEvent}
use merchandising_funnel_aut.Common.Int.{ℤ, ◌+ℤ◌, ◌≤ℤ◌, leb_ℤ}
use merchandising_funnel_aut.Common.Action.{Result, ok}
use merchandising_funnel_aut.Common.Table.{find}
use merchandising_funnel_aut.Receiving.State.{
  Env, GoodsReceivedNoteLine, ExpectedDeliveryStatus, ExpectedDeliveryLine, ExpectedDelivery,
  Receiving,
}
use merchandising_funnel_aut.Receiving.Scans.{total_arrived}
use merchandising_funnel_aut.Receiving.Finalizing.{finalize}
use merchandising_funnel_aut.Receiving.Discrepancies.{total_arrived-cons}
use merchandising_funnel_aut.Receiving.Classified.{unclassified, with_arrived, IsFull, HasStatus}
use merchandising_funnel_aut.Receiving.Outcomes.{IsReady, told, Tells, Completes}
use merchandising_funnel_aut.Receiving.Completion.{finalize-ready}
use merchandising_funnel_aut.Procurement.State.{
  PurchaseOrderStatus, PurchaseOrderLine, PurchaseOrder, Orders, find_by_number,
}
use merchandising_funnel_aut.Procurement.Ordering.{is_full, apply_goods_received}
use merchandising_funnel_aut.Procurement.Receipts.{
  arrivals_of, with_arrivals, apply_goods_received_once,
}

-- What a line says is ordered and received of a SKU.
abbrev pub awaited_figures : ExpectedDeliveryLine → ℕ × ℤ × ℤ
awaited_figures l = (l.sku, l.quantity_ordered, l.quantity_received)

abbrev pub ordered_figures : PurchaseOrderLine → ℕ × ℤ × ℤ
ordered_figures l = (l.sku, l.quantity_ordered, l.quantity_received)

arrivals_of-told :
    (k : ℕ) (lines : List GoodsReceivedNoteLine)
    → arrivals_of k (map told lines) ≡ total_arrived k lines
arrivals_of-told k [] = refl
arrivals_of-told k (l ∷ ls) = rw (total_arrived-cons k l ls, ← arrivals_of-told k ls) refl

total_arrived-unclassified :
    (k : ℕ) (lines : List GoodsReceivedNoteLine)
    → total_arrived k (map unclassified lines) ≡ total_arrived k lines
total_arrived-unclassified k [] = refl
total_arrived-unclassified k (l ∷ ls) =
    total_arrived-cons k (unclassified l) (map unclassified ls)
    ∙ rw (total_arrived-cons k l ls, ← total_arrived-unclassified k ls) refl

-- Lines that are the same but for their classification tell of the same arrivals.
arrivals_of-kept :
    (k : ℕ) (after before : List GoodsReceivedNoteLine)
    → map unclassified after ≡ map unclassified before
    → arrivals_of k (map told after) ≡ total_arrived k before
arrivals_of-kept k after before same =
    arrivals_of-told k after
    ∙ sym (total_arrived-unclassified k after)
    ∙ ap (total_arrived k) same
    ∙ total_arrived-unclassified k before

abbrev add_figures : (ℕ → ℤ) → ℕ × ℤ × ℤ → ℕ × ℤ × ℤ
add_figures more (sku, wanted, got) = (sku, wanted, got +ℤ more sku)

with_arrived-figures :
    (arrived : List GoodsReceivedNoteLine) (lines : List ExpectedDeliveryLine)
    → map awaited_figures (map (with_arrived arrived) lines)
      ≡ map (add_figures (λ k. total_arrived k arrived)) (map awaited_figures lines)
with_arrived-figures arrived [] = refl
with_arrived-figures arrived (l ∷ ls) =
    ap (λ t. awaited_figures (with_arrived arrived l) ∷ t) (with_arrived-figures arrived ls)

with_arrivals-figures :
    (event : GoodsReceivedEvent) (arrived : List GoodsReceivedNoteLine)
    → ((k : ℕ) → arrivals_of k event.lines ≡ total_arrived k arrived)
    → (lines : List PurchaseOrderLine)
    → map ordered_figures (map (with_arrivals event.lines) lines)
      ≡ map (add_figures (λ k. total_arrived k arrived)) (map ordered_figures lines)
with_arrivals-figures event arrived same [] = refl
with_arrivals-figures event arrived same (l ∷ ls) =
    rw (same l.sku, with_arrivals-figures event arrived same ls) refl

abbrev IsFilled : ℕ × ℤ × ℤ → Type 0
IsFilled (sku, wanted, got) = wanted ≤ℤ got

enough_awaited :
    (lines : List ExpectedDeliveryLine)
    → All IsFull lines
    → All IsFilled (map awaited_figures lines)
enough_awaited [] all = tt
enough_awaited (l ∷ ls) (h, hs) = (h, enough_awaited ls hs)

enough_ordered :
    (lines : List PurchaseOrderLine)
    → All IsFilled (map ordered_figures lines)
    → every is_full lines ≡ true
enough_ordered [] all = refl
enough_ordered (l ∷ ls) (h, hs) =
    let full : leb_ℤ l.quantity_ordered l.quantity_received ≡ true = ground arith in
    rw (full, enough_ordered ls hs) refl

enough_received :
    (d : ExpectedDelivery)
    → HasStatus d
    → d.status ≡ ExpectedDeliveryStatus.received
    → All IsFull d.lines
enough_received d (inl (e, all)) h = all
enough_received d (inr (e, none_full)) h = absurd (cc (e, h))

-- The delivery of a completed note and the order that it is for, once the order has the event.
pub record IsFollowed (po_number order_id : ℕ) (s : Receiving) (orders : Orders) (t : Receiving)
    : Type 0 where
  pub event : GoodsReceivedEvent
  pub told_once : t.published ≡ event ∷ s.published
  pub delivery : ExpectedDelivery
  pub awaited : find po_number t.deliveries ≡ some delivery
  pub order : PurchaseOrder
  pub ordered : find order_id (apply_goods_received event orders).orders ≡ some order
  pub agreed : map awaited_figures delivery.lines ≡ map ordered_figures order.lines
  pub ended :
      delivery.status ≡ ExpectedDeliveryStatus.received → order.status ≡ PurchaseOrderStatus.closed

module _ (env : Env) (id : ℕ) (s : Receiving) (ready : IsReady id s) (orders : Orders)
    (order_id : ℕ) (po stored : PurchaseOrder) where
  told-IsFollowed :
      (r : Result (Unit {0}) × Receiving) (done : Completes env env id s ready r)
      (event : GoodsReceivedEvent)
      → r.1.published ≡ event ∷ s.published
      → Tells done.after event
      → find_by_number ready.note.po_number orders.orders ≡ some (order_id, po)
      → find order_id orders.orders ≡ some stored
      → any (λ n. n == ready.note.goods_received_note_number) orders.processed_receipts ≡ false
      → map awaited_figures ready.delivery.lines ≡ map ordered_figures po.lines
      → IsFollowed ready.note.po_number order_id s orders r.1
  told-IsFollowed r done event published tells known here fresh same =
      let c = done.completed in
      let (order, ordered, after, ending, again) =
        apply_goods_received_once event orders order_id po stored
          (ap (λ n. find_by_number n orders.orders) (tells.order ∙ c.header.1) ∙ known) here
          (ap (λ k. any (λ n. n == k) orders.processed_receipts) (tells.number ∙ c.header.0)
            ∙ fresh) in
      let arrived : (k : ℕ) → arrivals_of k event.lines ≡ total_arrived k ready.note.lines = λ k.
        ap (arrivals_of k) tells.lines
        ∙ arrivals_of-kept k done.after.lines ready.note.lines c.kept in
      let agreed : map awaited_figures c.delivery_after.lines ≡ map ordered_figures order.lines =
        ap (map awaited_figures) c.counted
        ∙ with_arrived-figures ready.note.lines ready.delivery.lines
        ∙ ap (map (add_figures (λ k. total_arrived k ready.note.lines))) same
        ∙ sym (with_arrivals-figures event ready.note.lines arrived po.lines)
        ∙ sym (ap (λ (o : PurchaseOrder). map ordered_figures o.lines) after) in
      record {
        event = event;
        told_once = published;
        delivery = c.delivery_after;
        awaited = c.delivered;
        order = order;
        ordered = ordered;
        agreed = agreed;
        ended = λ received. ending.1 (
            inr (
              enough_ordered order.lines (
                subst (All IsFilled) agreed (
                  enough_awaited c.delivery_after.lines
                    (enough_received c.delivery_after c.judged received)))));
      }

  -- Where the expected delivery and the purchase order have the same SKUs with the same quantities
  -- ordered and received, and the bus is up: a note that is ready is completed, and once the order
  -- has the event that is published, which it has not had before, they have the same again; and
  -- where the delivery is received, the order is closed.
  pub order_follows_delivery :
      env.bus_up ≡ true
      → find_by_number ready.note.po_number orders.orders ≡ some (order_id, po)
      → find order_id orders.orders ≡ some stored
      → any (λ n. n == ready.note.goods_received_note_number) orders.processed_receipts ≡ false
      → map awaited_figures ready.delivery.lines ≡ map ordered_figures po.lines
      → ((finalize env id s).0 ≡ ok tt)
        × IsFollowed ready.note.po_number order_id s orders (finalize env id s).1
  order_follows_delivery up known here fresh same =
      let (r, e, done) = finalize-ready env env id s ready true up in
      elim done.is_told [
        | inl (_, passed, (event, published, tells)) ↦
            rw e (passed, told-IsFollowed r done event published tells known here fresh same)
        | inr (down, _, _) ↦ absurd (cc (up, down))
      ]
