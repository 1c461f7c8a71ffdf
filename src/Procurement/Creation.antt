-- ===== src/Procurement/Creation.antt =====
-- The creation of an order at frozen prices
-- (services/procurement/src/purchase-orders/purchase-orders.service.ts).
use merchandising_funnel_aut.Common.{
  ◌==◌, number_key, pair_key, find_where, sum_of, ℕ, suc, ◌+◌, Option, none, some, List, [], ◌∷◌,
  map,
}
use merchandising_funnel_aut.Common.Action.{
  Error, Result, Action, throw, lift, ◌>>=◌, modify, map_ok, bind_ok, ok, err,
}
use merchandising_funnel_aut.Common.Int.{◌*ℤ◌, pos}
use merchandising_funnel_aut.Common.Table.{create}
use merchandising_funnel_aut.Procurement.State.{
  Env, PurchaseOrder, PurchaseOrderStatus, PurchaseOrderLine, Orders, SupplierOffer, OrderedLine,
}

-- A line priced at the supplier's offer.
abbrev pub priced_line : OrderedLine → Option SupplierOffer → Result (OrderedLine × SupplierOffer)
priced_line line none = err Error.bad_request
priced_line line (some offer) = ok (line, offer)

unfoldable pub priced_lines :
    Env → ℕ → List OrderedLine → Result (List (OrderedLine × SupplierOffer))
priced_lines env supplier_id [] = ok []
priced_lines env supplier_id (line ∷ lines) =
    let rest = priced_lines env supplier_id lines in
    bind_ok (env.find_suppliers_for_sku line.sku) λ offers.
      bind_ok (priced_line line (find_where (λ o. o.supplier_id == supplier_id) offers))
        λ priced. map_ok (λ more. priced ∷ more) rest

abbrev pub order_line : OrderedLine × SupplierOffer → PurchaseOrderLine
order_line (line, offer) = record {
  sku = line.sku;
  product_name = offer.product_name;
  quantity_ordered = line.quantity_ordered;
  unit_cost = offer.unit_cost;
  quantity_received = pos 0;
}

abbrev pub draft_order :
    ℕ → ℕ → ℕ → SupplierOffer → List (OrderedLine × SupplierOffer) → PurchaseOrder
draft_order sequence supplier_id requested_by_id first_offer lines = record {
  po_number = 1000 + sequence;
  supplier_id = supplier_id;
  supplier_name = first_offer.supplier_name;
  payment_terms_days = first_offer.payment_terms_days;
  currency = first_offer.currency;
  status = PurchaseOrderStatus.draft;
  total_amount = sum_of (λ l. l.1.unit_cost *ℤ l.0.quantity_ordered) lines;
  requested_by_id = requested_by_id;
  approved_by_id = none;
  approved_at = none;
  lines = map order_line lines;
}

-- An order without lines, which the request's validation refuses, would throw here.
unfoldable pub create_priced :
    Env → ℕ → ℕ → List (OrderedLine × SupplierOffer) → Action Orders (Unit {0})
create_priced env supplier_id requested_by_id [] = throw Error.bad_request
create_priced env supplier_id requested_by_id (first ∷ more) = modify (λ s. record s {
  sequence = suc s.sequence;
  orders =
      create env.new_id
        (draft_order (suc s.sequence) supplier_id requested_by_id first.1 (first ∷ more)) s.orders;
})

-- `create`
unfoldable pub create_order : Env → ℕ → ℕ → List OrderedLine → Action Orders (Unit {0})
unfolding priced_lines create_priced
create_order env supplier_id requested_by_id lines =
    lift (priced_lines env supplier_id lines) >>= create_priced env supplier_id requested_by_id
