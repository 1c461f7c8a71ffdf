-- ===== src/Procurement/Approval.antt =====
-- The approval of a purchase order (FR-2.3, D-1, D-16,
-- services/procurement/src/purchase-orders/purchase-orders.service.ts).
use merchandising_funnel_aut.Common.{number_key, pair_key, ◌∷◌}
use merchandising_funnel_aut.Events.{PurchaseOrderApprovedEvent}
use merchandising_funnel_aut.Procurement.State.{Orders}

abbrev with_published : PurchaseOrderApprovedEvent → Orders → Orders
with_published event s = record s { published = event ∷ s.published }
