-- ===== src/Procurement.antt =====
-- Purchase orders (services/procurement/src/purchase-orders/purchase-orders.service.ts).
pub mod State
pub mod Creation
pub mod Ordering
pub mod Approval
pub mod Receipts
pub mod Prices
pub mod Runs
pub mod Tests
