-- ===== src/Retail.antt =====
-- The Retail Sales service (services/retail-sales).
pub mod State
pub mod Pricing
pub mod Products
pub mod Stock
pub mod Checkout
pub mod Fulfilment
pub mod Returns
pub mod Returnable
pub mod Refunds
pub mod Tests
