-- ===== src/Inventory.antt =====
-- The Inventory service (services/inventory).
pub mod State
pub mod Stock
pub mod Reservations
pub mod Levels
pub mod Consistency
pub mod Lifecycle
pub mod Checkout
pub mod Redelivery
pub mod StockCounts
pub mod Tests
