-- ===== src/Warehouse.antt =====
-- The Warehouse Operations service (services/warehouse-operations).
pub mod State
pub mod Bins
pub mod Putaway
pub mod Shelving
pub mod Transfers
pub mod Picking
pub mod Allocation
pub mod Offers
pub mod Promises
pub mod Rounds
pub mod Directions
pub mod Runs
pub mod Completion
pub mod Rooms
pub mod Tests
