-- ===== src/Flows.antt =====
-- How the services work together: what one publishes, and what another makes of it.
pub mod Deliveries
pub mod Shrinkage
pub mod Sales
pub mod Tests
