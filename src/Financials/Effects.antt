-- ===== src/Financials/Effects.antt =====
-- What each posting does to the accounts.
pub mod Adjusted
pub mod Received
pub mod Takings
pub mod Sold
pub mod Matching
