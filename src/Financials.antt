-- ===== src/Financials.antt =====
-- The Financials service (services/financials).
pub mod Accounts
pub mod Journal
pub mod Plans
pub mod Postings
pub mod Effects
pub mod Ledger
pub mod Tests
