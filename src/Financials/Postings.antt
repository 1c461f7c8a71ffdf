-- ===== src/Financials/Postings.antt =====
-- PostingsService (services/financials/src/postings/postings.service.ts): the accounting that each
-- domain event implies. A plan is what the ledger commits for one event. What the service asks of
-- Procurement and Inventory is an argument.
mod Receipts
mod Sales
mod Adjustments
unfoldable pub use Receipts.*
unfoldable pub use Sales.*
unfoldable pub use Adjustments.*
