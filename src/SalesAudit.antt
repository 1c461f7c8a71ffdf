-- ===== src/SalesAudit.antt =====
-- Sales audit (services/sales-audit/src): the expected takings of a store's day, kept from the sales
-- (item-sold-ledger/ledger.service.ts, item-sold-ledger/ledger.repository.ts), and the close of the
-- day (daily-close/daily-close.service.ts, daily-close/daily-close.repository.ts).
pub mod State
pub mod Sales
pub mod Days
pub mod Closing
pub mod Takings
pub mod Tests
