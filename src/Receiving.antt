-- ===== src/Receiving.antt =====
-- Goods received notes (services/receiving/src/goods-received-notes): the classification of a line
-- (discrepancy.ts), a scan and the completion of a note (goods-received-notes.service.ts), with the
-- expected delivery that a completion updates (services/receiving/src/expected-deliveries).
pub mod State
pub mod Scans
pub mod Finalizing
pub mod Outcomes
pub mod Completion
pub mod Discrepancies
pub mod Classified
pub mod Tests
