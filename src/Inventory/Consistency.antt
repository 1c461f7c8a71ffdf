-- ===== src/Inventory/Consistency.antt =====
-- The stock levels against the transaction log and the reservations
-- (services/inventory/src/stock/stock.service.ts).
mod Writes
mod Operations
mod Runs
pub use Writes.{
  is_movement, concerns, moved, is_active, promised_at, IsConsistent, adjustment-IsConsistent,
}
pub use Operations.{Consistent}
pub use Runs.*
