-- ===== src/SalesAudit/State.antt =====
-- The tables of Sales Audit (services/sales-audit/prisma/schema.prisma).
use merchandising_funnel_aut.Common.{
  Key, same_pair, ℕ, ◌≡◌, ◌↔◌, Bool, true, ◌&&◌, Option, List, arith,
}
use merchandising_funnel_aut.Events.{DayClosedEvent}
use merchandising_funnel_aut.Common.Int.{ℤ}
use merchandising_funnel_aut.Common.Table.{Table}

pub data DailyCloseStatus : Type 0 where
  opened blocked_on_explanation closed : DailyCloseStatus

pub record DailyClose : Type 0 where
  pub expected_total : ℤ
  pub actual_counted_total : Option ℤ
  pub discrepancy_amount : Option ℤ
  pub status : DailyCloseStatus
  pub discrepancy_explanation : Option ℕ
  pub closed_by_manager_id : Option ℕ
  pub closed_at : Option ℕ

pub record DiscrepancyLogEntry : Type 0 where
  pub store_id : ℕ
  pub business_date : ℕ
  pub discrepancy_amount : ℤ
  pub explanation : Option ℕ

-- The tables. A store's day is the pair of its store and its date; a cashier's line is under its day
-- and the pair of cashier and register.
pub record Audit : Type 0 where
  pub ledgers : Table (ℕ × ℕ) ℤ
  pub cashier_lines : Table ((ℕ × ℕ) × (ℕ × ℕ)) ℤ
  pub applied : List ℕ
  pub closes : Table (ℕ × ℕ) DailyClose
  pub log : List DiscrepancyLogEntry
  pub published : List DayClosedEvent

-- The clock, a random identifier, and whether the bus takes an event.
pub record Env : Type 0 where
  pub now : ℕ
  pub uuid : ℕ
  pub bus_up : Bool

abbrev pub same_cashier_line : (ℕ × ℕ) × (ℕ × ℕ) → (ℕ × ℕ) × (ℕ × ℕ) → Bool
same_cashier_line a b = same_pair a.0 b.0 && same_pair a.1 b.1

pub same_cashier_line_iff : (a b : (ℕ × ℕ) × (ℕ × ℕ)) → (same_cashier_line a b ≡ true) ↔ (a ≡ b)
same_cashier_line_iff a b = (λ h. ground arith, λ h. ground arith)

instance abbrev pub cashier_line_key : Key ((ℕ × ℕ) × (ℕ × ℕ))
cashier_line_key = record { same = same_cashier_line; same_iff = same_cashier_line_iff }
