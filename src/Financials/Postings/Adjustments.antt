-- ===== src/Financials/Postings/Adjustments.antt =====
-- The posting of a closed day and of a stock adjustment
-- (services/financials/src/postings/postings.service.ts).
use merchandising_funnel_aut.Common.{ℕ, none, some, List, [], ◌∷◌, if◌then◌else◌, sum_of}
use merchandising_funnel_aut.Common.Int.{ℤ, pos, ◌*ℤ◌, abs_ℤ, ltb_ℤ, ◌==ℤ◌}
use merchandising_funnel_aut.Common.Action.{Result, ok, map_ok}
use merchandising_funnel_aut.Events.{
  DayClosedEvent, StockAdjustedEvent, StockAdjustedLine, AdjustmentKind,
}
use merchandising_funnel_aut.Financials.Accounts.{
  cash, cash_over_short, inventory, inventory_shrinkage,
}
use merchandising_funnel_aut.Financials.Journal.{
  JournalDraft, JournalLineDraft, EntrySource, balanced, debit_line, credit_line,
}
use merchandising_funnel_aut.Financials.Plans.{PostingPlan, nothing_to_book}

abbrev pub only_entry : JournalDraft → PostingPlan
only_entry e = record { entry = some e; bill = none; facts = [] }

-- An amount moved from one account to another: a debit of `to` and a credit of `from`.
abbrev pub moves : ℕ → ℕ → ℤ → List JournalLineDraft
moves to from amount = debit_line to amount ∷ credit_line from amount ∷ []

abbrev pub day_closed_entry : DayClosedEvent → JournalDraft
day_closed_entry event = record {
  occurred_at = event.occurred_at;
  source = EntrySource.day_closed;
  source_ref = (event.store_id, event.business_date);
  store_id = some event.store_id;
  lines =
      if ltb_ℤ event.discrepancy_amount (pos 0)
      then moves cash_over_short cash (abs_ℤ event.discrepancy_amount)
      else moves cash cash_over_short (abs_ℤ event.discrepancy_amount);
}

-- FR-8.3: a shortage is an expense, an overage reduces it, and a balanced day books nothing.
unfoldable pub day_closed : DayClosedEvent → Result PostingPlan
day_closed event =
    if event.discrepancy_amount ==ℤ pos 0
    then ok nothing_to_book
    else map_ok only_entry (balanced (day_closed_entry event))

-- The value of a stock adjustment, at the unit costs of its lines.
abbrev pub adjusted_value : List StockAdjustedLine → ℤ
adjusted_value lines = sum_of (λ l. l.quantity_delta *ℤ l.unit_cost) lines

abbrev pub kind_ref : AdjustmentKind → ℕ
kind_ref AdjustmentKind.stock_count = 0
kind_ref AdjustmentKind.manual = 1

abbrev pub stock_adjusted_entry : StockAdjustedEvent → ℤ → JournalDraft
stock_adjusted_entry event value = record {
  occurred_at = event.occurred_at;
  source = EntrySource.stock_adjustment;
  source_ref = (kind_ref event.kind, event.reference);
  store_id = none;
  lines =
      if ltb_ℤ value (pos 0)
      then moves inventory_shrinkage inventory (abs_ℤ value)
      else moves inventory inventory_shrinkage (abs_ℤ value);
}

-- D-19: a net loss is shrinkage, a net gain its reverse.
unfoldable pub stock_adjusted : StockAdjustedEvent → Result PostingPlan
stock_adjusted event =
    let value = adjusted_value event.lines in
    if value ==ℤ pos 0
    then ok nothing_to_book
    else map_ok only_entry (balanced (stock_adjusted_entry event value))
