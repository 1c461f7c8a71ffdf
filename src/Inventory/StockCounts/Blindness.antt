-- ===== src/Inventory/StockCounts/Blindness.antt =====
-- What a counter gets to see of a blind count
-- (services/inventory/src/stock-counts/stock-counts.service.ts).
use merchandising_funnel_aut.Common.{number_key, pair_key, map}
use merchandising_funnel_aut.Common.Int.{pos}
use merchandising_funnel_aut.Inventory.StockCounts.{StockCountLine, StockCount}

-- A line without what the books expect.
abbrev pub unexpected : StockCountLine → StockCountLine
unexpected line = record line { expected_qty = pos 0 }

-- A count without what the books expect.
abbrev pub expecting_nothing : StockCount → StockCount
expecting_nothing count = record count { lines = map unexpected count.lines }
