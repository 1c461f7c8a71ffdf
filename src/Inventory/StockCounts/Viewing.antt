-- ===== src/Inventory/StockCounts/Viewing.antt =====
-- What a user gets to see of a stock count
-- (services/inventory/src/stock-counts/stock-counts.service.ts).
use mathlib.Core.Option
use merchandising_funnel_aut.Common.{
  leb, if◌then◌else◌, ℕ, Bool, true, false, not, ◌&&◌, Option, none, some, List, map,
}
use merchandising_funnel_aut.Roles.{Role}
use merchandising_funnel_aut.Common.Action.{Action, pure, ◌>>=◌}
use merchandising_funnel_aut.Common.Int.{ℤ, ◌-ℤ◌}
use merchandising_funnel_aut.Common.Sorting.{sort}
use merchandising_funnel_aut.Inventory.StockCounts.{
  StockCountType, StockCountStatus, StockCountLine, StockCount, Counts, is_opened, get_count,
}
use merchandising_funnel_aut.Inventory.StockCounts.Counting.{Summary, summarize, hidden_summary}

-- A line as it is sent: all of its row, and its variance. Its count is the count of the view.
pub record LineView : Type 0 where
  pub id : ℕ
  pub product_id : ℕ
  pub sku : ℕ
  pub product_name : ℕ
  pub expected_qty : Option ℤ
  pub counted_qty : Option ℤ
  pub counted_by_id : Option ℕ
  pub counted_at : Option ℕ
  pub unit_cost : ℤ
  pub variance : Option ℤ

-- A count as it is sent: all of its row, its lines and its summary.
pub record CountView : Type 0 where
  pub id : ℕ
  pub sequence : ℕ
  pub count_number : ℕ
  pub location_code : ℕ
  pub type : StockCountType
  pub status : StockCountStatus
  pub blind : Bool
  pub notes : Option ℕ
  pub created_by_id : ℕ
  pub submitted : Option (ℕ × ℕ)
  pub posted : Option (ℕ × ℕ)
  pub cancelled : Option (ℕ × ℕ)
  pub created_at : ℕ
  pub updated_at : ℕ
  pub lines : List LineView
  pub expected_hidden : Bool
  pub summary : Summary

-- REVIEWERS
abbrev pub is_reviewer : Role → Bool
is_reviewer Role.owner = true
is_reviewer Role.manager = true
is_reviewer _ = false

unfoldable pub is_hidden : StockCount → Role → Bool
is_hidden count role = count.blind && is_opened count.status && not (is_reviewer role)

unfoldable pub line_view : Bool → StockCountLine → LineView
line_view hidden line = record {
  id = line.id;
  product_id = line.product_id;
  sku = line.sku;
  product_name = line.product_name;
  expected_qty = if hidden then none else some line.expected_qty;
  counted_qty = line.counted_qty;
  counted_by_id = line.counted_by_id;
  counted_at = line.counted_at;
  unit_cost = line.unit_cost;
  variance =
      if hidden
      then none
      else Option.map (λ counted. counted -ℤ line.expected_qty) line.counted_qty;
}

-- SKUs are numbers in the order in which they are sorted.
abbrev pub is_sooner : StockCountLine → StockCountLine → Bool
is_sooner a b = leb a.sku b.sku

unfoldable pub view_of : ℕ → Bool → StockCount → CountView
unfolding line_view summarize hidden_summary
view_of id hidden count = record {
  id = id;
  sequence = count.sequence;
  count_number = count.count_number;
  location_code = count.location_code;
  type = count.type;
  status = count.status;
  blind = count.blind;
  notes = count.notes;
  created_by_id = count.created_by_id;
  submitted = count.submitted;
  posted = count.posted;
  cancelled = count.cancelled;
  created_at = count.created_at;
  updated_at = count.updated_at;
  lines = map (line_view hidden) (sort is_sooner count.lines);
  expected_hidden = hidden;
  summary = if hidden then hidden_summary count.lines else summarize count.lines;
}

-- Expected quantities and variances are hidden from counters on an open blind count.
unfoldable pub find_one : ℕ → Role → Action Counts CountView
unfolding is_hidden view_of
find_one id role = get_count id >>= λ count. pure (view_of id (is_hidden count role) count)
