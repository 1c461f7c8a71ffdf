-- ===== src/Inventory/StockCounts/Counting.antt =====
-- Counting, submitting and cancelling a stock count, and the summary of its lines
-- (services/inventory/src/stock-counts/stock-counts.service.ts).
use mathlib.Core.Option
use merchandising_funnel_aut.Common.{
  ◌==◌, if◌then◌else◌, number_key, pair_key, length, keep, every, any, sum_of, ℕ, suc, Bool, true,
  false, not, ◌&&◌, Option, none, some, List, [], ◌∷◌, ◌++◌,
}
use merchandising_funnel_aut.Common.Action.{Error, Action, or_throw, ◌>>=◌, ◌>>◌, throw_if, modify}
use merchandising_funnel_aut.Common.Int.{ℤ, pos_part, ◌-ℤ◌, neg, ◌*ℤ◌, ◌==ℤ◌, pos}
use merchandising_funnel_aut.Common.Table.{find, update}
use merchandising_funnel_aut.Inventory.State.{Env, Product}
use merchandising_funnel_aut.Inventory.StockCounts.{
  is_active, assert_status, StockCountStatus, StockCountLine, StockCount, Counts, is_opened,
  get_count, is_given, new_count_line,
}

pub data UncountedHandling : Type 0 where
  reject skip zeroed : UncountedHandling

abbrev pub user_row : Env → ℕ → Option (ℕ × ℕ)
user_row env user_id = some (user_id, env.now)

abbrev pub with_count : ℤ → Env → ℕ → StockCountLine → StockCountLine
with_count counted env user_id line = record line {
  counted_qty = some counted;
  counted_by_id = some user_id;
  counted_at = some env.now;
}

-- The first line of the SKU is counted; none is where the count has no such line.
unfoldable pub count_line : Env → ℕ → ℤ → ℕ → List StockCountLine → Option (List StockCountLine)
count_line env sku counted user_id [] = none
count_line env sku counted user_id (line ∷ lines) =
    let rest = count_line env sku counted user_id lines in
    if line.sku == sku
    then some (with_count counted env user_id line ∷ lines)
    else Option.map (λ ls. line ∷ ls) rest

abbrev pub set_lines : ℕ → List StockCountLine → Counts → Counts
set_lines id lines s = record s {
  counts = update id (λ (c : StockCount). record c { lines = lines }) s.counts;
}

unfoldable pub add_line : Env → ℕ → ℤ → ℕ → StockCount → Product → Counts → Counts
unfolding new_count_line
add_line env id counted user_id count product s =
    let line = new_count_line s.next_line_id count.location_code s.inventory product in
    record (set_lines id (count.lines ++ (with_count counted env user_id line ∷ [])) s) {
      next_line_id = suc s.next_line_id;
    }

-- A product that turns up is added, expecting what the books say now.
unfoldable pub record_line :
    Env → ℕ → ℕ → ℤ → ℕ → StockCount → Option (List StockCountLine) → Action Counts (Unit {0})
unfolding add_line
record_line env id sku counted user_id count (some lines) s = modify (set_lines id lines) s
record_line env id sku counted user_id count none s =
    (or_throw (find sku s.inventory.products) Error.not_found >>= λ product.
    modify (add_line env id counted user_id count product))
      s

unfoldable pub record_count : Env → ℕ → ℕ → ℤ → ℕ → Action Counts (Unit {0})
unfolding count_line record_line
record_count env id sku counted user_id = get_count id >>= λ count.
    assert_status is_opened count
    >> record_line env id sku counted user_id count (count_line env sku counted user_id count.lines)

abbrev pub is_missing : StockCountLine → Bool
is_missing line = not (is_given line.counted_qty)

abbrev pub is_reject : UncountedHandling → Bool
is_reject UncountedHandling.reject = true
is_reject _ = false

abbrev pub is_zeroed : UncountedHandling → Bool
is_zeroed UncountedHandling.zeroed = true
is_zeroed _ = false

-- Lines that nobody counted are counted as 0, where the request says so.
unfoldable pub zero_missing : Env → ℕ → List StockCountLine → List StockCountLine
zero_missing env user_id [] = []
zero_missing env user_id (line ∷ lines) =
    (if is_missing line then with_count (pos 0) env user_id line else line)
    ∷ zero_missing env user_id lines

unfoldable pub submitted_count : Env → UncountedHandling → ℕ → StockCount → StockCount
unfolding zero_missing
submitted_count env uncounted user_id c = record c {
  lines = if is_zeroed uncounted then zero_missing env user_id c.lines else c.lines;
  status = StockCountStatus.submitted;
  updated_at = env.now;
  submitted = user_row env user_id;
}

abbrev pub nothing_counted : StockCount → Bool
nothing_counted count = every is_missing count.lines

unfoldable pub submit : Env → ℕ → UncountedHandling → ℕ → Action Counts (Unit {0})
unfolding submitted_count
submit env id uncounted user_id = get_count id >>= λ count.
    assert_status is_opened count
    >> throw_if (any is_missing count.lines && is_reject uncounted) Error.bad_request
    >> throw_if (nothing_counted count && not (is_zeroed uncounted)) Error.bad_request
    >> modify λ s. record s { counts = update id (submitted_count env uncounted user_id) s.counts }

abbrev pub cancelled_count : Env → ℕ → StockCount → StockCount
cancelled_count env user_id c = record c {
  status = StockCountStatus.cancelled;
  updated_at = env.now;
  cancelled = user_row env user_id;
}

unfoldable pub cancel : Env → ℕ → ℕ → Action Counts (Unit {0})
cancel env id user_id = get_count id >>= λ count.
    assert_status is_active count
    >> modify λ s. record s { counts = update id (cancelled_count env user_id) s.counts }

pub record Summary : Type 0 where
  pub line_count : ℕ
  pub counted_lines : ℕ
  pub lines_with_variance : Option ℕ
  pub units_over : Option ℤ
  pub units_short : Option ℤ
  pub variance_value : Option ℤ

abbrev pub delta_of : StockCountLine → ℤ
delta_of line = elim line.counted_qty [ none ↦ pos 0 | some counted ↦ counted -ℤ line.expected_qty ]

abbrev pub has_variance : StockCountLine → Bool
has_variance line = elim line.counted_qty [
  | none ↦ false
  | some counted ↦ not (counted ==ℤ line.expected_qty)
]

abbrev pub positive : ℤ → ℤ
positive a = pos (pos_part a)

abbrev pub counted_lines : List StockCountLine → ℕ
counted_lines lines = length (keep (λ l. is_given l.counted_qty) lines)

unfoldable pub summarize : List StockCountLine → Summary
summarize lines = record {
  line_count = length lines;
  counted_lines = counted_lines lines;
  lines_with_variance = some (length (keep has_variance lines));
  units_over = some (sum_of (λ l. positive (delta_of l)) lines);
  units_short = some (sum_of (λ l. positive (neg (delta_of l))) lines);
  variance_value = some (sum_of (λ l. delta_of l *ℤ l.unit_cost) lines);
}

unfoldable pub hidden_summary : List StockCountLine → Summary
hidden_summary lines = record {
  line_count = length lines;
  counted_lines = counted_lines lines;
  lines_with_variance = none;
  units_over = none;
  units_short = none;
  variance_value = none;
}
