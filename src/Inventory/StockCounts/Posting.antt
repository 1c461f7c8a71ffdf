-- ===== src/Inventory/StockCounts/Posting.antt =====
-- The posting of a stock count (services/inventory/src/stock-counts/stock-counts.service.ts).
use merchandising_funnel_aut.Common.{
  if◌then◌else◌, number_key, pair_key, ℕ, Bool, false, Option, none, some, List, [], ◌∷◌, map,
}
use merchandising_funnel_aut.Events.{AdjustmentKind, StockAdjustedLine, StockAdjustedEvent}
use merchandising_funnel_aut.Common.Action.{
  Error, Action, pure, ◌>>=◌, ◌>>◌, throw_if, modify, transaction,
}
use merchandising_funnel_aut.Common.Int.{ℤ, ltb_ℤ, pos}
use merchandising_funnel_aut.Common.Table.{find, update, upsert}
use merchandising_funnel_aut.Inventory.State.{
  Env, publish, Event, StockLevel, TransactionType, ReferenceType, Inventory, increment,
  record_transaction,
}
use merchandising_funnel_aut.Inventory.StockCounts.{
  assert_status, StockCountStatus, StockCountLine, StockCount, Counts, is_submitted, get_count,
}
use merchandising_funnel_aut.Inventory.StockCounts.Counting.{delta_of, has_variance}

pub record Change : Type 0 where
  pub line : StockCountLine
  pub delta : ℤ

-- The lines that were counted to something else than the books say.
unfoldable pub changes_of : List StockCountLine → List Change
changes_of [] = []
changes_of (line ∷ lines) =
    let rest = changes_of lines in
    if has_variance line then record { line = line; delta = delta_of line } ∷ rest else rest

abbrev pub post_level : ℕ → Change → Inventory → Inventory
post_level location_code change s = record s {
  levels =
      upsert (change.line.product_id, location_code)
        (record { on_hand = change.delta; allocated = pos 0; unit_value = change.line.unit_cost })
        (increment change.delta (pos 0)) s.levels;
}

abbrev pub is_below_zero : Option StockLevel → Bool
is_below_zero none = false
is_below_zero (some level) = ltb_ℤ level.on_hand (pos 0)

unfoldable pub post_change : Env → StockCount → Change → Action Inventory (Unit {0})
unfolding record_transaction
post_change env count change =
    modify (post_level count.location_code change)
    >> (λ s.
        throw_if (is_below_zero (find (change.line.product_id, count.location_code) s.levels))
          Error.conflict s)
    >> modify (
        record_transaction env change.line.product_id count.location_code TransactionType.adjustment
          change.delta ReferenceType.stock_count count.count_number)

unfoldable pub post_changes : Env → StockCount → List Change → Action Inventory (Unit {0})
unfolding post_change
post_changes env count [] = pure tt
post_changes env count (change ∷ changes) =
    post_change env count change >> post_changes env count changes

-- A call of the stock tables, with the counts besides them.
abbrev pub on_inventory : Action Inventory (Unit {0}) → Action Counts (Unit {0})
on_inventory m s = ((m s.inventory).0, record s { inventory = (m s.inventory).1 })

abbrev pub posted_count : Env → ℕ → StockCount → StockCount
posted_count env user_id c = record c {
  status = StockCountStatus.posted;
  updated_at = env.now;
  posted = some (user_id, env.now);
}

-- The database transaction; its result is the count and the changes that it made.
unfoldable pub post_body : Env → ℕ → ℕ → Action Counts (StockCount × List Change)
unfolding changes_of post_changes
post_body env id user_id = get_count id >>= λ count.
    assert_status is_submitted count
    >> on_inventory (post_changes env count (changes_of count.lines))
    >> modify (λ s. record s { counts = update id (posted_count env user_id) s.counts })
    >> pure (count, changes_of count.lines)

abbrev pub adjusted_line : Change → StockAdjustedLine
adjusted_line change = record {
  sku = change.line.sku;
  product_name = change.line.product_name;
  quantity_delta = change.delta;
  unit_cost = change.line.unit_cost;
}

-- The description, a text of the number and the notes, is known by the number.
unfoldable pub posting_event : Env → ℕ → StockCount → List Change → StockAdjustedEvent
posting_event env user_id count changes = record {
  event_id = env.uuid;
  occurred_at = env.now;
  kind = AdjustmentKind.stock_count;
  reference = count.count_number;
  location_code = count.location_code;
  description = count.count_number;
  adjusted_by_id = user_id;
  lines = map adjusted_line changes;
}

-- Nothing is published where nothing changed.
unfoldable pub publish_posting : Env → ℕ → StockCount × List Change → Action Counts (Unit {0})
unfolding posting_event
publish_posting env user_id (count, []) = pure tt
publish_posting env user_id (count, change ∷ changes) =
    on_inventory
      (publish env (Event.stock_adjusted (posting_event env user_id count (change ∷ changes))))

unfoldable pub post : Env → ℕ → ℕ → Action Counts (Unit {0})
unfolding post_body publish_posting
post env id user_id = transaction (post_body env id user_id) >>= publish_posting env user_id
