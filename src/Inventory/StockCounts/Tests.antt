-- ===== src/Inventory/StockCounts/Tests.antt =====
-- Examples for stock counts: of product 70, with 10 on hand at location 1, only 7 are found.
use merchandising_funnel_aut.Common.{◌≡◌, refl, ◌⊎◌, true, none, some, List, [], ◌∷◌, arith}
use merchandising_funnel_aut.Common.Action.{Error, err}
use merchandising_funnel_aut.Common.Int.{ℤ, pos, ◌+ℤ◌, ◌-ℤ◌}
use merchandising_funnel_aut.Inventory.Levels.{on_hand_at}
use merchandising_funnel_aut.Inventory.State.{Env, Product, Inventory, record_transaction}
use merchandising_funnel_aut.Inventory.StockCounts.{
  StockCountType, StockCountStatus, StockCountLine, StockCount, Counts, CreateStockCount,
}
use merchandising_funnel_aut.Inventory.StockCounts.Counting.{UncountedHandling}
use merchandising_funnel_aut.Inventory.StockCounts.Posting.{
  changes_of, post_change, post_changes, post_body, posting_event, publish_posting, post,
}
use merchandising_funnel_aut.Inventory.StockCounts.Rules.{
  Step, IsExclusive, run_steps, run_steps-IsExclusive,
}
use merchandising_funnel_aut.Inventory.StockCounts.Settling.{IsBooked, post_all_or_nothing}

abbrev milk : Product
milk = record { id = 7; sku = 70; name = 700; unit_cost = pos 50 }

abbrev shelf : Inventory
shelf = record {
  products = (70, milk) ∷ [];
  levels = ((7, 1), record { on_hand = pos 10; allocated = pos 2; unit_value = pos 50 }) ∷ [];
  transactions = [];
  reservations = [];
  velocities = [];
  published = [];
  next_id = 1;
}

abbrev now : Env
now = record { now = 1000; uuid = 1; bus_up = true; reorder_lead_time_days = 3 }

abbrev found : ℤ → ℤ → StockCountLine
found expected counted = record {
  id = 1;
  product_id = 7;
  sku = 70;
  product_name = 700;
  expected_qty = expected;
  counted_qty = some counted;
  counted_by_id = some 4;
  counted_at = some 900;
  unit_cost = pos 50;
}

abbrev count_of : StockCountStatus → ℤ → StockCount
count_of status expected = record {
  sequence = 1;
  count_number = 1001;
  location_code = 1;
  type = StockCountType.full;
  status = status;
  blind = true;
  notes = none;
  created_by_id = 4;
  submitted = none;
  posted = none;
  cancelled = none;
  created_at = 800;
  updated_at = 800;
  lines = found expected (pos 7) ∷ [];
}

abbrev counts_with : StockCountStatus → ℤ → Counts
counts_with status expected = record {
  inventory = shelf;
  categories = [];
  counts = (20, count_of status expected) ∷ [];
  count_sequence = 2;
  next_line_id = 2;
}

abbrev ready : Counts
ready = counts_with StockCountStatus.submitted (pos 10)

post_all_or_nothing_example :
    let r = post now 20 5 ready in
    ((e : Error) × (r ≡ (err e, ready))) ⊎ IsBooked now 20 5 ready r.1
post_all_or_nothing_example = post_all_or_nothing now 20 5 ready

three_short : on_hand_at 7 1 (post now 20 5 ready).1.inventory.levels ≡ pos 7
unfolding post post_body changes_of post_changes post_change record_transaction publish_posting
    posting_event ◌+ℤ◌ ◌-ℤ◌
three_short = refl

twice_posted : (post now 20 5 (post now 20 5 ready).1).0 ≡ err Error.conflict
unfolding post post_body changes_of post_changes post_change record_transaction publish_posting
    posting_event ◌+ℤ◌ ◌-ℤ◌
twice_posted = refl

abbrev no_counts : Counts
no_counts = record {
  inventory = shelf;
  categories = [];
  counts = [];
  count_sequence = 1;
  next_line_id = 1;
}

abbrev everything : CreateStockCount
everything = record {
  location_code = 1;
  type = StockCountType.full;
  skus = [];
  category = none;
  blind = none;
  notes = none;
}

abbrev a_morning : List Step
a_morning =
    Step.creates now everything 4
    ∷ Step.creates now everything 4
    ∷ Step.records now 1 70 (pos 7) 4
    ∷ Step.submits now 1 UncountedHandling.reject 4
    ∷ Step.posts now 1 5
    ∷ []

run_steps-IsExclusive_example : IsExclusive (run_steps a_morning no_counts)
run_steps-IsExclusive_example = run_steps-IsExclusive a_morning no_counts (λ l. omega arith)
