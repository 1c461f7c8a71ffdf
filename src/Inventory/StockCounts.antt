-- ===== src/Inventory/StockCounts.antt =====
-- Stock counts: the life of a count up to its posting
-- (services/inventory/src/stock-counts/stock-counts.service.ts).
pub mod Counting
pub mod Viewing
pub mod Posting
pub mod Booked
pub mod Settling
pub mod Rules
pub mod Blindness
pub mod Tests
use merchandising_funnel_aut.Common.{
  ◌==◌, if◌then◌else◌, number_key, pair_key, length, every, any, ℕ, suc, ◌+◌, Bool, true, false,
  not, ◌&&◌, ◌||◌, Option, none, some, List, [], ◌∷◌, map,
}
use merchandising_funnel_aut.Common.Action.{
  Error, Action, pure, or_throw, ◌>>=◌, ◌>>◌, throw_if, modify,
}
use merchandising_funnel_aut.Common.Int.{ℤ, pos}
use merchandising_funnel_aut.Common.Table.{Table, find, create}
use merchandising_funnel_aut.Inventory.State.{Env, Product, StockLevel, Inventory}

pub data StockCountType : Type 0 where
  full cycle : StockCountType

pub data StockCountStatus : Type 0 where
  opened submitted posted cancelled : StockCountStatus

-- A line is not counted yet where `counted_qty` is none.
pub record StockCountLine : Type 0 where
  pub id : ℕ
  pub product_id : ℕ
  pub sku : ℕ
  pub product_name : ℕ
  pub expected_qty : ℤ
  pub counted_qty : Option ℤ
  pub counted_by_id : Option ℕ
  pub counted_at : Option ℕ
  pub unit_cost : ℤ

-- A row under its id, with who submitted, posted and cancelled it, and when.
pub record StockCount : Type 0 where
  pub sequence : ℕ
  pub count_number : ℕ
  pub location_code : ℕ
  pub type : StockCountType
  pub status : StockCountStatus
  pub blind : Bool
  pub notes : Option ℕ
  pub created_by_id : ℕ
  pub submitted : Option (ℕ × ℕ)
  pub posted : Option (ℕ × ℕ)
  pub cancelled : Option (ℕ × ℕ)
  pub created_at : ℕ
  pub updated_at : ℕ
  pub lines : List StockCountLine

-- The stock, the category of each product by its SKU, the counts, and the next id of a line.
pub record Counts : Type 0 where
  pub inventory : Inventory
  pub categories : Table ℕ ℕ
  pub counts : Table ℕ StockCount
  pub count_sequence : ℕ
  pub next_line_id : ℕ

pub record CreateStockCount : Type 0 where
  pub location_code : ℕ
  pub type : StockCountType
  pub skus : List ℕ
  pub category : Option ℕ
  pub blind : Option Bool
  pub notes : Option ℕ

abbrev pub is_submitted : StockCountStatus → Bool
is_submitted StockCountStatus.submitted = true
is_submitted _ = false

abbrev pub is_opened : StockCountStatus → Bool
is_opened StockCountStatus.opened = true
is_opened _ = false

-- ACTIVE
abbrev pub is_active : StockCountStatus → Bool
is_active s = is_opened s || is_submitted s

abbrev pub get_count : ℕ → Action Counts StockCount
get_count id s = or_throw (find id s.counts) Error.not_found s

-- `assertStatus`
abbrev pub assert_status : (StockCountStatus → Bool) → StockCount → Action Counts (Unit {0})
assert_status expected count = throw_if (not (expected count.status)) Error.conflict

abbrev pub is_given {ℓ} : {A : Type ℓ} → Option A → Bool
is_given none = false
is_given (some _) = true

abbrev pub is_empty {ℓ} : {A : Type ℓ} → List A → Bool
is_empty [] = true
is_empty (_ ∷ _) = false

-- A full count names no products, and a cycle count names some.
unfoldable pub is_wrong_scope : CreateStockCount → Bool
is_wrong_scope dto = elim dto.type [
  | StockCountType.full ↦ not (is_empty dto.skus) || is_given dto.category
  | StockCountType.cycle ↦ is_empty dto.skus && not (is_given dto.category)
]

-- `findFirst` of the active counts at a location.
abbrev pub active_at : ℕ → Table ℕ StockCount → Bool
active_at location_code [] = false
active_at location_code ((_, c) ∷ t) =
    (c.location_code == location_code && is_active c.status) || active_at location_code t

abbrev pub has_category : Option ℕ → Option ℕ → Bool
has_category (some wanted) (some category) = category == wanted
has_category _ _ = false

unfoldable pub is_in_scope : CreateStockCount → Counts → ℕ → Product → Bool
is_in_scope dto s sku p = elim dto.type [
  | StockCountType.full ↦ is_given (find (p.id, dto.location_code) s.inventory.levels)
  | StockCountType.cycle ↦
      if is_empty dto.skus
      then has_category dto.category (find sku s.categories)
      else any (λ wanted. sku == wanted) dto.skus
]

abbrev pub on_hand_or_zero : Option StockLevel → ℤ
on_hand_or_zero none = pos 0
on_hand_or_zero (some level) = level.on_hand

unfoldable pub new_count_line : ℕ → ℕ → Inventory → Product → StockCountLine
new_count_line id location_code s p = record {
  id = id;
  product_id = p.id;
  sku = p.sku;
  product_name = p.name;
  expected_qty = on_hand_or_zero (find (p.id, location_code) s.levels);
  counted_qty = none;
  counted_by_id = none;
  counted_at = none;
  unit_cost = p.unit_cost;
}

unfoldable pub new_count_lines : ℕ → ℕ → Inventory → List Product → List StockCountLine
unfolding new_count_line
new_count_lines next location_code s [] = []
new_count_lines next location_code s (p ∷ ps) =
    new_count_line next location_code s p ∷ new_count_lines (suc next) location_code s ps

unfoldable pub products_in_scope : CreateStockCount → Counts → Table ℕ Product → List Product
unfolding is_in_scope
products_in_scope dto s [] = []
products_in_scope dto s ((sku, p) ∷ t) =
    let rest = products_in_scope dto s t in if is_in_scope dto s sku p then p ∷ rest else rest

-- `productsToCount`: every SKU that the request names has to be among them.
unfoldable pub products_to_count : CreateStockCount → Action Counts (List Product)
unfolding products_in_scope
products_to_count dto s =
    let products = products_in_scope dto s s.inventory.products in
    (throw_if (not (every (λ sku. any (λ (p : Product). p.sku == sku) products) dto.skus))
          Error.not_found
        >> pure products)
      s

unfoldable pub new_count : Env → CreateStockCount → ℕ → List Product → Counts → StockCount
unfolding new_count_lines
new_count env dto user_id products s = record {
  sequence = s.count_sequence;
  count_number = 1000 + s.count_sequence;
  location_code = dto.location_code;
  type = dto.type;
  status = StockCountStatus.opened;
  blind = elim dto.blind [ none ↦ true | some b ↦ b ];
  notes = dto.notes;
  created_by_id = user_id;
  submitted = none;
  posted = none;
  cancelled = none;
  created_at = env.now;
  updated_at = env.now;
  lines = new_count_lines s.next_line_id dto.location_code s.inventory products;
}

abbrev pub open_count : Env → CreateStockCount → ℕ → List Product → Counts → Counts
open_count env dto user_id products s = record s {
  counts = create env.uuid (new_count env dto user_id products s) s.counts;
  count_sequence = suc s.count_sequence;
  next_line_id = s.next_line_id + length products;
}

unfoldable pub create_count : Env → CreateStockCount → ℕ → Action Counts (Unit {0})
unfolding is_wrong_scope products_to_count new_count
create_count env dto user_id =
    throw_if (is_wrong_scope dto) Error.bad_request
    >> (λ s. throw_if (active_at dto.location_code s.counts) Error.conflict s)
    >> products_to_count dto
    >>= λ products.
        throw_if (is_empty products) Error.bad_request
        >> modify (open_count env dto user_id products)
