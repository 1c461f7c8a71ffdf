-- ===== src/Warehouse/Putaway.antt =====
-- PutawayService (services/warehouse-operations/src/putaway/putaway.service.ts).
use merchandising_funnel_aut.Common.{
  leb, ◌==◌, if◌then◌else◌, number_key, pair_key, keep, find_where, ℕ, suc, Bool, true, false, not,
  ◌&&◌, ◌||◌, Option, none, some, List, [], ◌∷◌,
}
use merchandising_funnel_aut.Events.{Condition, GoodsReceivedLine, GoodsReceivedEvent}
use merchandising_funnel_aut.Common.Action.{
  Error, Action, or_throw, lift, ◌>>=◌, ◌>>◌, throw_if, modify,
}
use merchandising_funnel_aut.Common.Int.{ℤ, ◌+ℤ◌, ◌-ℤ◌, ltb_ℤ, pos}
use merchandising_funnel_aut.Common.Table.{Table, find, create, update}
use merchandising_funnel_aut.Warehouse.Bins.{BinCandidate, Footprint, footprint_for, select_bin}
use merchandising_funnel_aut.Warehouse.State.{
  Env, Bin, PutawayTaskStatus, PutawayTask, Warehouse, ItemAttributes,
}

-- The bins of a location, as the choice of a bin sees them: the bin that a task has already counts
-- as if the room that is reserved for the task were free.
unfoldable pub as_candidate : PutawayTask → ℕ → Bin → BinCandidate
as_candidate task id bin =
    let has : Bool = elim task.bin_id [ none ↦ false | some b ↦ id == b ] in
    record {
      id = id;
      code = bin.code;
      pick_priority = bin.pick_priority;
      capacity_volume = bin.capacity_volume;
      max_weight = bin.max_weight;
      used_volume = if has then bin.used_volume -ℤ task.reserved_volume else bin.used_volume;
      used_weight = if has then bin.used_weight -ℤ task.reserved_weight else bin.used_weight;
    }

unfoldable pub candidates_for : PutawayTask → Table ℕ Bin → List BinCandidate
unfolding as_candidate
candidates_for task [] = []
candidates_for task ((id, bin) ∷ bins) =
    let rest = candidates_for task bins in
    if bin.location_code == task.location_code then as_candidate task id bin ∷ rest else rest

unfoldable pub is_high_velocity : Env → ItemAttributes → Bool
is_high_velocity env attributes = elim attributes.units_per_day [
  | none ↦ false
  | some units ↦ leb env.high_velocity_units_per_day units
]

-- The bin that the request names, or the best of the location. The bins are those of the task's
-- location, so that a named one is never of another.
unfoldable pub choose_bin :
    List BinCandidate → Footprint → Bool → Option ℕ → Action Warehouse BinCandidate
unfolding select_bin
choose_bin candidates footprint high_velocity none =
    or_throw (select_bin candidates footprint high_velocity) Error.bad_request
choose_bin candidates footprint high_velocity (some code) =
    or_throw (find_where (λ (b : BinCandidate). b.code == code) candidates) Error.not_found
    >>= λ requested.
        or_throw
          (select_bin (keep (λ (b : BinCandidate). b.id == requested.id) candidates) footprint
            high_velocity)
          Error.bad_request

abbrev pub use_room : ℤ → ℤ → Bin → Bin
use_room volume weight bin = record bin {
  used_volume = bin.used_volume +ℤ volume;
  used_weight = bin.used_weight +ℤ weight;
}

abbrev pub free_room : ℤ → ℤ → Bin → Bin
free_room volume weight bin = record bin {
  used_volume = bin.used_volume -ℤ volume;
  used_weight = bin.used_weight -ℤ weight;
}

-- The bin that the task leaves, and the one that it goes to, where that is another one.
unfoldable pub move_room : PutawayTask → Footprint → ℕ → Option ℕ → Table ℕ Bin → Table ℕ Bin
move_room task footprint chosen none bins =
    update chosen (use_room footprint.volume footprint.weight) bins
move_room task footprint chosen (some current) bins =
    if current == chosen
    then bins
    else update chosen (use_room footprint.volume footprint.weight)
        (update current (free_room task.reserved_volume task.reserved_weight) bins)

abbrev pub directed : Footprint → ℕ → PutawayTask → PutawayTask
directed footprint chosen task = record task {
  bin_id = some chosen;
  reserved_volume = footprint.volume;
  reserved_weight = footprint.weight;
}

unfoldable pub direct_to : ℕ → PutawayTask → Footprint → BinCandidate → Action Warehouse (Unit {0})
unfolding move_room
direct_to id task footprint chosen = modify λ s. record s {
  bins = move_room task footprint chosen.id task.bin_id s.bins;
  tasks = update id (directed footprint chosen.id) s.tasks;
}

-- Chooses a bin, then moves the task's reservation of room onto it.
unfoldable pub assign_bin : Env → ℕ → PutawayTask → Option ℕ → Action Warehouse (Unit {0})
unfolding footprint_for is_high_velocity candidates_for choose_bin direct_to
assign_bin env id task bin_code s =
    (lift (env.get_item_attributes task.sku) >>= λ attributes.
    let footprint = footprint_for attributes task.quantity in
    choose_bin (candidates_for task s.bins) footprint (is_high_velocity env attributes) bin_code
    >>= direct_to id task footprint)
      s

abbrev pub is_pending : PutawayTaskStatus → Bool
is_pending PutawayTaskStatus.pending = true
is_pending PutawayTaskStatus.completed = false

abbrev pub find_task : ℕ → Action Warehouse PutawayTask
find_task id s = or_throw (find id s.tasks) Error.not_found s

abbrev pub assert_pending : PutawayTask → Action Warehouse (Unit {0})
assert_pending task = throw_if (not (is_pending task.status)) Error.bad_request

unfoldable pub assign : Env → ℕ → Option ℕ → Action Warehouse (Unit {0})
unfolding assign_bin
assign env id bin_code =
    find_task id >>= λ task. assert_pending task >> assign_bin env id task bin_code

abbrev pub is_for_line : ℕ → ℕ → PutawayTask → Bool
is_for_line note sku t = t.goods_received_note_number == note && t.sku == sku

abbrev pub any_task : (PutawayTask → Bool) → Table ℕ PutawayTask → Bool
any_task p [] = false
any_task p ((_, t) ∷ ts) = p t || any_task p ts

abbrev pub new_task : GoodsReceivedEvent → GoodsReceivedLine → PutawayTask
new_task event line = record {
  goods_received_note_number = event.goods_received_note_number;
  po_number = event.po_number;
  sku = line.sku;
  product_name = line.product_name;
  quantity = line.quantity_received;
  location_code = event.received_at_location;
  bin_id = none;
  reserved_volume = pos 0;
  reserved_weight = pos 0;
  status = PutawayTaskStatus.pending;
  completed_by = none;
}

abbrev pub is_put_away : GoodsReceivedLine → Bool
is_put_away line = elim line.condition [
  | Condition.good ↦ ltb_ℤ (pos 0) line.quantity_received
  | Condition.damaged ↦ false
]

-- The task, and a bin for it where one can be chosen.
unfoldable pub create_task : Env → GoodsReceivedEvent → GoodsReceivedLine → Warehouse → Warehouse
unfolding assign_bin
create_task env event line s =
    (assign_bin env s.next_id (new_task event line) none (record s {
      tasks = create s.next_id (new_task event line) s.tasks;
      next_id = suc s.next_id;
    })).1

unfoldable pub receive_line : Env → GoodsReceivedEvent → GoodsReceivedLine → Warehouse → Warehouse
unfolding create_task
receive_line env event line s =
    let created = create_task env event line s in
    if is_put_away line
      && not (any_task (is_for_line event.goods_received_note_number line.sku) s.tasks)
    then created
    else s

unfoldable pub receive_lines :
    Env → GoodsReceivedEvent → List GoodsReceivedLine → Warehouse → Warehouse
unfolding receive_line
receive_lines env event [] s = s
receive_lines env event (line ∷ lines) s =
    receive_lines env event lines (receive_line env event line s)

-- FR-5.6
unfoldable pub create_from_goods_received : Env → GoodsReceivedEvent → Warehouse → Warehouse
unfolding receive_lines
create_from_goods_received env event s = receive_lines env event event.lines s
