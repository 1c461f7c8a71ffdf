-- ===== src/Warehouse/Shelving.antt =====
-- The completion of a putaway task
-- (services/warehouse-operations/src/putaway/putaway.service.ts).
use merchandising_funnel_aut.Common.{◌==◌, number_key, pair_key, ℕ, not, Option, none, some}
use merchandising_funnel_aut.Common.Action.{
  Error, Result, Action, ◌>>=◌, ◌>>◌, throw_if, modify, ok, err,
}
use merchandising_funnel_aut.Common.Int.{ℤ, pos_part, ◌+ℤ◌, round_div, pos}
use merchandising_funnel_aut.Common.Table.{Table, find, update, upsert}
use merchandising_funnel_aut.Warehouse.Putaway.{find_task, assert_pending}
use merchandising_funnel_aut.Warehouse.State.{
  Env, Bin, BinStock, PutawayTaskStatus, PutawayTask, Confirmation, Warehouse, confirm_bin_location,
}

abbrev pub found_bin : ℕ → Option Bin → Result (ℕ × Bin)
found_bin bin_id none = err Error.bad_request
found_bin bin_id (some bin) = ok (bin_id, bin)

abbrev pub assigned_bin : Option ℕ → Table ℕ Bin → Result (ℕ × Bin)
assigned_bin none bins = err Error.bad_request
assigned_bin (some bin_id) bins = found_bin bin_id (find bin_id bins)

-- The task's bin, where one is assigned.
abbrev pub bin_of : PutawayTask → Action Warehouse (ℕ × Bin)
bin_of task s = (assigned_bin task.bin_id s.bins, s)

abbrev pub quantity_on_shelf : Option BinStock → ℤ
quantity_on_shelf none = pos 0
quantity_on_shelf (some stock) = stock.quantity

abbrev pub completed_task : Env → ℕ → PutawayTask → PutawayTask
completed_task env user_id task = record task {
  status = PutawayTaskStatus.completed;
  completed_by = some (user_id, env.now);
}

-- The room that a unit takes, as the columns round it.
abbrev pub per_unit : ℤ → ℤ → ℤ
per_unit reserved quantity = round_div reserved (pos_part quantity)

abbrev pub shelved : PutawayTask → BinStock → BinStock
shelved task stock = record {
  quantity = stock.quantity +ℤ task.quantity;
  unit_volume = per_unit task.reserved_volume task.quantity;
  unit_weight = per_unit task.reserved_weight task.quantity;
}

abbrev pub new_stock : PutawayTask → BinStock
new_stock task = record {
  quantity = task.quantity;
  unit_volume = per_unit task.reserved_volume task.quantity;
  unit_weight = per_unit task.reserved_weight task.quantity;
}

-- The database transaction that ends a task.
unfoldable pub shelve : Env → ℕ → ℕ → PutawayTask → ℕ → Warehouse → Warehouse
shelve env id user_id task bin_id s = record s {
  tasks = update id (completed_task env user_id) s.tasks;
  stock = upsert (bin_id, task.sku) (new_stock task) (shelved task) s.stock;
}

abbrev pub confirmation_of : PutawayTask → ℕ × Bin → Warehouse → Confirmation
confirmation_of task (bin_id, bin) s = record {
  sku = task.sku;
  bin_code = bin.code;
  location_code = task.location_code;
  quantity = quantity_on_shelf (find (bin_id, task.sku) s.stock) +ℤ task.quantity;
}

-- FR-5.2/FR-5.7: Inventory is told the bin's quantity before the task is ended.
unfoldable pub complete : Env → ℕ → ℕ → ℕ → Action Warehouse (Unit {0})
unfolding shelve
complete env id scanned_bin_code user_id = find_task id >>= λ task.
    assert_pending task >> bin_of task >>= λ found.
    throw_if (not (scanned_bin_code == found.1.code)) Error.bad_request
    >> (λ s. confirm_bin_location env (confirmation_of task found s) s)
    >> modify (shelve env id user_id task found.0)
