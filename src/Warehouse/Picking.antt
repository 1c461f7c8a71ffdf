-- ===== src/Warehouse/Picking.antt =====
-- The picks of a transfer, and its completion
-- (services/warehouse-operations/src/transfers/transfers.service.ts).
use merchandising_funnel_aut.Common.{
  ◌==◌, if◌then◌else◌, number_key, pair_key, ℕ, Bool, true, false, not, ◌&&◌, ◌||◌, Option, none,
  some, [], ◌∷◌,
}
use merchandising_funnel_aut.Events.{StockTransferredEvent}
use merchandising_funnel_aut.Common.Action.{
  Error, Action, pure, throw, or_throw, ◌>>=◌, ◌>>◌, throw_if, modify, ok,
}
use merchandising_funnel_aut.Common.Int.{◌-ℤ◌, ◌*ℤ◌, ltb_ℤ}
use merchandising_funnel_aut.Common.Table.{Table, find, update}
use merchandising_funnel_aut.Warehouse.Putaway.{free_room}
use merchandising_funnel_aut.Warehouse.State.{
  Env, publish, Bin, BinStock, TransferStatus, Transfer, PickTaskStatus, PickTask, Confirmation,
  Warehouse, confirm_bin_location,
}
use merchandising_funnel_aut.Warehouse.Transfers.{is_open}

abbrev pub is_picking : TransferStatus → Bool
is_picking TransferStatus.picking = true
is_picking TransferStatus.completed = false

abbrev pub any_pending : ℕ → Table ℕ PickTask → Bool
any_pending transfer_id [] = false
any_pending transfer_id ((_, p) ∷ ps) =
    (p.transfer_id == transfer_id && is_open p.status) || any_pending transfer_id ps

unfoldable pub transferred_event : Env → Transfer → StockTransferredEvent
transferred_event env t = record {
  event_id = env.uuid;
  occurred_at = env.now;
  transfer_number = t.transfer_number;
  sku = t.sku;
  quantity = t.quantity;
  from_location_code = t.from_location_code;
  to_location_code = t.to_location_code;
}

abbrev pub completed_transfer : Env → Transfer → Transfer
completed_transfer env t = record t {
  status = TransferStatus.completed;
  completed_at = some env.now;
}

-- The transfer, where it is picked to the end and not completed yet.
abbrev pub ready_transfer : ℕ → Option Transfer → Warehouse → Option Transfer
ready_transfer id none s = none
ready_transfer id (some t) s =
    if is_picking t.status && not (any_pending id s.picks) then some t else none

unfoldable pub complete_ready : Env → ℕ → Option Transfer → Action Warehouse (Unit {0})
unfolding transferred_event
complete_ready env id none = pure tt
complete_ready env id (some t) =
    publish env (transferred_event env t)
    >> modify λ s. record s { transfers = update id (completed_transfer env) s.transfers }

-- D-7: the event goes out before the transfer is completed.
unfoldable pub complete_if_all_picked : Env → ℕ → Action Warehouse (Unit {0})
unfolding complete_ready
complete_if_all_picked env id s =
    complete_ready env id (ready_transfer id (find id s.transfers) s) s

abbrev pub picked_task : Env → ℕ → PickTask → PickTask
picked_task env user_id p = record p {
  status = PickTaskStatus.picked;
  picked_by = some (user_id, env.now);
}

abbrev pub take_from : PickTask → BinStock → BinStock
take_from pick stock = record stock { quantity = stock.quantity -ℤ pick.quantity }

-- The database transaction of a pick.
unfoldable pub write_pick : Env → ℕ → ℕ → PickTask → BinStock → Warehouse → Warehouse
write_pick env id user_id pick stock s = record s {
  picks = update id (picked_task env user_id) s.picks;
  stock = update (pick.bin_id, pick.sku) (take_from pick) s.stock;
  bins =
      update pick.bin_id
        (free_room (stock.unit_volume *ℤ pick.quantity) (stock.unit_weight *ℤ pick.quantity))
        s.bins;
}

-- A pick of more than the bin still holds is refused.
abbrev pub enough_on_shelf : PickTask → Option BinStock → Option BinStock
enough_on_shelf pick none = none
enough_on_shelf pick (some stock) = if ltb_ℤ stock.quantity pick.quantity then none else some stock

abbrev pub pick_confirmation : PickTask → Bin → BinStock → Confirmation
pick_confirmation pick bin stock = record {
  sku = pick.sku;
  bin_code = bin.code;
  location_code = bin.location_code;
  quantity = stock.quantity -ℤ pick.quantity;
}

-- A failure to tell Inventory is only logged.
unfoldable pub complete_pending : Env → ℕ → ℕ → ℕ → PickTask → Action Warehouse (Unit {0})
unfolding write_pick complete_if_all_picked
complete_pending env id scanned_bin_code user_id pick s =
    (or_throw (find pick.bin_id s.bins) Error.not_found >>= λ bin.
    throw_if (not (scanned_bin_code == bin.code)) Error.bad_request
    >> or_throw (enough_on_shelf pick (find (pick.bin_id, pick.sku) s.stock)) Error.bad_request
    >>= λ stock.
        modify (write_pick env id user_id pick stock)
        >> (λ t. (ok tt, (confirm_bin_location env (pick_confirmation pick bin stock) t).1))
        >> complete_if_all_picked env pick.transfer_id)
      s

abbrev pub retry_completion : Env → PickTask → Action Warehouse (Unit {0})
retry_completion env pick s =
    (or_throw (find pick.transfer_id s.transfers) Error.not_found >>= λ transfer.
    if is_picking transfer.status
    then complete_if_all_picked env pick.transfer_id
    else throw Error.bad_request)
      s

-- FR-5.3: a pick that is done already may be sent again to finish its transfer.
unfoldable pub complete_pick : Env → ℕ → ℕ → ℕ → Action Warehouse (Unit {0})
unfolding complete_pending complete_if_all_picked
complete_pick env id scanned_bin_code user_id s =
    (or_throw (find id s.picks) Error.not_found >>= λ pick.
    if is_open pick.status
    then complete_pending env id scanned_bin_code user_id pick
    else retry_completion env pick)
      s
