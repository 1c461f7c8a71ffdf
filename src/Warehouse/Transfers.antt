-- ===== src/Warehouse/Transfers.antt =====
-- TransfersService (services/warehouse-operations/src/transfers/transfers.service.ts).
use merchandising_funnel_aut.Common.{
  ltb, ◌==◌, if◌then◌else◌, number_key, pair_key, length, ℕ, suc, ◌+◌, Bool, true, false, ◌&&◌,
  Option, none, some, List, [], ◌∷◌, ◌++◌, map,
}
use merchandising_funnel_aut.Common.Action.{Error, Action, ◌>>◌, throw_if, modify}
use merchandising_funnel_aut.Common.Int.{ℤ, ◌-ℤ◌, ltb_ℤ, leb_ℤ, ◌==ℤ◌, pos}
use merchandising_funnel_aut.Common.Sorting.{sort}
use merchandising_funnel_aut.Common.Table.{Table, number_rows, find, create, total}
use merchandising_funnel_aut.Warehouse.State.{
  Env, Bin, BinStock, TransferStatus, Transfer, PickTaskStatus, PickTask, Warehouse,
}

pub record CreateTransfer : Type 0 where
  pub sku : ℕ
  pub quantity : ℤ
  pub from_location_code : ℕ
  pub to_location_code : ℕ

pub record Source : Type 0 where
  pub bin_id : ℕ
  pub pick_priority : ℕ
  pub available : ℤ

pub record PickDraft : Type 0 where
  pub bin_id : ℕ
  pub quantity : ℤ

abbrev pub is_open : PickTaskStatus → Bool
is_open PickTaskStatus.pending = true
is_open PickTaskStatus.picked = false

-- What a pick still promises of a SKU in a bin.
abbrev pub promise_of : ℕ → ℕ → PickTask → ℤ
promise_of bin_id sku pick =
    if is_open pick.status && pick.bin_id == bin_id && pick.sku == sku then pick.quantity else pos 0

-- The open picks of a bin, as they are summed up in `promised`.
abbrev pub promised_from : ℕ → ℕ → Table ℕ PickTask → ℤ
promised_from bin_id sku picks = total (promise_of bin_id sku) picks

abbrev pub is_at : ℕ → Option Bin → Bool
is_at location_code none = false
is_at location_code (some bin) = bin.location_code == location_code

abbrev pub priority_of : Option Bin → ℕ
priority_of none = 0
priority_of (some bin) = bin.pick_priority

abbrev pub source_of : ℕ → ℕ → BinStock → Warehouse → Source
source_of bin_id sku stock s = record {
  bin_id = bin_id;
  pick_priority = priority_of (find bin_id s.bins);
  available = stock.quantity -ℤ promised_from bin_id sku s.picks;
}

-- The rows of a SKU in the bins of a location that have something left to promise.
unfoldable pub sources_of : CreateTransfer → Warehouse → Table (ℕ × ℕ) BinStock → List Source
sources_of dto s [] = []
sources_of dto s (((bin_id, sku), stock) ∷ rows) =
    let rest = sources_of dto s rows in
    let source = source_of bin_id sku stock s in
    if sku == dto.sku
      && ltb_ℤ (pos 0) stock.quantity
      && is_at dto.from_location_code (find bin_id s.bins)
      && ltb_ℤ (pos 0) source.available
    then source ∷ rest
    else rest

-- Nearest dispatch first, and smaller bins before larger ones.
abbrev pub is_nearer : Source → Source → Bool
is_nearer a b =
    if a.pick_priority == b.pick_priority
    then leb_ℤ a.available b.available
    else ltb a.pick_priority b.pick_priority

abbrev pub min_ℤ : ℤ → ℤ → ℤ
min_ℤ a b = if leb_ℤ a b then a else b

-- The picks of the loop, and what is left over.
unfoldable pub allocate : List Source → ℤ → List PickDraft × ℤ
allocate [] remaining = ([], remaining)
allocate (source ∷ sources) remaining =
    let quantity = min_ℤ source.available remaining in
    let rest = allocate sources (remaining -ℤ quantity) in
    if remaining ==ℤ pos 0
    then ([], remaining)
    else (record { bin_id = source.bin_id; quantity = quantity } ∷ rest.0, rest.1)

abbrev pub new_pick : ℕ → ℕ → PickDraft → PickTask
new_pick transfer_id sku draft = record {
  transfer_id = transfer_id;
  bin_id = draft.bin_id;
  sku = sku;
  quantity = draft.quantity;
  status = PickTaskStatus.pending;
  picked_by = none;
}

abbrev pub new_transfer : CreateTransfer → ℕ → Warehouse → Transfer
new_transfer dto user_id s = record {
  sequence = s.transfer_sequence;
  transfer_number = 1000 + s.transfer_sequence;
  sku = dto.sku;
  quantity = dto.quantity;
  from_location_code = dto.from_location_code;
  to_location_code = dto.to_location_code;
  requested_by_id = user_id;
  status = TransferStatus.picking;
  completed_at = none;
}

unfoldable pub write_transfer : Env → CreateTransfer → ℕ → List PickDraft → Warehouse → Warehouse
write_transfer env dto user_id drafts s = record s {
  transfers = create env.uuid (new_transfer dto user_id s) s.transfers;
  picks = s.picks ++ number_rows s.next_id (map (new_pick env.uuid dto.sku) drafts);
  transfer_sequence = suc s.transfer_sequence;
  next_id = s.next_id + length drafts;
}

abbrev pub planned : CreateTransfer → Warehouse → List PickDraft × ℤ
planned dto s = allocate (sort is_nearer (sources_of dto s s.stock)) dto.quantity

-- FR-5.3/FR-5.4
unfoldable pub create_transfer : Env → CreateTransfer → ℕ → Action Warehouse (Unit {0})
unfolding sources_of allocate write_transfer
create_transfer env dto user_id s =
    (throw_if (dto.from_location_code == dto.to_location_code) Error.bad_request
        >> throw_if (ltb_ℤ (pos 0) (planned dto s).1) Error.bad_request
        >> modify (write_transfer env dto user_id (planned dto s).0))
      s
