-- ===== src/Warehouse/Tests.antt =====
-- Examples for Warehouse Operations: two bins at location 1, the first nearer to dispatch.
use mathlib.Core.Option
use merchandising_funnel_aut.Common.{
  number_key, pair_key, All, ℕ, ◌≡◌, refl, ◌⊎◌, true, false, none, some, List, [], ◌∷◌, arith,
}
use merchandising_funnel_aut.Events.{
  Condition, DiscrepancyType, GoodsReceivedLine, GoodsReceivedEvent,
}
use merchandising_funnel_aut.Common.Action.{Error, ok, err}
use merchandising_funnel_aut.Common.Int.{ℤ, ◌≤ℤ◌, ◌<ℤ◌, pos, ◌-ℤ◌}
use merchandising_funnel_aut.Warehouse.Allocation.{offered}
use merchandising_funnel_aut.Warehouse.Bins.{
  BinCandidate, Footprint, has_room, comes_first, select_bin, IsBest, select_bin_lem,
}
use merchandising_funnel_aut.Warehouse.Completion.{IsGranted, create_transfer_lem}
use merchandising_funnel_aut.Warehouse.Offers.{on_shelf}
use merchandising_funnel_aut.Warehouse.Promises.{IsPromisable}
use merchandising_funnel_aut.Warehouse.Putaway.{as_candidate, candidates_for, new_task}
use merchandising_funnel_aut.Warehouse.Runs.{Step, run_steps, run_steps-IsPromisable}
use merchandising_funnel_aut.Warehouse.State.{
  Env, Bin, BinStock, PutawayTask, TransferStatus, Transfer, PickTaskStatus, PickTask, Warehouse,
  ItemAttributes,
}
use merchandising_funnel_aut.Warehouse.Transfers.{CreateTransfer, sources_of, create_transfer}

abbrev near : Bin
near = record {
  code = 11;
  location_code = 1;
  zone = 1;
  pick_priority = 10;
  capacity_volume = pos 1000;
  max_weight = pos 100;
  used_volume = pos 0;
  used_weight = pos 0;
}

abbrev far : Bin
far = record near { code = 12; pick_priority = 50 }

-- A chair takes 2 x 3 x 5 and weighs 4; eight are sold a day.
abbrev chair : ItemAttributes
chair = record {
  length = some (pos 2);
  width = some (pos 3);
  height = some (pos 5);
  weight = some (pos 4);
  units_per_day = some 8;
}

abbrev at_work : Env
at_work = record {
  now = 100;
  uuid = 500;
  bus_up = true;
  inventory_up = true;
  get_item_attributes = λ sku. ok chair;
  high_velocity_units_per_day = 5;
}

abbrev no_bus : Env
no_bus = record at_work { bus_up = false }

abbrev shelf_of : ℤ → BinStock
shelf_of quantity = record { quantity = quantity; unit_volume = pos 30; unit_weight = pos 4 }

abbrev hall : Warehouse
hall = record {
  bins = (1, near) ∷ (2, far) ∷ [];
  stock = ((1, 7), shelf_of (pos 3)) ∷ ((2, 7), shelf_of (pos 9)) ∷ [];
  tasks = [];
  transfers = [];
  picks = [];
  transfer_sequence = 1;
  confirmed = [];
  published = [];
  next_id = 60;
}

abbrev received : GoodsReceivedLine
received = record {
  sku = 7;
  product_name = 70;
  quantity_ordered = pos 5;
  quantity_received = pos 5;
  condition = Condition.good;
  discrepancy_type = DiscrepancyType.nothing;
}

abbrev note : GoodsReceivedEvent
note = record {
  event_id = 1;
  occurred_at = 90;
  goods_received_note_number = 900;
  po_number = 800;
  supplier_id = 5;
  received_at_location = 1;
  lines = received ∷ [];
}

abbrev both : List BinCandidate
both = candidates_for (new_task note received) hall.bins

abbrev five_chairs : Footprint
five_chairs = record { volume = pos 150; weight = pos 20 }

select_bin_lem_example :
    ((bin : BinCandidate) × (select_bin both five_chairs true ≡ some bin)
      × IsBest both five_chairs true bin)
    ⊎ ((select_bin both five_chairs true ≡ none) × All (λ b. has_room five_chairs b ≡ false) both)
select_bin_lem_example = select_bin_lem both five_chairs true

fast_goods_near :
    (Option.map (λ (b : BinCandidate). b.code) (select_bin both five_chairs true) ≡ some 11)
    × (Option.map (λ (b : BinCandidate). b.code) (select_bin both five_chairs false) ≡ some 12)
unfolding select_bin has_room comes_first candidates_for as_candidate ◌-ℤ◌
fast_goods_near = (refl, refl)

abbrev move_five : CreateTransfer
move_five = record { sku = 7; quantity = pos 5; from_location_code = 1; to_location_code = 2 }

create_transfer_lem_example :
    let r = create_transfer at_work move_five 4 hall in
    let on_offer = offered (sources_of move_five hall hall.stock) in
    ((on_offer <ℤ pos 5) × (r ≡ (err Error.bad_request, hall)))
    ⊎ ((pos 5 ≤ℤ on_offer) × IsGranted at_work move_five 4 hall r)
create_transfer_lem_example = create_transfer_lem at_work move_five 4 hall refl (omega arith)

nothing_owed : (b k : ℕ) → pos 0 ≤ℤ on_shelf b k hall.stock
nothing_owed b k = ground arith

hall-IsPromisable : IsPromisable hall
hall-IsPromisable = record {
  keyed = (refl, (refl, tt));
  covered = λ b k. nothing_owed b k;
  incoming = tt;
}

abbrev a_day : List Step
a_day =
    Step.receives at_work note
    ∷ Step.puts_away at_work 60 11 4
    ∷ Step.transfers at_work move_five 4
    ∷ Step.picks no_bus 61 11 4
    ∷ []

run_steps-IsPromisable_example : IsPromisable (run_steps a_day hall)
run_steps-IsPromisable_example = run_steps-IsPromisable a_day hall hall-IsPromisable

abbrev made_pick : PickTask
made_pick = record {
  transfer_id = 500;
  bin_id = 1;
  sku = 7;
  quantity = pos 5;
  status = PickTaskStatus.picked;
  picked_by = some (4, 95);
}

abbrev waiting : Transfer
waiting = record {
  sequence = 1;
  transfer_number = 1001;
  sku = 7;
  quantity = pos 5;
  from_location_code = 1;
  to_location_code = 2;
  requested_by_id = 4;
  status = TransferStatus.picking;
  completed_at = none;
}

abbrev left_open : Warehouse
left_open = record hall { picks = (61, made_pick) ∷ []; transfers = (500, waiting) ∷ [] }

abbrev pending_task : PutawayTask
pending_task = record (new_task note received) {
  bin_id = some 2;
  reserved_volume = pos 150;
  reserved_weight = pos 20;
}

abbrev directed_hall : Warehouse
directed_hall = record hall { tasks = (60, pending_task) ∷ [] }

abbrev to_near : BinCandidate
to_near = as_candidate pending_task 1 near
