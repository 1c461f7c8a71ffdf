-- ===== src/Warehouse/Rooms.antt =====
-- The room that tasks reserve in bins (services/warehouse-operations/src/putaway/putaway.service.ts).
use merchandising_funnel_aut.Common.{number_key, pair_key, ℕ, ◌≡◌, ◌⊎◌, Option, none, some}
use merchandising_funnel_aut.Common.Table.{Table, find}
use merchandising_funnel_aut.Warehouse.Bins.{Footprint}
use merchandising_funnel_aut.Warehouse.Putaway.{use_room, free_room}
use merchandising_funnel_aut.Warehouse.State.{Bin, PutawayTask, Warehouse}

-- What becomes of the bins where a task goes from its current bin, if it has one, to another.
abbrev pub IsMoved :
    PutawayTask → Footprint → ℕ → Bin → Option ℕ → Table ℕ Bin → Table ℕ Bin → Type 0
IsMoved task footprint chosen bin current before after =
    ((current ≡ none) × (find chosen after ≡ some (use_room footprint.volume footprint.weight bin)))
    ⊎ (((current ≡ some chosen) × (after ≡ before))
        ⊎ ((b : ℕ) × (current ≡ some b)
            × (find chosen after ≡ some (use_room footprint.volume footprint.weight bin))
            × ((old : Bin)
                → find b before ≡ some old
                → find b after ≡ some (free_room task.reserved_volume task.reserved_weight old))))
