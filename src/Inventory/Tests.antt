-- ===== src/Inventory/Tests.antt =====
-- The Inventory service at concrete inputs: a product, 7, with 10 on hand at location 1.
use merchandising_funnel_aut.Common.{◌≡◌, refl, ◌⊎◌, true, false, List, [], ◌∷◌}
use merchandising_funnel_aut.Events.{StockTransferredEvent}
use merchandising_funnel_aut.Common.Action.{ok}
use merchandising_funnel_aut.Common.Int.{◌+ℤ◌, ◌-ℤ◌, ◌≤ℤ◌, ◌<ℤ◌, pos, int_laws}
use merchandising_funnel_aut.Inventory.Checkout.{
  reserve-IsCovered, granted, refused, reserve_all_or_nothing,
}
use merchandising_funnel_aut.Inventory.Consistency.{run, Call, run-Consistent, Consistent}
use merchandising_funnel_aut.Inventory.Levels.{on_hand_at, allocated_at}
use merchandising_funnel_aut.Inventory.Lifecycle.{
  available_at, IsCovered, interleaved_reservations_oversell, IsSettled, settles_once,
}
use merchandising_funnel_aut.Inventory.Redelivery.{
  apply_stock_transfer_twice, apply_item_return_twice, brought, apply_stock_transfer_moves,
}
use merchandising_funnel_aut.Inventory.Reservations.{
  check_and_reserve, reserve, release_reservation, consume_reservation_for_sale,
}
use merchandising_funnel_aut.Inventory.State.{
  Env, Product, StockLevel, ReservationStatus, Inventory,
}
use merchandising_funnel_aut.Inventory.Stock.{apply_stock_transfer, apply_item_return}

abbrev milk : Product
milk = record { id = 7; sku = 70; name = 700; unit_cost = pos 50 }

abbrev morning : Env
morning = record { now = 1000; uuid = 1; bus_up = true; reorder_lead_time_days = 3 }

abbrev no_bus : Env
no_bus = record { now = 2000; uuid = 2; bus_up = false; reorder_lead_time_days = 3 }

abbrev empty_stock : Inventory
empty_stock = record {
  products = (70, milk) ∷ [];
  levels = [];
  transactions = [];
  reservations = [];
  velocities = [];
  published = [];
  next_id = 0;
}

abbrev calls : List (Env × Call)
calls =
    (morning, Call.adjusts 70 1 (pos 10) 5 6)
    ∷ (morning, Call.reserves 70 1 (pos 4) 9)
    ∷ (morning, Call.reserves 70 1 (pos 8) 9)
    ∷ (no_bus, Call.consumes 2 (pos 4) 9)
    ∷ (morning, Call.returns 70 1 (pos 1) 3)
    ∷ []

empty_stock-Consistent : Consistent empty_stock
empty_stock-Consistent = record {
  reconciled = λ p l. refl;
  promised = λ p l. refl;
  placed = λ id r h. absurd (cc h);
}

run-Consistent_example : Consistent (run calls empty_stock)
run-Consistent_example = run-Consistent calls empty_stock empty_stock-Consistent

abbrev stocked : Inventory
stocked = record empty_stock {
  levels = ((7, 1), record { on_hand = pos 10; allocated = pos 0; unit_value = pos 50 }) ∷ [];
}

abbrev to_store : StockTransferredEvent
to_store = record {
  event_id = 1;
  occurred_at = 1000;
  transfer_number = 12;
  sku = 70;
  quantity = pos 3;
  from_location_code = 1;
  to_location_code = 2;
}

apply_stock_transfer_twice_example :
    apply_stock_transfer no_bus to_store (apply_stock_transfer morning to_store stocked)
    ≡ apply_stock_transfer morning to_store stocked
apply_stock_transfer_twice_example = apply_stock_transfer_twice morning no_bus to_store stocked

apply_item_return_twice_example :
    apply_item_return no_bus 70 1 (pos 2) 5 (apply_item_return morning 70 1 (pos 2) 5 stocked)
    ≡ apply_item_return morning 70 1 (pos 2) 5 stocked
apply_item_return_twice_example = apply_item_return_twice morning no_bus 70 1 (pos 2) 5 stocked

apply_stock_transfer_moves_example :
    (on_hand_at 7 2 (apply_stock_transfer morning to_store stocked).levels
      ≡ on_hand_at 7 2 stocked.levels +ℤ brought milk to_store 7 2)
    × (allocated_at 7 2 (apply_stock_transfer morning to_store stocked).levels
        ≡ allocated_at 7 2 stocked.levels)
apply_stock_transfer_moves_example =
    apply_stock_transfer_moves morning to_store milk stocked refl refl 7 2

abbrev shelf : StockLevel
shelf = record { on_hand = pos 10; allocated = pos 0; unit_value = pos 50 }

interleaved_reservations_oversell_example :
    on_hand_at 7 1
      (check_and_reserve morning milk 1
        (pos 6)
        21
        shelf
        (check_and_reserve morning milk 1 (pos 6) 20 shelf stocked).1).1.levels
    <ℤ allocated_at 7 1
        (check_and_reserve morning milk 1
          (pos 6)
          21
          shelf
          (check_and_reserve morning milk 1 (pos 6) 20 shelf stocked).1).1.levels
interleaved_reservations_oversell_example =
    interleaved_reservations_oversell morning morning milk 1 (pos 6) (pos 6) 20 21 shelf stocked
      refl (omega int_laws) (omega int_laws) (omega int_laws)

abbrev reserved : Inventory
reserved = record stocked {
  reservations =
      (
        4,
        record {
          product_id = 7;
          location_code = 1;
          quantity = pos 2;
          transaction_reference = 30;
          status = ReservationStatus.active;
        },
      )
      ∷ [];
}

settles_once_example :
    IsSettled morning 4 (pos 2) 30 (release_reservation no_bus 4 reserved).1
    × IsSettled morning 4 (pos 2) 30 (consume_reservation_for_sale no_bus 4 (pos 2) 30 reserved).1
settles_once_example = settles_once no_bus morning 4 (pos 2) (pos 2) 30 30 reserved

empty_stock-IsCovered : IsCovered empty_stock
empty_stock-IsCovered q m = omega int_laws

reserve-IsCovered_example : IsCovered (reserve morning 70 1 (pos 4) 9 empty_stock).1
reserve-IsCovered_example =
    reserve-IsCovered morning 70 1 (pos 4) 9 empty_stock empty_stock-IsCovered

reserve_all_or_nothing_example :
    ((pos 4 ≤ℤ available_at 7 1 stocked)
      × ((reserve morning 70 1 (pos 4) 9 stocked).0
          ≡ ok (granted (pos 4) (available_at 7 1 stocked -ℤ pos 4) 0))
      × (allocated_at 7 1 (reserve morning 70 1 (pos 4) 9 stocked).1.levels
          ≡ allocated_at 7 1 stocked.levels +ℤ pos 4)
      × (on_hand_at 7 1 (reserve morning 70 1 (pos 4) 9 stocked).1.levels
          ≡ on_hand_at 7 1 stocked.levels))
    ⊎ ((available_at 7 1 stocked <ℤ pos 4)
        × ((reserve morning 70 1 (pos 4) 9 stocked).0 ≡ ok (refused (available_at 7 1 stocked)))
        × (allocated_at 7 1 (reserve morning 70 1 (pos 4) 9 stocked).1.levels
            ≡ allocated_at 7 1 stocked.levels)
        × ((reserve morning 70 1 (pos 4) 9 stocked).1.reservations ≡ stocked.reservations))
reserve_all_or_nothing_example = reserve_all_or_nothing morning 70 1 (pos 4) 9 stocked milk refl
