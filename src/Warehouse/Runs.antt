-- ===== src/Warehouse/Runs.antt =====
-- Sequences of calls of the warehouse
-- (services/warehouse-operations/src/putaway/putaway.service.ts, transfers/transfers.service.ts).
use merchandising_funnel_aut.Common.{
  ◌==◌, Bool-cases, Option-cases, number_key, same_pair, pair_key, ℕ, inl, inr, not, Option, List,
  [], ◌∷◌,
}
use merchandising_funnel_aut.Events.{GoodsReceivedEvent}
use merchandising_funnel_aut.Common.Action.{Error, ◌>>◌, throw_if, modify, Keeps, Keeps-bind}
use merchandising_funnel_aut.Common.Int.{◌≤ℤ◌, pos, int_laws}
use merchandising_funnel_aut.Common.Table.{find, upsert, find-upsert, find-Rows, Rows-update}
use merchandising_funnel_aut.Warehouse.Directions.{assign-Keeps, receive_lines-IsPromisable}
use merchandising_funnel_aut.Warehouse.Offers.{upsert-IsKeyed, on_shelf}
use merchandising_funnel_aut.Warehouse.Picking.{complete_pick}
use merchandising_funnel_aut.Warehouse.Promises.{IsPromisable, create_transfer-Keeps}
use merchandising_funnel_aut.Warehouse.Putaway.{is_pending, assign, create_from_goods_received}
use merchandising_funnel_aut.Warehouse.Rounds.{confirm-Keeps, complete_pick-Keeps}
use merchandising_funnel_aut.Warehouse.Shelving.{
  bin_of, completed_task, shelved, new_stock, shelve, confirmation_of, complete,
}
use merchandising_funnel_aut.Warehouse.State.{PutawayTask, Warehouse, Env, confirm_bin_location}
use merchandising_funnel_aut.Warehouse.Transfers.{CreateTransfer, promised_from, create_transfer}

-- What is put on a shelf adds to what is there.
shelved_more :
    (task : PutawayTask) (bin_id b k : ℕ) (s : Warehouse)
    → pos 0 ≤ℤ task.quantity
    → promised_from b k s.picks ≤ℤ on_shelf b k s.stock
    → promised_from b k s.picks
      ≤ℤ on_shelf b k (upsert (bin_id, task.sku) (new_stock task) (shelved task) s.stock)
shelved_more task bin_id b k s h c = elim (Bool-cases (same_pair (bin_id, task.sku) (b, k))) [
  | inr there ↦ rw (find-upsert, there) c
  | inl here ↦
      rw (find-upsert, here)
        (elim (Option-cases (find (b, k) s.stock)) [
          | inl none_there ↦
              rw none_there (
                let low : promised_from b k s.picks ≤ℤ pos 0 = rw none_there at c in omega int_laws)
          | inr (row, there) ↦ rw there (
              let low : promised_from b k s.picks ≤ℤ row.quantity = rw there at c in omega int_laws)
        ])
]

shelve-IsPromisable :
    (env : Env) (id user_id : ℕ) (task : PutawayTask) (bin_id : ℕ) (s : Warehouse)
    → pos 0 ≤ℤ task.quantity
    → IsPromisable s
    → IsPromisable (shelve env id user_id task bin_id s)
unfolding shelve
shelve-IsPromisable env id user_id task bin_id s h p = record {
  keyed = upsert-IsKeyed (bin_id, task.sku) _ _ s.stock p.keyed;
  covered = λ b k. shelved_more task bin_id b k s h (p.covered b k);
  incoming = Rows-update _ id (completed_task env user_id) s.tasks (λ t q. q) p.incoming;
}

complete-Keeps :
    (env : Env) (id scanned user_id : ℕ) → Keeps IsPromisable (complete env id scanned user_id)
unfolding complete
complete-Keeps env id scanned user_id s p = elim (Option-cases (find id s.tasks)) [
  | inl unknown ↦ rw unknown p
  | inr (task, known) ↦
      let h = find-Rows (λ (t : PutawayTask). pos 0 ≤ℤ t.quantity) id s.tasks p.incoming known in
      elim (Bool-cases (is_pending task.status)) [
        | inr ended ↦ rw (known, ended) p
        | inl going ↦
            rw (known, going)
              (Keeps-bind IsPromisable (bin_of task)
                (λ found.
                  throw_if (not (scanned == found.1.code)) Error.bad_request
                  >> (λ s. confirm_bin_location env (confirmation_of task found s) s)
                  >> modify (shelve env id user_id task found.0))
                (λ t q. q)
                (λ found.
                  Keeps-bind IsPromisable
                    (throw_if (not (scanned == found.1.code)) Error.bad_request >> λ s.
                      confirm_bin_location env (confirmation_of task found s) s)
                    (λ _. modify (shelve env id user_id task found.0))
                    (Keeps-bind IsPromisable
                      (throw_if (not (scanned == found.1.code)) Error.bad_request)
                      (λ _ s. confirm_bin_location env (confirmation_of task found s) s) (λ t q. q)
                      (λ _ t q. confirm-Keeps env (confirmation_of task found t) t q))
                    (λ _ t q. shelve-IsPromisable env id user_id task found.0 t h q))
                s p)
      ]
]

-- The calls that change the warehouse.
pub data Step : Type 0 where
  receives : Env → GoodsReceivedEvent → Step
  assigns : Env → ℕ → Option ℕ → Step
  puts_away : Env → ℕ → ℕ → ℕ → Step
  transfers : Env → CreateTransfer → ℕ → Step
  picks : Env → ℕ → ℕ → ℕ → Step

abbrev pub take_step : Step → Warehouse → Warehouse
take_step (Step.receives env event) s = create_from_goods_received env event s
take_step (Step.assigns env id code) s = (assign env id code s).1
take_step (Step.puts_away env id scanned user_id) s = (complete env id scanned user_id s).1
take_step (Step.transfers env dto user_id) s = (create_transfer env dto user_id s).1
take_step (Step.picks env id scanned user_id) s = (complete_pick env id scanned user_id s).1

abbrev pub run_steps : List Step → Warehouse → Warehouse
run_steps [] s = s
run_steps (step ∷ steps) s = run_steps steps (take_step step s)

take_step-IsPromisable :
    (step : Step) (s : Warehouse) → IsPromisable s → IsPromisable (take_step step s)
unfolding create_from_goods_received
take_step-IsPromisable (Step.receives env event) s p =
    receive_lines-IsPromisable env event event.lines s p
take_step-IsPromisable (Step.assigns env id code) s p = assign-Keeps env id code s p
take_step-IsPromisable (Step.puts_away env id scanned user_id) s p =
    complete-Keeps env id scanned user_id s p
take_step-IsPromisable (Step.transfers env dto user_id) s p =
    create_transfer-Keeps env dto user_id s p
take_step-IsPromisable (Step.picks env id scanned user_id) s p =
    complete_pick-Keeps env id scanned user_id s p

-- Whatever arrives, is put away, is asked for and is picked, in any order: of each SKU, no bin owes
-- more to open picks than it holds.
pub run_steps-IsPromisable :
    (steps : List Step) (s : Warehouse) → IsPromisable s → IsPromisable (run_steps steps s)
run_steps-IsPromisable [] s p = p
run_steps-IsPromisable (step ∷ steps) s p =
    run_steps-IsPromisable steps (take_step step s) (take_step-IsPromisable step s p)
