-- ===== src/Warehouse/Rounds.antt =====
-- The picking of a transfer, and the open picks
-- (services/warehouse-operations/src/transfers/transfers.service.ts).
use merchandising_funnel_aut.Common.{
  ◌==◌, if◌then◌else◌, ==_iff, Bool-cases, Option-cases, number_key, same_pair, same_pair_iff,
  pair_key, same_pair_refl, ℕ, ◌≡◌, refl, subst, inl, inr, true, false, Option, none, some, arith,
}
use merchandising_funnel_aut.Events.{StockTransferredEvent}
use merchandising_funnel_aut.Common.Action.{
  Error, throw, or_throw, Keeps, Keeps-bind, Keeps-or_throw,
}
use merchandising_funnel_aut.Common.Int.{ℤ, ◌+ℤ◌, ◌-ℤ◌, ◌≤ℤ◌, ltb_ℤ, parts_same, pos, int_laws}
use merchandising_funnel_aut.Common.Table.{Table, find, update, find-update, total-update}
use merchandising_funnel_aut.Warehouse.Offers.{update-IsKeyed, on_shelf}
use merchandising_funnel_aut.Warehouse.Picking.{
  is_picking, transferred_event, complete_ready, complete_if_all_picked, picked_task, take_from,
  write_pick, pick_confirmation, complete_pending, retry_completion, complete_pick,
}
use merchandising_funnel_aut.Warehouse.Promises.{IsPromisable}
use merchandising_funnel_aut.Warehouse.State.{
  Env, publish, BinStock, Transfer, PickTask, Confirmation, Warehouse, confirm_bin_location,
}
use merchandising_funnel_aut.Warehouse.Transfers.{is_open, promise_of, promised_from}

paid_out :
    (after q before nothing shelf : ℤ)
    → after +ℤ q ≡ before +ℤ nothing
    → nothing ≡ pos 0
    → before ≤ℤ shelf
    → after ≤ℤ shelf -ℤ q
paid_out after q before nothing shelf h n c =
    let e = parts_same _ _ h in let f = parts_same _ _ n in omega int_laws

untouched :
    (after q before nothing shelf : ℤ)
    → after +ℤ q ≡ before +ℤ nothing
    → q ≡ pos 0
    → nothing ≡ pos 0
    → before ≤ℤ shelf
    → after ≤ℤ shelf
untouched after q before nothing shelf h n m c =
    let e = parts_same _ _ h in
    let f = parts_same _ _ n in let g = parts_same _ _ m in omega int_laws

promise_of_own :
    (pick : PickTask)
    → is_open pick.status ≡ true
    → promise_of pick.bin_id pick.sku pick ≡ pick.quantity
promise_of_own pick h =
    rw (h, (==_iff pick.bin_id pick.bin_id).1 refl, (==_iff pick.sku pick.sku).1 refl) refl

promise_of_other :
    (b k : ℕ) (pick : PickTask)
    → same_pair (pick.bin_id, pick.sku) (b, k) ≡ false
    → promise_of b k pick ≡ pos 0
promise_of_other b k pick h = ground arith

promise_of_picked :
    (b k : ℕ) (env : Env) (user_id : ℕ) (pick : PickTask)
    → promise_of b k (picked_task env user_id pick) ≡ pos 0
promise_of_picked b k env user_id pick = refl

on_shelf_own :
    (pick : PickTask) (stock : BinStock) (t : Table (ℕ × ℕ) BinStock)
    → find (pick.bin_id, pick.sku) t ≡ some stock
    → on_shelf pick.bin_id pick.sku (update (pick.bin_id, pick.sku) (take_from pick) t)
      ≡ on_shelf pick.bin_id pick.sku t -ℤ pick.quantity
on_shelf_own pick stock t h = rw (find-update, same_pair_refl, h) refl

own_promise :
    (env : Env) (id user_id : ℕ) (pick : PickTask) (stock : BinStock) (s : Warehouse)
    → find id s.picks ≡ some pick
    → is_open pick.status ≡ true
    → find (pick.bin_id, pick.sku) s.stock ≡ some stock
    → IsPromisable s
    → promised_from pick.bin_id pick.sku (update id (picked_task env user_id) s.picks)
      ≤ℤ on_shelf pick.bin_id pick.sku (update (pick.bin_id, pick.sku) (take_from pick) s.stock)
own_promise env id user_id pick stock s known pending held p =
    let moved =
      total-update (promise_of pick.bin_id pick.sku) id (picked_task env user_id) s.picks known in
    rw (on_shelf_own pick stock s.stock held) (
      paid_out _ pick.quantity _ _ _ (rw (promise_of_own pick pending) at moved)
        (promise_of_picked pick.bin_id pick.sku env user_id pick) (p.covered pick.bin_id pick.sku))

-- A pick that is made: the bin holds less, and owes as much less.
write_pick-IsPromisable :
    (env : Env) (id user_id : ℕ) (pick : PickTask) (stock : BinStock) (s : Warehouse)
    → find id s.picks ≡ some pick
    → is_open pick.status ≡ true
    → find (pick.bin_id, pick.sku) s.stock ≡ some stock
    → IsPromisable s
    → IsPromisable (write_pick env id user_id pick stock s)
unfolding write_pick
write_pick-IsPromisable env id user_id pick stock s known pending held p = record {
  keyed = update-IsKeyed (pick.bin_id, pick.sku) (take_from pick) s.stock p.keyed;
  covered = λ b k. elim (Bool-cases (same_pair (pick.bin_id, pick.sku) (b, k))) [
    | inl here ↦
        subst
          (λ j.
            promised_from j.0 j.1 (update id (picked_task env user_id) s.picks)
            ≤ℤ on_shelf j.0 j.1 (update (pick.bin_id, pick.sku) (take_from pick) s.stock))
          {x = (pick.bin_id, pick.sku)} {y = (b, k)} ((same_pair_iff _ _).0 here)
          (own_promise env id user_id pick stock s known pending held p)
    | inr there ↦
        rw (find-update, there)
          (untouched _ _ _ _ _
            (total-update (promise_of b k) id (picked_task env user_id) s.picks known)
            (promise_of_other b k pick there) (promise_of_picked b k env user_id pick)
            (p.covered b k))
  ];
  incoming = p.incoming;
}

-- Calls that touch neither stock, picks nor tasks.
pub confirm-Keeps : (env : Env) (c : Confirmation) → Keeps IsPromisable (confirm_bin_location env c)
confirm-Keeps env c s p = ground (arith, p)

publish-Keeps : (env : Env) (event : StockTransferredEvent) → Keeps IsPromisable (publish env event)
publish-Keeps env event s p = ground (arith, p)

complete_ready-Keeps :
    (env : Env) (id : ℕ) (found : Option Transfer)
    → Keeps IsPromisable (complete_ready env id found)
unfolding complete_ready
complete_ready-Keeps env id none s p = p
complete_ready-Keeps env id (some t) s p =
    Keeps-bind IsPromisable (publish env (transferred_event env t)) _ (publish-Keeps env _)
      (λ _ u q. q) s p

complete_if_all_picked-Keeps :
    (env : Env) (id : ℕ) → Keeps IsPromisable (complete_if_all_picked env id)
unfolding complete_if_all_picked
complete_if_all_picked-Keeps env id s p = complete_ready-Keeps env id _ s p

retry_completion-Keeps :
    (env : Env) (pick : PickTask) → Keeps IsPromisable (retry_completion env pick)
retry_completion-Keeps env pick s p =
    Keeps-bind IsPromisable (or_throw (find pick.transfer_id s.transfers) Error.not_found)
      (λ t.
        if is_picking t.status
        then complete_if_all_picked env pick.transfer_id
        else throw Error.bad_request)
      (Keeps-or_throw IsPromisable (find pick.transfer_id s.transfers) Error.not_found)
      (λ t u q. elim (Bool-cases (is_picking t.status)) [
        | inl going ↦ rw going (complete_if_all_picked-Keeps env pick.transfer_id u q)
        | inr ended ↦ rw ended q
      ])
      s p

complete_pending-Keeps :
    (env : Env) (id scanned user_id : ℕ) (pick : PickTask) (s : Warehouse)
    → find id s.picks ≡ some pick
    → is_open pick.status ≡ true
    → IsPromisable s
    → IsPromisable (complete_pending env id scanned user_id pick s).1
unfolding complete_pending
complete_pending-Keeps env id scanned user_id pick s known pending p =
    elim (Option-cases (find pick.bin_id s.bins)) [
      | inl lost ↦ rw lost p
      | inr (bin, there) ↦ elim (Bool-cases (scanned == bin.code)) [
        | inr wrong ↦ rw (there, wrong) p
        | inl right ↦ elim (Option-cases (find (pick.bin_id, pick.sku) s.stock)) [
          | inl gone ↦ rw (there, right, gone) p
          | inr (stock, held) ↦ elim (Bool-cases (ltb_ℤ stock.quantity pick.quantity)) [
            | inl short ↦ rw (there, right, held, short) p
            | inr enough ↦
                let taken =
                  write_pick-IsPromisable env id user_id pick stock s known pending held p in
                rw (there, right, held, enough)
                  (complete_if_all_picked-Keeps env pick.transfer_id _
                    (confirm-Keeps env (pick_confirmation pick bin stock) _ taken))
          ]
        ]
      ]
    ]

pub complete_pick-Keeps :
    (env : Env) (id scanned user_id : ℕ) → Keeps IsPromisable (complete_pick env id scanned user_id)
unfolding complete_pick
complete_pick-Keeps env id scanned user_id s p = elim (Option-cases (find id s.picks)) [
  | inl unknown ↦ rw unknown p
  | inr (pick, known) ↦ elim (Bool-cases (is_open pick.status)) [
    | inl pending ↦
        rw (known, pending) (complete_pending-Keeps env id scanned user_id pick s known pending p)
    | inr done ↦ rw (known, done) (retry_completion-Keeps env pick s p)
  ]
]
