-- ===== src/Warehouse/Directions.antt =====
-- The assignment of bins to putaway tasks, and the open picks
-- (services/warehouse-operations/src/putaway/putaway.service.ts).
use merchandising_funnel_aut.Common.{
  ◌==◌, Bool-cases, Option-cases, number_key, pair_key, find_where, ℕ, ◌≡◌, refl, ◌⊎◌, inl, inr,
  Bool, true, not, ◌&&◌, Option, none, some, List, [], ◌∷◌, arith,
}
use merchandising_funnel_aut.Events.{Condition, GoodsReceivedLine, GoodsReceivedEvent}
use merchandising_funnel_aut.Common.Action.{
  Error, or_throw, lift, Keeps, Keeps-bind, Keeps-or_throw,
}
use merchandising_funnel_aut.Common.Int.{◌≤ℤ◌, ltb_ℤ, pos}
use merchandising_funnel_aut.Common.Table.{find, create-Rows, Rows-update}
use merchandising_funnel_aut.Warehouse.Bins.{BinCandidate, Footprint, footprint_for}
use merchandising_funnel_aut.Warehouse.Promises.{IsPromisable}
use merchandising_funnel_aut.Warehouse.Putaway.{
  candidates_for, is_high_velocity, choose_bin, directed, direct_to, assign_bin, is_pending,
  assert_pending, assign, is_for_line, any_task, new_task, is_put_away, create_task, receive_line,
  receive_lines,
}
use merchandising_funnel_aut.Warehouse.State.{PutawayTask, Warehouse, Env}

directed-IsPromisable :
    (id : ℕ) (task : PutawayTask) (footprint : Footprint) (chosen : BinCandidate)
    → Keeps IsPromisable (direct_to id task footprint chosen)
unfolding direct_to
directed-IsPromisable id task footprint chosen s p = record {
  keyed = p.keyed;
  covered = p.covered;
  incoming = Rows-update _ id (directed footprint chosen.id) s.tasks (λ t h. h) p.incoming;
}

choose_bin-Keeps :
    (candidates : List BinCandidate) (footprint : Footprint) (high_velocity : Bool)
    (code : Option ℕ)
    → Keeps IsPromisable (choose_bin candidates footprint high_velocity code)
unfolding choose_bin
choose_bin-Keeps candidates footprint v none s p = Keeps-or_throw IsPromisable _ _ s p
choose_bin-Keeps candidates footprint v (some code) s p =
    Keeps-bind IsPromisable
      (or_throw (find_where (λ (b : BinCandidate). b.code == code) candidates) Error.not_found) _
      (Keeps-or_throw IsPromisable _ _) (λ _. Keeps-or_throw IsPromisable _ _) s p

assign_bin-Keeps :
    (env : Env) (id : ℕ) (task : PutawayTask) (code : Option ℕ)
    → Keeps IsPromisable (assign_bin env id task code)
unfolding assign_bin
assign_bin-Keeps env id task code s p =
    Keeps-bind IsPromisable (lift (env.get_item_attributes task.sku)) _ (λ t q. q)
      (λ attributes.
        Keeps-bind IsPromisable
          (choose_bin (candidates_for task s.bins) (footprint_for attributes task.quantity)
            (is_high_velocity env attributes) code)
          _
          (choose_bin-Keeps (candidates_for task s.bins) (footprint_for attributes task.quantity)
            (is_high_velocity env attributes) code)
          (directed-IsPromisable id task (footprint_for attributes task.quantity)))
      s p

assert_pending-Keeps : (task : PutawayTask) → Keeps IsPromisable (assert_pending task)
assert_pending-Keeps task s p = p

pub assign-Keeps : (env : Env) (id : ℕ) (code : Option ℕ) → Keeps IsPromisable (assign env id code)
unfolding assign
assign-Keeps env id code s p = elim (Option-cases (find id s.tasks)) [
  | inl unknown ↦ rw unknown p
  | inr (task, known) ↦ elim (Bool-cases (is_pending task.status)) [
    | inr ended ↦ rw (known, ended) p
    | inl going ↦ rw (known, going) (assign_bin-Keeps env id task code s p)
  ]
]

Condition-cases : (c : Condition) → (c ≡ Condition.good) ⊎ (c ≡ Condition.damaged)
Condition-cases Condition.good = inl refl
Condition-cases Condition.damaged = inr refl

put_away_positive :
    (line : GoodsReceivedLine) → is_put_away line ≡ true → pos 0 ≤ℤ line.quantity_received
put_away_positive line h = elim (Condition-cases line.condition) [
  | inl good ↦ let more : ltb_ℤ (pos 0) line.quantity_received ≡ true = rw good at h in ground arith
  | inr damaged ↦ absurd (cc (rw damaged at h))
]

create_task-IsPromisable :
    (env : Env) (event : GoodsReceivedEvent) (line : GoodsReceivedLine) (s : Warehouse)
    → is_put_away line ≡ true
    → IsPromisable s
    → IsPromisable (create_task env event line s)
unfolding create_task
create_task-IsPromisable env event line s good p =
    assign_bin-Keeps env s.next_id (new_task event line) none _ (record {
      keyed = p.keyed;
      covered = p.covered;
      incoming =
          create-Rows _ s.next_id (new_task event line) s.tasks p.incoming
            (put_away_positive line good);
    })

receive_line-IsPromisable :
    (env : Env) (event : GoodsReceivedEvent) (line : GoodsReceivedLine) (s : Warehouse)
    → IsPromisable s
    → IsPromisable (receive_line env event line s)
unfolding receive_line
receive_line-IsPromisable env event line s p =
    elim (Bool-cases (
      is_put_away line
      && not (any_task (is_for_line event.goods_received_note_number line.sku) s.tasks))) [
        | inl fresh ↦ rw fresh (create_task-IsPromisable env event line s (ground arith) p)
        | inr other ↦ rw other p
      ]

pub receive_lines-IsPromisable :
    (env : Env) (event : GoodsReceivedEvent) (lines : List GoodsReceivedLine) (s : Warehouse)
    → IsPromisable s
    → IsPromisable (receive_lines env event lines s)
unfolding receive_lines
receive_lines-IsPromisable env event [] s p = p
receive_lines-IsPromisable env event (line ∷ lines) s p =
    receive_lines-IsPromisable env event lines (receive_line env event line s)
      (receive_line-IsPromisable env event line s p)
