-- ===== src/Inventory/StockCounts/Rules.antt =====
-- Sequences of calls on stock counts, and the active counts of a location
-- (services/inventory/src/stock-counts/stock-counts.service.ts).
use mathlib.Core.Option
use merchandising_funnel_aut.Common.{
  ◌==◌, if◌then◌else◌, Bool-cases, Option-cases, number_key, pair_key, every, any, ℕ, suc, ◌≤◌, ◌≡◌,
  refl, sym, ◌∙◌, subst, inl, inr, Bool, true, false, not, ◌&&◌, some, List, [], ◌∷◌, arith,
}
use merchandising_funnel_aut.Common.Action.{Error, Action, ◌>>=◌, ◌>>◌, throw_if, modify, Keeps}
use merchandising_funnel_aut.Common.Int.{ℤ}
use merchandising_funnel_aut.Common.Table.{Table, find, create, update}
use merchandising_funnel_aut.Inventory.Checkout.{refused}
use merchandising_funnel_aut.Inventory.Consistency.{step}
use merchandising_funnel_aut.Inventory.State.{Env, Product}
use merchandising_funnel_aut.Inventory.StockCounts.{
  is_active, StockCount, Counts, CreateStockCount, is_opened, is_empty, is_wrong_scope, active_at,
  products_in_scope, products_to_count, new_count, open_count, create_count,
}
use merchandising_funnel_aut.Inventory.StockCounts.Counting.{
  record_count, submit, UncountedHandling, count_line, record_line, is_missing, is_reject,
  is_zeroed, submitted_count, nothing_counted, cancel,
}
use merchandising_funnel_aut.Inventory.StockCounts.Posting.{post}
use merchandising_funnel_aut.Inventory.StockCounts.Settling.{post_all_or_nothing}

-- How many counts hold a location.
abbrev pub active_counts : ℕ → Table ℕ StockCount → ℕ
active_counts l [] = 0
active_counts l ((_, c) ∷ t) =
    if c.location_code == l && is_active c.status
    then suc (active_counts l t)
    else active_counts l t

abbrev pub IsExclusive : Counts → Type 0
IsExclusive s = (l : ℕ) → active_counts l s.counts ≤ 1

active_counts-none :
    (l : ℕ) (t : Table ℕ StockCount) → active_at l t ≡ false → active_counts l t ≡ 0
active_counts-none l [] h = refl
active_counts-none l ((_, c) ∷ t) h = let rest = active_counts-none l t in ground (arith, rest)

active_counts-create :
    (l id : ℕ) (c : StockCount) (t : Table ℕ StockCount)
    → active_counts l (create id c t) ≡ (
        if c.location_code == l && is_active c.status
        then suc (active_counts l t)
        else active_counts l t)
active_counts-create l id c [] = refl
active_counts-create l id c ((j, d) ∷ t) = rw (active_counts-create l id c t) (ground arith)

-- A change of a count that neither moves it nor wakes it up.
abbrev pub Calms : (StockCount → StockCount) → StockCount → Type 0
Calms f c =
    ((f c).location_code ≡ c.location_code)
    × (is_active (f c).status ≡ true → is_active c.status ≡ true)

calm_le :
    (b u v : Bool) (n : ℕ)
    → (u ≡ true → v ≡ true)
    → (if b && u then suc n else n) ≤ (if b && v then suc n else n)
calm_le true true v n h = rw (h refl) (omega arith)
calm_le true false true n h = omega arith
calm_le true false false n h = omega arith
calm_le false u v n h = omega arith

active_counts-update :
    (l id : ℕ) (f : StockCount → StockCount) (t : Table ℕ StockCount)
    → ((c : StockCount) → find id t ≡ some c → Calms f c)
    → active_counts l (update id f t) ≤ active_counts l t
active_counts-update l id f [] h = omega arith
active_counts-update l id f ((j, c) ∷ t) h = elim (Bool-cases (j == id)) [
  | inl here ↦
      let (same, calm) = h c (rw here refl) in
      rw (here, same) (calm_le (c.location_code == l) _ _ _ calm)
  | inr there ↦
      let rest = active_counts-update l id f t (rw there at h) in rw there (ground (arith, rest))
]

-- A change of the count that was found, if it is calm there.
update-IsExclusive :
    (id : ℕ) (f : StockCount → StockCount) (count : StockCount) (s : Counts)
    → find id s.counts ≡ some count
    → Calms f count
    → IsExclusive s
    → (l : ℕ) → active_counts l (update id f s.counts) ≤ 1
update-IsExclusive id f count s known calm e l =
    let fewer =
      active_counts-update l id f s.counts
        λ c found. subst (Calms f) (Option.some-injective count c (sym known ∙ found)) calm in
    let one = e l in omega arith

opened-IsExclusive :
    (env : Env) (dto : CreateStockCount) (user_id : ℕ) (s : Counts)
    → active_at dto.location_code s.counts ≡ false
    → IsExclusive s
    → IsExclusive
        ((products_to_count dto >>= λ products.
            throw_if (is_empty products) Error.bad_request
            >> modify (open_count env dto user_id products))
          s).1
unfolding products_to_count new_count
opened-IsExclusive env dto user_id s free e =
    let products = products_in_scope dto s s.inventory.products in
    elim (Bool-cases (every (λ sku. any (λ (p : Product). p.sku == sku) products) dto.skus)) [
      | inr unknown ↦ rw unknown e
      | inl known ↦ elim (Bool-cases (is_empty products)) [
        | inl nothing ↦ rw (known, nothing) e
        | inr something ↦
            let none_here = active_counts-none dto.location_code s.counts free in
            rw (known, something) (λ l. rw active_counts-create (ground (arith, e l, none_here)))
      ]
    ]

create_count-IsExclusive :
    (env : Env) (dto : CreateStockCount) (user_id : ℕ)
    → Keeps IsExclusive (create_count env dto user_id)
unfolding create_count products_to_count new_count
create_count-IsExclusive env dto user_id s e = elim (Bool-cases (is_wrong_scope dto)) [
  | inl wrong ↦ rw wrong e
  | inr right ↦ elim (Bool-cases (active_at dto.location_code s.counts)) [
    | inl taken ↦ rw (right, taken) e
    | inr free ↦ rw (right, free) (opened-IsExclusive env dto user_id s free e)
  ]
]

record_count-IsExclusive :
    (env : Env) (id sku : ℕ) (counted : ℤ) (user_id : ℕ)
    → Keeps IsExclusive (record_count env id sku counted user_id)
unfolding record_count record_line
record_count-IsExclusive env id sku counted user_id s e = elim (Option-cases (find id s.counts)) [
  | inl unknown ↦ rw unknown e
  | inr (count, known) ↦ elim (Bool-cases (is_opened count.status)) [
    | inr closed ↦ rw (known, closed) e
    | inl opened ↦ elim (Option-cases (count_line env sku counted user_id count.lines)) [
      | inr (lines, counted) ↦
          rw (known, opened, counted) (update-IsExclusive id _ count s known (refl, λ a. a) e)
      | inl missing ↦ elim (Option-cases (find sku s.inventory.products)) [
        | inl no_product ↦ rw (known, opened, missing, no_product) e
        | inr (p, product) ↦
            rw (known, opened, missing, product)
              (update-IsExclusive id _ count s known (refl, λ a. a) e)
      ]
    ]
  ]
]

submit-IsExclusive :
    (env : Env) (id : ℕ) (uncounted : UncountedHandling) (user_id : ℕ)
    → Keeps IsExclusive (submit env id uncounted user_id)
unfolding submit submitted_count
submit-IsExclusive env id uncounted user_id s e = elim (Option-cases (find id s.counts)) [
  | inl unknown ↦ rw unknown e
  | inr (count, known) ↦ elim (Bool-cases (is_opened count.status)) [
    | inr closed ↦ rw (known, closed) e
    | inl opened ↦ elim (Bool-cases (any is_missing count.lines && is_reject uncounted)) [
      | inl refused ↦ rw (known, opened, refused) e
      | inr complete ↦ elim (Bool-cases (nothing_counted count && not (is_zeroed uncounted))) [
        | inl nothing ↦ rw (known, opened, complete, nothing) e
        | inr something ↦
            rw (known, opened, complete, something)
              (update-IsExclusive id _ count s known (refl, λ _. rw opened refl) e)
      ]
    ]
  ]
]

cancel-IsExclusive : (env : Env) (id user_id : ℕ) → Keeps IsExclusive (cancel env id user_id)
unfolding cancel
cancel-IsExclusive env id user_id s e = elim (Option-cases (find id s.counts)) [
  | inl unknown ↦ rw unknown e
  | inr (count, known) ↦ elim (Bool-cases (is_active count.status)) [
    | inr closed ↦ rw (known, closed) e
    | inl active ↦
        rw (known, active)
          (update-IsExclusive id _ count s known (refl, λ wrong. absurd (cc wrong)) e)
  ]
]

post-IsExclusive : (env : Env) (id user_id : ℕ) → Keeps IsExclusive (post env id user_id)
post-IsExclusive env id user_id s e = elim (post_all_or_nothing env id user_id s) [
  | inl (error, same) ↦ rw same e
  | inr booked ↦ λ l.
      rw (booked.closed)
        (update-IsExclusive id _ booked.count s booked.known (refl, λ wrong. absurd (cc wrong)) e l)
]

-- The calls of the service that change the counts.
pub data Step : Type 0 where
  creates : Env → CreateStockCount → ℕ → Step
  records : Env → ℕ → ℕ → ℤ → ℕ → Step
  submits : Env → ℕ → UncountedHandling → ℕ → Step
  posts : Env → ℕ → ℕ → Step
  cancels : Env → ℕ → ℕ → Step

abbrev pub take_step : Step → Action Counts (Unit {0})
take_step (Step.creates env dto user_id) = create_count env dto user_id
take_step (Step.records env id sku counted user_id) = record_count env id sku counted user_id
take_step (Step.submits env id uncounted user_id) = submit env id uncounted user_id
take_step (Step.posts env id user_id) = post env id user_id
take_step (Step.cancels env id user_id) = cancel env id user_id

abbrev pub run_steps : List Step → Counts → Counts
run_steps [] s = s
run_steps (step ∷ steps) s = run_steps steps (take_step step s).1

take_step-IsExclusive : (step : Step) → Keeps IsExclusive (take_step step)
take_step-IsExclusive (Step.creates env dto user_id) = create_count-IsExclusive env dto user_id
take_step-IsExclusive (Step.records env id sku counted user_id) =
    record_count-IsExclusive env id sku counted user_id
take_step-IsExclusive (Step.submits env id uncounted user_id) =
    submit-IsExclusive env id uncounted user_id
take_step-IsExclusive (Step.posts env id user_id) = post-IsExclusive env id user_id
take_step-IsExclusive (Step.cancels env id user_id) = cancel-IsExclusive env id user_id

-- Whatever calls are made, in any order, at most one count of a location is open or submitted.
pub run_steps-IsExclusive :
    (steps : List Step) (s : Counts) → IsExclusive s → IsExclusive (run_steps steps s)
run_steps-IsExclusive [] s e = e
run_steps-IsExclusive (step ∷ steps) s e =
    run_steps-IsExclusive steps (take_step step s).1 (take_step-IsExclusive step s e)
