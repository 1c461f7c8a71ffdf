-- ===== src/Inventory/StockCounts/Settling.antt =====
-- The posting of a stock count as a whole
-- (services/inventory/src/stock-counts/stock-counts.service.ts).
use merchandising_funnel_aut.Common.{
  if◌then◌else◌, Bool-cases, Option-cases, number_key, pair_key, ℕ, ◌≡◌, refl, ap, ◌∙◌, ◌⊎◌, inl,
  inr, true, some, List, [], ◌∷◌, arith,
}
use merchandising_funnel_aut.Common.Action.{Error, Keeps-bind, Result-cases, ok, err}
use merchandising_funnel_aut.Common.Table.{find, update}
use merchandising_funnel_aut.Inventory.State.{Env, Event, Inventory}
use merchandising_funnel_aut.Inventory.StockCounts.{
  StockCountStatus, StockCount, Counts, is_submitted,
}
use merchandising_funnel_aut.Inventory.StockCounts.Booked.{
  IsPosted, post_change_lem, post_changes-IsPosted,
}
use merchandising_funnel_aut.Inventory.StockCounts.Posting.{
  Change, changes_of, post_change, post_changes, posted_count, post_body, posting_event,
  publish_posting, post,
}

is_submitted-only : (s : StockCountStatus) → is_submitted s ≡ true → s ≡ StockCountStatus.submitted
is_submitted-only StockCountStatus.opened h = absurd (cc h)
is_submitted-only StockCountStatus.submitted h = refl
is_submitted-only StockCountStatus.posted h = absurd (cc h)
is_submitted-only StockCountStatus.cancelled h = absurd (cc h)

-- A posting keeps what was published; only the event after it adds to that.
post_change-published :
    (env : Env) (count : StockCount) (c : Change) (s : Inventory)
    → (post_change env count c s).1.published ≡ s.published
post_change-published env count c s = rw (post_change_lem env count c s) (ground arith)

post_changes-published :
    (env : Env) (count : StockCount) (changes : List Change) (s : Inventory)
    → (post_changes env count changes s).1.published ≡ s.published
unfolding post_changes
post_changes-published env count [] s = refl
post_changes-published env count (c ∷ changes) s =
    Keeps-bind (λ (t : Inventory). t.published ≡ s.published) (post_change env count c)
      (λ _. post_changes env count changes) (λ t h. post_change-published env count c t ∙ h)
      (λ _ t h. post_changes-published env count changes t ∙ h) s refl

abbrev pub announced : Env → ℕ → StockCount → List Change → List Event → List Event
announced env user_id count [] events = events
announced env user_id count (c ∷ cs) events =
    Event.stock_adjusted (posting_event env user_id count (c ∷ cs)) ∷ events

abbrev pub publications : Env → ℕ → StockCount → Inventory → List Event
publications env user_id count s =
    if env.bus_up
    then announced env user_id count (changes_of count.lines) s.published
    else s.published

publish_posting_lem :
    (env : Env) (user_id : ℕ) (count : StockCount) (changes : List Change) (s : Counts)
    → let events =
        if env.bus_up
        then announced env user_id count changes s.inventory.published
        else s.inventory.published in
      (publish_posting env user_id (count, changes) s).1
      ≡ record s { inventory = record s.inventory { published = events } }
unfolding publish_posting
publish_posting_lem env user_id count [] s = elim (Bool-cases env.bus_up) [
  | inl up ↦ rw up refl
  | inr down ↦ rw down refl
]
publish_posting_lem env user_id count (c ∷ changes) s = elim (Bool-cases env.bus_up) [
  | inl up ↦ rw up refl
  | inr down ↦ rw down refl
]

-- A count that is posted: it was submitted, every change is made, its status is the last word, and
-- the bus, where it takes it, has the event of the changes.
pub record IsBooked (env : Env) (id user_id : ℕ) (s t : Counts) : Type 0 where
  pub count : StockCount
  pub known : find id s.counts ≡ some count
  pub was_submitted : count.status ≡ StockCountStatus.submitted
  pub booked : IsPosted count (changes_of count.lines) s.inventory t.inventory
  pub closed : t.counts ≡ update id (posted_count env user_id) s.counts
  pub told : t.inventory.published ≡ publications env user_id count s.inventory

IsPosted-published :
    (count : StockCount) (changes : List Change) (s t : Inventory) (events : List Event)
    → IsPosted count changes s t
    → IsPosted count changes s (record t { published = events })
IsPosted-published count changes s t events p = record {
  moved = p.moved;
  allocated_stays = p.allocated_stays;
  not_below = p.not_below;
  reserved_stays = p.reserved_stays;
  consistent = p.consistent;
}

posted_lem :
    (env : Env) (id user_id : ℕ) (s : Counts) (count : StockCount)
    → find id s.counts ≡ some count
    → is_submitted count.status ≡ true
    → (a : Unit {0})
    → let made = post_changes env count (changes_of count.lines) s.inventory in
      made ≡ (ok a, made.1)
      → IsBooked env id user_id s
          (publish_posting env user_id
            (count, changes_of count.lines)
            (record s {
              inventory = made.1;
              counts = update id (posted_count env user_id) s.counts;
            })).1
posted_lem env id user_id s count known submitted a fine = rw publish_posting_lem (record {
  count = count;
  known = known;
  was_submitted = is_submitted-only count.status submitted;
  booked =
      IsPosted-published count (changes_of count.lines) s.inventory _ _
        (post_changes-IsPosted env count (changes_of count.lines) s.inventory fine);
  closed = refl;
  told = rw (post_changes-published env count (changes_of count.lines) s.inventory) refl;
})

-- Posting a count either throws and changes nothing, or the count was submitted and the stock moves
-- by exactly the differences between what was counted and what was expected, none of these products
-- ends below zero at the location, what is allocated stays, the log agrees, the count is closed, and
-- the differences are published in one event where there are any and the bus takes it.
pub post_all_or_nothing :
    (env : Env) (id user_id : ℕ) (s : Counts)
    → let r = post env id user_id s in
      ((e : Error) × (r ≡ (err e, s))) ⊎ IsBooked env id user_id s r.1
unfolding post post_body
post_all_or_nothing env id user_id s = elim (Option-cases (find id s.counts)) [
  | inl unknown ↦ inl (Error.not_found, rw unknown refl)
  | inr (count, known) ↦ elim (Bool-cases (is_submitted count.status)) [
    | inr early ↦ inl (Error.conflict, rw (known, early) refl)
    | inl submitted ↦
        let changes = changes_of count.lines in
        let made = post_changes env count changes s.inventory in
        elim (Result-cases made.0) [
          | inl (e, below) ↦ inl (e, rw (known, submitted, below) refl)
          | inr (a, fine) ↦
              rw (known, submitted, fine)
                (inr (
                  posted_lem env id user_id s count known submitted a (ap (λ r. (r, made.1)) fine)))
        ]
  ]
]
