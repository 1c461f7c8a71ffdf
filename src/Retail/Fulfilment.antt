-- ===== src/Retail/Fulfilment.antt =====
-- Inventory as the stock service of a checkout
-- (services/inventory/src/grpc/inventory-stock.grpc-controller.ts): the two calls that it answers.
use merchandising_funnel_aut.Inventory.State.{
  Env, Product, StockLevel, Reservation, ReservationStatus, Inventory, available, upsert_level,
  change_level, record_transaction,
}
use merchandising_funnel_aut.Inventory.Reservations.{
  StockCheckOutcome, reserve_stock, check_and_reserve, check_level, reserve_product, reserve,
  active_reservation, release_active, release_found, release_reservation,
}
use merchandising_funnel_aut.Common.{
  ◌==◌, if◌then◌else◌, ==_iff, Bool-cases, Option-cases, number_key, pair_key, ℕ, suc, ◌≤◌, ◌≡◌,
  refl, sym, ap, ◌∙◌, inl, inr, true, false, Option, none, some, arith,
}
use merchandising_funnel_aut.Common.Action.{Error, Result, ok-injective, ok, err}
use merchandising_funnel_aut.Common.Int.{ℤ, ltb_ℤ}
use merchandising_funnel_aut.Common.Table.{find, create, find-update, find-create}
use merchandising_funnel_aut.Retail.Stock.{StockAnswer, StockService, StockLaws}

-- An identifier that is not given is passed on as the empty text, number 0.
abbrev pub id_or_empty : Option ℕ → ℕ
id_or_empty none = 0
id_or_empty (some id) = id

abbrev pub stock_answer : StockCheckOutcome → StockAnswer
stock_answer outcome = record {
  available = outcome.available;
  reservation_id = id_or_empty outcome.reservation_id;
}

-- Whatever the call throws reaches the checkout as one exception.
abbrev pub answered : Result StockCheckOutcome → Result StockAnswer
answered (ok outcome) = ok (stock_answer outcome)
answered (err e) = err Error.unavailable

-- The gRPC controller and the client before it, where the call comes through.
unfoldable pub inventory_stock : Env → StockService Inventory
inventory_stock env = record {
  check_and_reserve_stock = λ sku location_code quantity reference s.
      let r = reserve env sku location_code quantity reference s in (answered r.0, r.1);
  release_reservation = λ id s. let r = release_reservation env id s in (ok r.0, r.1);
}

-- Identifiers that are not given out yet are of no reservation.
abbrev pub IsFresh : Inventory → Type 0
IsFresh s = (j : ℕ) → s.next_id ≤ j → find j s.reservations ≡ none

abbrev pub held_quantity : Option Reservation → Option ℤ
held_quantity none = none
held_quantity (some r) = some r.quantity

-- What an active reservation keeps from the stock.
abbrev pub held_by : ℕ → Inventory → Option ℤ
held_by id s = held_quantity (active_reservation (find id s.reservations))

abbrev pub new_reservation : Product → ℕ → ℤ → ℕ → Reservation
new_reservation p location_code quantity reference = record {
  product_id = p.id;
  location_code = location_code;
  quantity = quantity;
  transaction_reference = reference;
  status = ReservationStatus.active;
}

-- What a stock check does to the reservations: nothing, or it adds one under the next identifier.
data Effect (location_code : ℕ) (quantity : ℤ) (reference : ℕ) (s : Inventory)
    : Result StockCheckOutcome → Inventory → Type 0 where
  refused :
      (r : Result StockCheckOutcome) (t : Inventory)
      → t.reservations ≡ s.reservations
      → t.next_id ≡ s.next_id
      → ((a : StockCheckOutcome) → r ≡ ok a → a.available ≡ false)
      → Effect location_code quantity reference s r t
  granted :
      (a : StockCheckOutcome) (t : Inventory) (p : Product)
      → t.reservations
        ≡ create s.next_id (new_reservation p location_code quantity reference) s.reservations
      → t.next_id ≡ suc (suc s.next_id)
      → a.available ≡ true
      → a.reservation_id ≡ some s.next_id
      → Effect location_code quantity reference s (ok a) t

module _ (env : Env) (location_code : ℕ) (quantity : ℤ) (reference : ℕ) where
  check_level-Effect :
      (p : Product) (found : Option StockLevel) (s t : Inventory)
      → t.reservations ≡ s.reservations
      → t.next_id ≡ s.next_id
      → let r = check_level env p location_code quantity reference found t in
        Effect location_code quantity reference s r.0 r.1
  unfolding check_level check_and_reserve reserve_stock record_transaction change_level
  check_level-Effect p none s t e f = refused _ _ e f (λ a h. absurd (cc h))
  check_level-Effect p (some level) s t e f = elim (Bool-cases (ltb_ℤ (available level) quantity)) [
    | inl short ↦
        rw short (refused _ _ e f (λ a h. ap (λ x. x.available) (sym (ok-injective _ _ h))))
    | inr enough ↦
        rw enough (granted _ _ p (rw (e, f) refl) (ap (λ n. suc (suc n)) f) refl (ap some f))
  ]

  reserve-Effect :
      (sku : ℕ) (s : Inventory)
      → let r = reserve env sku location_code quantity reference s in
        Effect location_code quantity reference s r.0 r.1
  unfolding reserve reserve_product upsert_level
  reserve-Effect sku s = elim (Option-cases (find sku s.products)) [
    | inl unknown ↦ rw unknown (refused _ _ refl refl (λ a h. absurd (cc h)))
    | inr (p, known) ↦ rw known (check_level-Effect p _ s _ refl refl)
  ]

-- The reservations under each branch of the effect, as what they hold.
held-new :
    (p : Product) (location_code : ℕ) (quantity : ℤ) (reference : ℕ) (s t : Inventory)
    → IsFresh s
    → t.reservations
      ≡ create s.next_id (new_reservation p location_code quantity reference) s.reservations
    → (j : ℕ) → held_by j t ≡ (if s.next_id == j then some quantity else held_by j s)
held-new p location_code quantity reference s t v e j =
    let free = v s.next_id (omega arith) in rw (e, find-create) (ground (arith, v j))

IsFresh-new :
    (p : Product) (location_code : ℕ) (quantity : ℤ) (reference : ℕ) (s t : Inventory)
    → IsFresh s
    → t.reservations
      ≡ create s.next_id (new_reservation p location_code quantity reference) s.reservations
    → t.next_id ≡ suc (suc s.next_id)
    → IsFresh t
IsFresh-new p location_code quantity reference s t v e f j h =
    let free = v j (omega arith) in rw (e, find-create, free) (ground arith)

Effect-IsFresh :
    (location_code : ℕ) (quantity : ℤ) (reference : ℕ) (s : Inventory)
    (r : Result StockCheckOutcome) (t : Inventory)
    → Effect location_code quantity reference s r t
    → IsFresh s
    → IsFresh t
Effect-IsFresh location_code quantity reference s _ t (refused _ _ e f h) v =
    λ j le. rw e (v j (rw f at le))
Effect-IsFresh location_code quantity reference s _ t (granted a _ p e f g i) v =
    IsFresh-new p location_code quantity reference s t v e f

release_found-held :
    (env : Env) (id : ℕ) (found : Option Reservation) (s : Inventory) (j : ℕ)
    → active_reservation (find id s.reservations) ≡ found
    → held_by j (release_found env id found s).1 ≡ (if id == j then none else held_by j s)
unfolding release_found release_active record_transaction change_level
release_found-held env id none s j e = ground (arith, e, ==_iff id j)
release_found-held env id (some r) s j e = rw find-update (ground (arith, e, ==_iff id j))

release_found-IsFresh :
    (env : Env) (id : ℕ) (found : Option Reservation) (s : Inventory)
    → IsFresh s
    → IsFresh (release_found env id found s).1
unfolding release_found release_active record_transaction change_level
release_found-IsFresh env id none s v j le = v j le
release_found-IsFresh env id (some r) s v j le = rw (find-update, v j (omega arith)) (ground arith)

module _ (location_code : ℕ) (quantity : ℤ) (reference : ℕ) (s : Inventory) where
  Effect-refused :
      (r : Result StockCheckOutcome) (t : Inventory)
      → Effect location_code quantity reference s r t
      → ((a : StockCheckOutcome) → r ≡ ok a → a.available ≡ false)
      → (j : ℕ) → held_by j t ≡ held_by j s
  Effect-refused r t (refused _ _ e f h) none_granted j = rw e refl
  Effect-refused r t (granted a _ p e f g i) none_granted j =
      let wrong = none_granted a refl in absurd (cc (wrong, g))

  Effect-thrown :
      (r : Result StockCheckOutcome) (t : Inventory) {e : Error}
      → Effect location_code quantity reference s r t
      → answered r ≡ err e
      → (j : ℕ) → held_by j t ≡ held_by j s
  Effect-thrown r t effect h = Effect-refused r t effect (λ a same. absurd (cc (h, same)))

  Effect-unavailable :
      (r : Result StockCheckOutcome) (t : Inventory) {a : StockAnswer}
      → Effect location_code quantity reference s r t
      → answered r ≡ ok a
      → a.available ≡ false
      → (j : ℕ) → held_by j t ≡ held_by j s
  Effect-unavailable (err e) t effect h n = absurd (cc h)
  Effect-unavailable (ok o) t effect h n = Effect-refused (ok o) t effect λ a same.
      sym (ap (λ x. x.available) (ok-injective _ _ same))
      ∙ ap (λ x. x.available) (ok-injective _ _ h)
      ∙ n

  refused_available :
      (r : Result StockCheckOutcome) {a : StockAnswer}
      → ((o : StockCheckOutcome) → r ≡ ok o → o.available ≡ false)
      → answered r ≡ ok a
      → a.available ≡ true
      → ⊥
  refused_available (err e) none_granted h y = absurd (cc h)
  refused_available (ok o) none_granted h y =
      let unavailable = none_granted o refl in
      let available = ap (λ x. x.available) (ok-injective _ _ h) ∙ y in cc (unavailable, available)

  Effect-available :
      (r : Result StockCheckOutcome) (t : Inventory) {a : StockAnswer}
      → IsFresh s
      → Effect location_code quantity reference s r t
      → answered r ≡ ok a
      → a.available ≡ true
      → (held_by a.reservation_id s ≡ none)
        × ((j : ℕ) → held_by j t ≡ (if a.reservation_id == j then some quantity else held_by j s))
  Effect-available r t v (refused _ _ e f none_granted) same y =
      absurd (refused_available r none_granted same y)
  Effect-available r t v (granted o _ p e f g i) same y =
      let id = sym (ap id_or_empty i) ∙ ap (λ x. x.reservation_id) (ok-injective _ _ same) in
      rw (sym id)
        (rw (v s.next_id (omega arith)) refl, held-new p location_code quantity reference s t v e)

-- The two calls that Inventory answers keep what a checkout relies on: a grant is of a reservation
-- that nothing was held by before, and it holds the quantity; a refusal, an exception and the
-- release of another reservation change no reservation; and one that is released holds nothing.
pub inventory_stock-Laws : (env : Env) → StockLaws (inventory_stock env) IsFresh held_by
unfolding inventory_stock release_reservation
inventory_stock-Laws env = record {
  reserve-IsValid =
      λ sku l q ref s. Effect-IsFresh l q ref s _ _ (reserve-Effect env l q ref sku s);
  release-IsValid = λ id s. release_found-IsFresh env id _ s;
  reserve-thrown =
      λ sku l q ref s v. Effect-thrown l q ref s _ _ (reserve-Effect env l q ref sku s);
  reserve-refused =
      λ sku l q ref s v. Effect-unavailable l q ref s _ _ (reserve-Effect env l q ref sku s);
  reserve-granted =
      λ sku l q ref s v. Effect-available l q ref s _ _ v (reserve-Effect env l q ref sku s);
  release-held = λ id s j. release_found-held env id _ s j refl;
}
