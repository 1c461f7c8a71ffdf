-- ===== src/Inventory/StockCounts/Booked.antt =====
-- What the posting of a stock count does to the stock
-- (services/inventory/src/stock-counts/stock-counts.service.ts).
use merchandising_funnel_aut.Common.{
  ◌==◌, if◌then◌else◌, Bool-cases, number_key, same_pair, same_pair_iff, pair_key, any, ℕ, suc, ◌≡◌,
  refl, sym, ap, ◌∙◌, subst, inl, inr, Bool, true, false, List, [], ◌∷◌, arith,
}
use merchandising_funnel_aut.Common.Action.{Error, Result, resume-ok, ok, err}
use merchandising_funnel_aut.Common.Int.{ℤ, ◌+ℤ◌, ◌≤ℤ◌, pos, int_laws}
use merchandising_funnel_aut.Common.Table.{find, find-upsert}
use merchandising_funnel_aut.Inventory.Consistency.{Consistent, adjustment-IsConsistent}
use merchandising_funnel_aut.Inventory.Levels.{on_hand_at, allocated_at, on_hand-adjust}
use merchandising_funnel_aut.Inventory.State.{
  Env, TransactionType, ReferenceType, InventoryTransaction, Inventory, record_transaction,
}
use merchandising_funnel_aut.Inventory.StockCounts.{StockCount}
use merchandising_funnel_aut.Inventory.StockCounts.Posting.{
  Change, post_level, is_below_zero, post_change, post_changes,
}

-- What the changes of a count come to for a product at a location.
abbrev pub counted_delta : ℕ → ℕ → ℕ → List Change → ℤ
counted_delta location_code p l [] = pos 0
counted_delta location_code p l (c ∷ cs) =
    if same_pair (c.line.product_id, location_code) (p, l)
    then c.delta +ℤ counted_delta location_code p l cs
    else counted_delta location_code p l cs

abbrev pub changes_product : ℕ → List Change → Bool
changes_product p = any (λ c. c.line.product_id == p)

abbrev pub count_entry : Env → StockCount → Change → Inventory → InventoryTransaction
count_entry env count c s = record {
  id = s.next_id;
  product_id = c.line.product_id;
  location_code = count.location_code;
  type = TransactionType.adjustment;
  quantity_delta = c.delta;
  reference_type = ReferenceType.stock_count;
  reference_id = count.count_number;
  created_at = env.now;
}

abbrev pub after_change : Env → StockCount → Change → Inventory → Inventory
after_change env count c s = record (post_level count.location_code c s) {
  transactions = count_entry env count c s ∷ s.transactions;
  next_id = suc s.next_id;
}

-- The stock after the changes of a count: on hand moves by each of them and is not below zero where
-- one was made, what is allocated and reserved stays, and the log agrees.
pub record IsPosted (count : StockCount) (changes : List Change) (s t : Inventory) : Type 0 where
  pub moved :
      (p l : ℕ)
      → on_hand_at p l t.levels
        ≡ on_hand_at p l s.levels +ℤ counted_delta count.location_code p l changes
  pub allocated_stays : (p l : ℕ) → allocated_at p l t.levels ≡ allocated_at p l s.levels
  pub not_below :
      (p : ℕ)
      → changes_product p changes ≡ true
      → pos 0 ≤ℤ on_hand_at p count.location_code t.levels
  pub reserved_stays : t.reservations ≡ s.reservations
  pub consistent : Consistent s → Consistent t

choice-ok :
    (b : Bool) (s t : Inventory) {a : Unit {0}} {u : Inventory}
    → let r : Result (Unit {0}) × Inventory = if b then (err Error.conflict, s) else (ok tt, t) in
      r ≡ (ok a, u) → (b ≡ false) × (t ≡ u)
choice-ok true s t h = absurd (cc (ap (λ p. p.0) h))
choice-ok false s t h = (refl, ap (λ p. p.1) h)

counted_delta-none :
    (location_code p : ℕ) (changes : List Change)
    → changes_product p changes ≡ false
    → counted_delta location_code p location_code changes ≡ pos 0
counted_delta-none location_code p [] n = refl
counted_delta-none location_code p (c ∷ changes) n =
    let others = counted_delta-none location_code p changes in ground (arith, others)

add_chosen :
    (b : Bool) (x d rest : ℤ)
    → (if b then x +ℤ d else x) +ℤ rest ≡ x +ℤ (if b then d +ℤ rest else rest)
add_chosen true x d rest = omega int_laws
add_chosen false x d rest = refl

above_with_none : (x y d : ℤ) → x ≡ y +ℤ d → d ≡ pos 0 → pos 0 ≤ℤ y → pos 0 ≤ℤ x
above_with_none x y d h e a = rw (h, e) (omega int_laws)

module _ (env : Env) (count : StockCount) where
  abbrev pub below_after : Change → Inventory → Bool
  below_after c s =
      is_below_zero
        (find (c.line.product_id, count.location_code) (post_level count.location_code c s).levels)

  pub post_change_lem :
      (c : Change) (s : Inventory)
      → post_change env count c s ≡ (
          if below_after c s
          then (err Error.conflict, post_level count.location_code c s)
          else (ok tt, after_change env count c s))
  unfolding post_change record_transaction
  post_change_lem c s = elim (Bool-cases (below_after c s)) [
    | inl below ↦ rw below refl
    | inr fine ↦ rw fine refl
  ]

  post_change-ok :
      (c : Change) (s : Inventory) {a : Unit {0}} {t : Inventory}
      → post_change env count c s ≡ (ok a, t)
      → (below_after c s ≡ false) × (after_change env count c s ≡ t)
  post_change-ok c s h = choice-ok (below_after c s) _ _ (sym (post_change_lem c s) ∙ h)

  on_hand-after :
      (c : Change) (s : Inventory) (p l : ℕ)
      → on_hand_at p l (after_change env count c s).levels ≡ (
          if same_pair (c.line.product_id, count.location_code) (p, l)
          then on_hand_at p l s.levels +ℤ c.delta
          else on_hand_at p l s.levels)
  on_hand-after c s p l =
      on_hand-adjust c.line.product_id count.location_code p l s.levels c.delta c.line.unit_cost

  allocated-after :
      (c : Change) (s : Inventory) (p l : ℕ)
      → allocated_at p l (after_change env count c s).levels ≡ allocated_at p l s.levels
  allocated-after c s p l =
      rw (find-upsert)
        (grind (int_laws, same_pair_iff (c.line.product_id, count.location_code) (p, l)))

  after_change-above :
      (c : Change) (s : Inventory)
      → below_after c s ≡ false
      → pos 0
        ≤ℤ on_hand_at c.line.product_id count.location_code (after_change env count c s).levels
  after_change-above c s h = ground arith

  pub post_changes-IsPosted :
      (changes : List Change) (s : Inventory) {a : Unit {0}} {t : Inventory}
      → post_changes env count changes s ≡ (ok a, t)
      → IsPosted count changes s t
  unfolding post_changes
  post_changes-IsPosted [] s {t = t} h =
      let same : s ≡ t = ap (λ p. p.1) h in
      subst (IsPosted count [] s) same (record {
        moved = λ p l. omega int_laws;
        allocated_stays = λ p l. refl;
        not_below = λ p n. absurd (cc n);
        reserved_stays = refl;
        consistent = λ c. c;
      })
  post_changes-IsPosted (c ∷ changes) s {t = t} h =
      let (b, u, first, rest) =
        resume-ok (λ _. post_changes env count changes) (post_change env count c s) h in
      let (above, same) = post_change-ok c s first in
      let posted : IsPosted count changes (after_change env count c s) t =
        subst (λ u. IsPosted count changes u t) (sym same) (post_changes-IsPosted changes u rest) in
      record {
        moved = λ p l.
            rw (posted.moved p l, on_hand-after c s p l)
              (add_chosen (same_pair (c.line.product_id, count.location_code) (p, l)) _ _ _);
        allocated_stays = λ p l. posted.allocated_stays p l ∙ allocated-after c s p l;
        not_below = λ p n. elim (Bool-cases (changes_product p changes)) [
          | inl later ↦ posted.not_below p later
          | inr last ↦
              let none_left = counted_delta-none count.location_code p changes last in
              let here : c.line.product_id ≡ p = ground arith in
              let high = after_change-above c s above in
              let moved = posted.moved p count.location_code in
              subst (λ q. pos 0 ≤ℤ on_hand_at q count.location_code t.levels) here
                (above_with_none _ _ _ (posted.moved c.line.product_id count.location_code)
                  (subst
                    (λ q. counted_delta count.location_code q count.location_code changes ≡ pos 0)
                    (sym here) none_left)
                  (after_change-above c s above))
        ];
        reserved_stays = posted.reserved_stays;
        consistent = λ k. posted.consistent (
            adjustment-IsConsistent s.levels s.transactions s.reservations k
              (count_entry env count c s) c.line.unit_cost refl);
      }
