-- ===== src/Inventory/Consistency/Writes.antt =====
-- The invariant of the stock tables, and the writes of StockService
-- (services/inventory/src/stock/stock.service.ts).
use merchandising_funnel_aut.Common.{
  ℕ, ◌≡◌, inl, inr, Bool, true, false, some, List, [], ◌∷◌, ◌&&◌, if◌then◌else◌, arith, pair_key,
  number_key, Option-cases, same_pair, same_pair_iff, ◌∙◌,
}
use merchandising_funnel_aut.Common.Int.{ℤ, pos, ◌+ℤ◌, neg, int_laws}
use merchandising_funnel_aut.Common.Table.{
  Table, find, create, update, upsert, total, find-update, find-upsert, find-create, total-create,
  total-update,
}
use merchandising_funnel_aut.Inventory.State.{
  StockLevel, TransactionType, InventoryTransaction, ReservationStatus, Reservation, empty_level,
  increment,
}
use merchandising_funnel_aut.Inventory.Reservations.{set_status}
use merchandising_funnel_aut.Inventory.Levels.{
  on_hand_at, allocated_at, HasLevel, on_hand-upsert, allocated-upsert, HasLevel-upsert,
  HasLevel-update, on_hand-change, allocated-change, on_hand-adjust,
}

-- Whether a log entry is a movement of goods; a reservation and its release are not.
abbrev pub is_movement : TransactionType → Bool
is_movement TransactionType.reservation = false
is_movement TransactionType.release = false
is_movement _ = true

abbrev pub concerns : ℕ → ℕ → InventoryTransaction → Bool
concerns p l t = same_pair (t.product_id, t.location_code) (p, l)

-- What the log says came to a product at a location, less what left.
abbrev pub moved : ℕ → ℕ → List InventoryTransaction → ℤ
moved p l [] = pos 0
moved p l (t ∷ ts) =
    if concerns p l t && is_movement t.type then moved p l ts +ℤ t.quantity_delta else moved p l ts

abbrev pub is_active : ReservationStatus → Bool
is_active ReservationStatus.active = true
is_active _ = false

-- What a reservation holds of a product at a location.
abbrev pub promised_at : ℕ → ℕ → Reservation → ℤ
promised_at p l r =
    if is_active r.status && same_pair (r.product_id, r.location_code) (p, l)
    then r.quantity
    else pos 0

-- On hand is the sum of the movements, allocated is the sum of the active reservations, and every
-- reservation is of a level that exists.
pub record IsConsistent (levels : Table (ℕ × ℕ) StockLevel) (log : List InventoryTransaction)
    (reservations : Table ℕ Reservation) : Type 0 where
  pub reconciled : (p l : ℕ) → on_hand_at p l levels ≡ moved p l log
  pub promised : (p l : ℕ) → allocated_at p l levels ≡ total (promised_at p l) reservations
  pub placed :
      (id : ℕ) (r : Reservation)
      → find id reservations ≡ some r
      → HasLevel r.product_id r.location_code levels

-- A settled reservation holds nothing more, and the others what they held.
settled-total :
    (p l id : ℕ) (r : Reservation) (status : ReservationStatus) (R : Table ℕ Reservation)
    → find id R ≡ some r
    → is_active r.status ≡ true
    → is_active status ≡ false
    → {a : ℤ} → a ≡ total (promised_at p l) R
    → (if same_pair (r.product_id, r.location_code) (p, l) then a +ℤ neg r.quantity else a)
      ≡ total (promised_at p l) (update id (set_status status) R)
settled-total p l id r status R found a na {a = b} held =
    grind (int_laws, total-update (promised_at p l) id (set_status status) R found)

still_placed :
    (id : ℕ) (status : ReservationStatus) (L : Table (ℕ × ℕ) StockLevel) (R : Table ℕ Reservation)
    → ((j : ℕ) (q : Reservation) → find j R ≡ some q → HasLevel q.product_id q.location_code L)
    → (j : ℕ) (q : Reservation) → find j (update id (set_status status) R) ≡ some q
    → HasLevel q.product_id q.location_code L
still_placed id status L R placed j q k = elim (Option-cases (find j R)) [
  | inl e ↦ ground (arith, find-update id j (set_status status) R)
  | inr (r, e) ↦ ground (arith, find-update id j (set_status status) R, placed j r e)
]

module _ (L : Table (ℕ × ℕ) StockLevel) (T : List InventoryTransaction) (R : Table ℕ Reservation)
    (c : IsConsistent L T R) where
  pub upsert-IsConsistent :
      (q m : ℕ) (v : ℤ) → IsConsistent (upsert (q, m) (empty_level v) (λ r. r) L) T R
  upsert-IsConsistent q m v = record {
    reconciled = λ p l. on_hand-upsert q m p l L v ∙ c.reconciled p l;
    promised = λ p l. allocated-upsert q m p l L v ∙ c.promised p l;
    placed = λ id r h. HasLevel-upsert q m r.product_id r.location_code L _ _ (c.placed id r h);
  }

  -- A movement that is made and logged.
  pub movement-IsConsistent :
      (t : InventoryTransaction)
      → is_movement t.type ≡ true
      → HasLevel t.product_id t.location_code L
      → IsConsistent
          (update (t.product_id, t.location_code) (increment t.quantity_delta (pos 0)) L)
          (t ∷ T)
          R
  movement-IsConsistent t m h = record {
    reconciled = λ p l.
        rw (on_hand-change t.product_id t.location_code p l L t.quantity_delta (pos 0) h, m)
          (ground (arith, c.reconciled p l));
    promised = λ p l.
        rw (allocated-change t.product_id t.location_code p l L t.quantity_delta (pos 0) h)
          (grind (int_laws, c.promised p l));
    placed = λ id r k.
        HasLevel-update t.product_id t.location_code r.product_id r.location_code L _
          (c.placed id r k);
  }

  -- A log entry that moves nothing.
  pub entry-IsConsistent :
      (t : InventoryTransaction) → is_movement t.type ≡ false → IsConsistent L (t ∷ T) R
  entry-IsConsistent t m = record {
    reconciled = λ p l. rw m (ground (arith, c.reconciled p l));
    promised = c.promised;
    placed = c.placed;
  }

  -- An adjustment makes the level with what it finds, or changes it.
  pub adjustment-IsConsistent :
      (t : InventoryTransaction) (v : ℤ)
      → is_movement t.type ≡ true
      → IsConsistent
          (upsert
            (t.product_id, t.location_code)
            (record { on_hand = t.quantity_delta; allocated = pos 0; unit_value = v })
            (increment t.quantity_delta (pos 0))
            L)
          (t ∷ T)
          R
  adjustment-IsConsistent t v m = record {
    reconciled = λ p l.
        rw (on_hand-adjust t.product_id t.location_code p l L t.quantity_delta v, m)
          (ground (arith, c.reconciled p l));
    promised = λ p l.
        rw (find-upsert)
          (grind (int_laws, c.promised p l, same_pair_iff (t.product_id, t.location_code) (p, l)));
    placed = λ id r k.
        HasLevel-upsert t.product_id t.location_code r.product_id r.location_code L _ _
          (c.placed id r k);
  }

  -- A reservation that is made, and its quantity allocated.
  pub reservation-IsConsistent :
      (id : ℕ) (r : Reservation)
      → is_active r.status ≡ true
      → HasLevel r.product_id r.location_code L
      → IsConsistent
          (update (r.product_id, r.location_code) (increment (pos 0) r.quantity) L)
          T
          (create id r R)
  reservation-IsConsistent id r a h = record {
    reconciled = λ p l.
        rw (on_hand-change r.product_id r.location_code p l L (pos 0) r.quantity h)
          (grind (int_laws, c.reconciled p l));
    promised = λ p l.
        rw
          (
            allocated-change r.product_id r.location_code p l L (pos 0) r.quantity h,
            total-create (promised_at p l) id r R,
            a,
          )
          (grind (int_laws, c.promised p l));
    placed = λ j q k.
        HasLevel-update r.product_id r.location_code q.product_id q.location_code L _
          (ground (arith, find-create id j r R, c.placed j q));
  }

  -- An active reservation that is settled: its quantity is no longer allocated, and `d` moves.
  pub settlement-IsConsistent :
      (id : ℕ) (r : Reservation) (status : ReservationStatus) (d : ℤ)
      (T' : List InventoryTransaction)
      → find id R ≡ some r
      → is_active r.status ≡ true
      → is_active status ≡ false
      → ((p l : ℕ)
          → moved p l T' ≡ (
              if same_pair (r.product_id, r.location_code) (p, l)
              then moved p l T +ℤ d
              else moved p l T))
      → IsConsistent
          (update (r.product_id, r.location_code) (increment d (neg r.quantity)) L)
          T'
          (update id (set_status status) R)
  settlement-IsConsistent id r status d T' found a na logged =
      let h : HasLevel r.product_id r.location_code L = c.placed id r found in
      record {
        reconciled = λ p l.
            rw (on_hand-change r.product_id r.location_code p l L d (neg r.quantity) h, logged p l)
              (ground (arith, c.reconciled p l));
        promised = λ p l.
            rw (allocated-change r.product_id r.location_code p l L d (neg r.quantity) h)
              (settled-total p l id r status R found a na (c.promised p l));
        placed = λ j q k.
            HasLevel-update r.product_id r.location_code q.product_id q.location_code L _
              (still_placed id status L R c.placed j q k);
      }
