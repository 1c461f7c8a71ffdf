-- ===== src/Warehouse/Offers.antt =====
-- What is offered to the picks of a transfer, bin by bin
-- (services/warehouse-operations/src/transfers/transfers.service.ts).
use mathlib.Core.Option
use merchandising_funnel_aut.Common.{
  ◌==◌, if◌then◌else◌, ==_iff, Bool-cases, number_key, same_pair, same_pair_iff, pair_key, sum_of,
  All, ℕ, ◌≡◌, refl, ap, subst, ◌⊎◌, inl, inr, Bool, false, ◌&&◌, none, some, List, [], ◌∷◌, arith,
}
use merchandising_funnel_aut.Common.Int.{ℤ, ◌-ℤ◌, ltb_ℤ, zero-+ℤ, pos, int_laws}
use merchandising_funnel_aut.Common.Table.{Table, find, update, upsert, find-update, find-upsert}
use merchandising_funnel_aut.Warehouse.Allocation.{HasSome}
use merchandising_funnel_aut.Warehouse.Shelving.{quantity_on_shelf}
use merchandising_funnel_aut.Warehouse.State.{BinStock, Warehouse}
use merchandising_funnel_aut.Warehouse.Transfers.{
  CreateTransfer, Source, PickDraft, promised_from, is_at, source_of, sources_of,
}

-- Each key stands once in a table.
abbrev pub IsKeyed : Table (ℕ × ℕ) BinStock → Type 0
IsKeyed [] = Unit
IsKeyed ((k, _) ∷ t) = (find k t ≡ none) × IsKeyed t

pub update-IsKeyed :
    (k : ℕ × ℕ) (f : BinStock → BinStock) (t : Table (ℕ × ℕ) BinStock)
    → IsKeyed t
    → IsKeyed (update k f t)
update-IsKeyed k f [] h = tt
update-IsKeyed k f ((j, v) ∷ t) (free, h) = elim (Bool-cases (same_pair j k)) [
  | inl here ↦ rw here (free, h)
  | inr there ↦ rw there (rw (find-update k j f t, free) (ground arith), update-IsKeyed k f t h)
]

pub upsert-IsKeyed :
    (k : ℕ × ℕ) (v : BinStock) (f : BinStock → BinStock) (t : Table (ℕ × ℕ) BinStock)
    → IsKeyed t
    → IsKeyed (upsert k v f t)
upsert-IsKeyed k v f [] h = (refl, tt)
upsert-IsKeyed k v f ((j, w) ∷ t) (free, h) = elim (Bool-cases (same_pair j k)) [
  | inl here ↦ rw here (free, h)
  | inr there ↦ rw there (
    rw (find-upsert k j v f t, free) (ground (arith, same_pair_iff k j, same_pair_iff j k)),
    upsert-IsKeyed k v f t h,
  )
]

abbrev pub on_shelf : ℕ → ℕ → Table (ℕ × ℕ) BinStock → ℤ
on_shelf bin_id sku stock = quantity_on_shelf (find (bin_id, sku) stock)

abbrev pub offered_from : ℕ → List Source → ℤ
offered_from bin_id = sum_of (λ x. if x.bin_id == bin_id then x.available else pos 0)

abbrev pub drafted_from : ℕ → List PickDraft → ℤ
drafted_from bin_id = sum_of (λ d. if d.bin_id == bin_id then d.quantity else pos 0)

abbrev pub is_offered : CreateTransfer → Warehouse → ℕ → ℕ → BinStock → Bool
is_offered dto s bin_id sku stock =
    sku == dto.sku
    && ltb_ℤ (pos 0) stock.quantity
    && is_at dto.from_location_code (find bin_id s.bins)
    && ltb_ℤ (pos 0) (source_of bin_id sku stock s).available

module _ (dto : CreateTransfer) (s : Warehouse) (b : ℕ) where
  pub sources_of-HasSome : (rows : Table (ℕ × ℕ) BinStock) → All HasSome (sources_of dto s rows)
  unfolding sources_of
  sources_of-HasSome [] = tt
  sources_of-HasSome (((i, k), stock) ∷ rows) = elim (Bool-cases (is_offered dto s i k stock)) [
    | inl e ↦ rw e (ground arith, sources_of-HasSome rows)
    | inr e ↦ rw e (sources_of-HasSome rows)
  ]

  -- A bin without the SKU offers nothing.
  pub offered_from-none :
      (rows : Table (ℕ × ℕ) BinStock)
      → find (b, dto.sku) rows ≡ none
      → offered_from b (sources_of dto s rows) ≡ pos 0
  unfolding sources_of
  offered_from-none [] h = refl
  offered_from-none (((i, k), stock) ∷ rows) h =
      let apart : same_pair (i, k) (b, dto.sku) ≡ false = ground arith in
      let rest = offered_from-none rows (rw apart at h) in
      elim (Bool-cases (is_offered dto s i k stock)) [
        | inl e ↦
            let other : (i == b) ≡ false = ground arith in rw (e, other, rest) (omega int_laws)
        | inr e ↦ rw (e, rest) refl
      ]

  -- A bin with the SKU offers at most what is not promised.
  pub offered_from-some :
      (rows : Table (ℕ × ℕ) BinStock) (stock : BinStock)
      → IsKeyed rows
      → find (b, dto.sku) rows ≡ some stock
      → (offered_from b (sources_of dto s rows) ≡ pos 0)
        ⊎ (offered_from b (sources_of dto s rows)
            ≡ stock.quantity -ℤ promised_from b dto.sku s.picks)
  unfolding sources_of
  offered_from-some [] stock keyed h = absurd (cc h)
  offered_from-some (((i, k), row) ∷ rows) stock (free, keyed) h =
      elim (Bool-cases (same_pair (i, k) (b, dto.sku))) [
        | inr apart ↦ elim (Bool-cases (is_offered dto s i k row)) [
          | inl e ↦
              let other : (i == b) ≡ false = ground arith in
              rw (e, other, zero-+ℤ) (offered_from-some rows stock keyed (rw apart at h))
          | inr e ↦ rw e (offered_from-some rows stock keyed (rw apart at h))
        ]
        | inl here ↦
            let same = (same_pair_iff (i, k) (b, dto.sku)).0 here in
            let bin : i ≡ b = ap (λ p. p.0) same in
            let none_left = offered_from-none rows (subst (λ j. find j rows ≡ none) same free) in
            let found : row ≡ stock = Option.some-injective row stock (rw here at h) in
            elim (Bool-cases (is_offered dto s i k row)) [
              | inl e ↦ inr (
                  rw (e, none_left, bin, ap (λ p. p.1) same, found, (==_iff b b).1 refl)
                    (omega int_laws))
              | inr e ↦ inl (rw (e, none_left) refl)
            ]
      ]
