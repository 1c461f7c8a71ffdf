-- ===== src/Warehouse/Promises.antt =====
-- The open picks and what the bins hold
-- (services/warehouse-operations/src/transfers/transfers.service.ts, putaway/putaway.service.ts).
use merchandising_funnel_aut.Common.{
  ◌==◌, if◌then◌else◌, ==_iff, Bool-cases, Option-cases, number_key, pair_key, All, ℕ, suc, ◌≡◌,
  refl, subst, ◌⊎◌, inl, inr, Bool, true, false, List, [], ◌∷◌, ◌++◌, map, arith,
}
use merchandising_funnel_aut.Common.Action.{Keeps}
use merchandising_funnel_aut.Common.Int.{
  ℤ, ◌+ℤ◌, ◌-ℤ◌, ◌≤ℤ◌, ltb_ℤ, ◌==ℤ◌, parts_same, pos, int_laws,
}
use merchandising_funnel_aut.Common.Sorting.{sort, sum_of-sort, All-sort}
use merchandising_funnel_aut.Common.Table.{Table, number_rows, find, total, Rows}
use merchandising_funnel_aut.Warehouse.Allocation.{drafted, offered, HasSome, min_ℤ-bounds}
use merchandising_funnel_aut.Warehouse.Offers.{
  IsKeyed, on_shelf, offered_from, drafted_from, sources_of-HasSome, offered_from-none,
  offered_from-some,
}
use merchandising_funnel_aut.Warehouse.State.{Env, BinStock, PutawayTask, PickTask, Warehouse}
use merchandising_funnel_aut.Warehouse.Transfers.{
  CreateTransfer, Source, PickDraft, promise_of, promised_from, sources_of, is_nearer, min_ℤ,
  allocate, new_pick, write_transfer, planned, create_transfer,
}

offered_from_low :
    (b : ℕ) (sources : List Source) → All HasSome sources → pos 0 ≤ℤ offered_from b sources
offered_from_low b [] all = omega arith
offered_from_low b (x ∷ sources) (has, all) =
    let rest = offered_from_low b sources all in
    elim (Bool-cases (x.bin_id == b)) [
      | inl here ↦ rw here (omega int_laws)
      | inr there ↦ rw there (omega int_laws)
    ]

draw_part :
    (c : Bool) (q a d o : ℤ)
    → q ≤ℤ a
    → d ≤ℤ o
    → (if c then q else pos 0) +ℤ d ≤ℤ (if c then a else pos 0) +ℤ o
draw_part true q a d o h k = omega int_laws
draw_part false q a d o h k = omega int_laws

-- No bin is drawn on for more than it offers.
drafted_from-offered :
    (b : ℕ) (sources : List Source) (wanted : ℤ)
    → All HasSome sources
    → drafted_from b (allocate sources wanted).0 ≤ℤ offered_from b sources
unfolding allocate
drafted_from-offered b [] wanted all = omega arith
drafted_from-offered b (x ∷ sources) wanted (has, all) = elim (Bool-cases (wanted ==ℤ pos 0)) [
  | inl done ↦ rw done (offered_from_low b (x ∷ sources) (has, all))
  | inr more ↦ rw more (
      draw_part (x.bin_id == b) _ _ _ _ (min_ℤ-bounds x.available wanted).0
        (drafted_from-offered b sources (wanted -ℤ min_ℤ x.available wanted) all))
]

total-new_picks :
    (b k transfer_id sku id : ℕ) (drafts : List PickDraft)
    → total (promise_of b k) (number_rows id (map (new_pick transfer_id sku) drafts))
      ≡ (if sku == k then drafted_from b drafts else pos 0)
total-new_picks b k transfer_id sku id [] = ground arith
total-new_picks b k transfer_id sku id (d ∷ drafts) =
    rw (total-new_picks b k transfer_id sku (suc id) drafts) (elim (Bool-cases (sku == k)) [
      | inl same ↦ elim (Bool-cases (d.bin_id == b)) [
        | inl here ↦ rw (same, here) refl
        | inr there ↦ rw (same, there) refl
      ]
      | inr other ↦ elim (Bool-cases (d.bin_id == b)) [
        | inl here ↦ rw (other, here) (omega int_laws)
        | inr there ↦ rw (other, there) (omega int_laws)
      ]
    ])

total-append :
    (f : PickTask → ℤ) (t u : Table ℕ PickTask) → total f (t ++ u) ≡ total f t +ℤ total f u
total-append f [] u = omega int_laws
total-append f ((_, p) ∷ t) u = rw (total-append f t u) (omega int_laws)

-- Of each SKU, no bin owes more to open picks than it holds.
pub record IsPromised (stock : Table (ℕ × ℕ) BinStock) (picks : Table ℕ PickTask)
    (tasks : Table ℕ PutawayTask) : Type 0 where
  pub keyed : IsKeyed stock
  pub covered : (b k : ℕ) → promised_from b k picks ≤ℤ on_shelf b k stock
  pub incoming : Rows (λ (t : PutawayTask). pos 0 ≤ℤ t.quantity) tasks

abbrev pub IsPromisable : Warehouse → Type 0
IsPromisable s = IsPromised s.stock s.picks s.tasks

promise_fits :
    (offered drafted promised shelf : ℤ)
    → promised ≤ℤ shelf
    → drafted ≤ℤ offered
    → (offered ≡ pos 0) ⊎ (offered ≡ shelf -ℤ promised)
    → promised +ℤ drafted ≤ℤ shelf
promise_fits offered drafted promised shelf h k (inl e) =
    let e' = parts_same _ _ e in omega int_laws
promise_fits offered drafted promised shelf h k (inr e) =
    let e' = parts_same _ _ e in omega int_laws

offered_from_shelf :
    (dto : CreateTransfer) (s : Warehouse) (b : ℕ)
    → IsKeyed s.stock
    → let offered = offered_from b (sources_of dto s s.stock) in
      (offered ≡ pos 0) ⊎ (offered ≡ on_shelf b dto.sku s.stock -ℤ promised_from b dto.sku s.picks)
offered_from_shelf dto s b keyed = elim (Option-cases (find (b, dto.sku) s.stock)) [
  | inl e ↦ inl (offered_from-none dto s b s.stock e)
  | inr (row, e) ↦ rw e (offered_from-some dto s b s.stock row keyed e)
]

planned_fits :
    (dto : CreateTransfer) (s : Warehouse) (b : ℕ)
    → IsPromisable s
    → promised_from b dto.sku s.picks +ℤ drafted_from b (planned dto s).0
      ≤ℤ on_shelf b dto.sku s.stock
planned_fits dto s b p =
    let sources = sources_of dto s s.stock in
    let all = All-sort is_nearer HasSome sources (sources_of-HasSome dto s b s.stock) in
    promise_fits (offered_from b sources) _ _ _ (p.covered b dto.sku)
      (subst (λ o. drafted_from b (planned dto s).0 ≤ℤ o) (sum_of-sort is_nearer _ sources)
        (drafted_from-offered b (sort is_nearer sources) dto.quantity all))
      (offered_from_shelf dto s b p.keyed)

write_transfer-IsPromisable :
    (env : Env) (dto : CreateTransfer) (user_id : ℕ) (s : Warehouse)
    → IsPromisable s
    → IsPromisable (write_transfer env dto user_id (planned dto s).0 s)
unfolding write_transfer
write_transfer-IsPromisable env dto user_id s p = record {
  keyed = p.keyed;
  covered = λ b k.
      rw (total-append, total-new_picks)
        (elim (Bool-cases (dto.sku == k)) [
          | inr other ↦ rw other (let c = p.covered b k in omega int_laws)
          | inl same ↦ rw same (
              subst
                (λ k.
                  promised_from b k s.picks +ℤ drafted_from b (planned dto s).0
                  ≤ℤ on_shelf b k s.stock)
                ((==_iff dto.sku k).0 same) (planned_fits dto s b p))
        ]);
  incoming = p.incoming;
}

pub create_transfer-Keeps :
    (env : Env) (dto : CreateTransfer) (user_id : ℕ)
    → Keeps IsPromisable (create_transfer env dto user_id)
unfolding create_transfer
create_transfer-Keeps env dto user_id s p =
    elim (Bool-cases (dto.from_location_code == dto.to_location_code)) [
      | inl same ↦ rw same p
      | inr apart ↦ elim (Bool-cases (ltb_ℤ (pos 0) (planned dto s).1)) [
        | inl short ↦ rw (apart, short) p
        | inr enough ↦ rw (apart, enough) (write_transfer-IsPromisable env dto user_id s p)
      ]
    ]
