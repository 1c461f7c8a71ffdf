-- ===== src/Warehouse/Completion.antt =====
-- The beginning and the end of a transfer
-- (services/warehouse-operations/src/transfers/transfers.service.ts).
use merchandising_funnel_aut.Common.{
  ◌==◌, Bool-cases, number_key, pair_key, All, ℕ, ◌≡◌, refl, sym, ◌∙◌, subst, ◌⊎◌, inl, inr, false,
  List, arith,
}
use merchandising_funnel_aut.Common.Action.{Error, Result, ok, err}
use merchandising_funnel_aut.Common.Int.{ℤ, ◌+ℤ◌, ◌≤ℤ◌, ◌<ℤ◌, ltb_ℤ, parts_same, pos, int_laws}
use merchandising_funnel_aut.Common.Sorting.{sort, sum_of-sort, All-sort}
use merchandising_funnel_aut.Warehouse.Allocation.{drafted, offered, HasSome, allocate-IsDrawn}
use merchandising_funnel_aut.Warehouse.Offers.{sources_of-HasSome}
use merchandising_funnel_aut.Warehouse.State.{Env, Warehouse}
use merchandising_funnel_aut.Warehouse.Transfers.{
  CreateTransfer, PickDraft, sources_of, is_nearer, write_transfer, planned, create_transfer,
}

falls_short :
    (drafted left wanted offered : ℤ)
    → drafted +ℤ left ≡ wanted
    → pos 0 <ℤ left
    → drafted ≡ offered
    → offered <ℤ wanted
falls_short drafted left wanted offered h more same =
    let e = parts_same _ _ h in let f = parts_same _ _ same in omega int_laws

none_left : (left : ℤ) → pos 0 ≤ℤ left → ltb_ℤ (pos 0) left ≡ false → left ≡ pos 0
none_left left low h = ground arith

whole_drafted :
    (drafted left wanted : ℤ) → drafted +ℤ left ≡ wanted → left ≡ pos 0 → drafted ≡ wanted
whole_drafted drafted left wanted h n = sym (rw n (omega int_laws)) ∙ h

-- The state that a request for a transfer is granted in, with its picks.
pub record IsGranted (env : Env) (dto : CreateTransfer) (user_id : ℕ) (s : Warehouse)
    (r : Result (Unit {0}) × Warehouse) : Type 0 where
  pub drafts : List PickDraft
  pub whole : drafted drafts ≡ dto.quantity
  pub positive : All (λ (d : PickDraft). pos 0 <ℤ d.quantity) drafts
  pub written : r ≡ (ok tt, write_transfer env dto user_id drafts s)

-- A transfer between two locations, of a quantity that is not negative, is refused and changes
-- nothing where the bins of its source have less of the SKU than that to promise; otherwise picks
-- of positive quantities are written that come to exactly the quantity.
pub create_transfer_lem :
    (env : Env) (dto : CreateTransfer) (user_id : ℕ) (s : Warehouse)
    → (dto.from_location_code == dto.to_location_code) ≡ false
    → pos 0 ≤ℤ dto.quantity
    → let r = create_transfer env dto user_id s in
      let on_offer = offered (sources_of dto s s.stock) in
      ((on_offer <ℤ dto.quantity) × (r ≡ (err Error.bad_request, s)))
      ⊎ ((dto.quantity ≤ℤ on_offer) × IsGranted env dto user_id s r)
unfolding create_transfer
create_transfer_lem env dto user_id s apart low =
    let sources = sources_of dto s s.stock in
    let all = All-sort is_nearer HasSome sources (sources_of-HasSome dto s 0 s.stock) in
    let drawn = allocate-IsDrawn (sort is_nearer sources) dto.quantity all low in
    let same = sum_of-sort is_nearer (λ x. x.available) sources in
    elim (Bool-cases (ltb_ℤ (pos 0) (planned dto s).1)) [
      | inl short ↦
          let more : pos 0 <ℤ (planned dto s).1 = ground arith in
          rw (apart, short)
            (inl (falls_short _ _ _ _ drawn.adds_up more (drawn.short more ∙ same), refl))
      | inr enough ↦
          let done = none_left _ drawn.left enough in
          rw (apart, enough)
            (inr (
              subst (λ o. dto.quantity ≤ℤ o) same (drawn.enough done),
              record {
                drafts = (planned dto s).0;
                whole = whole_drafted _ _ _ drawn.adds_up done;
                positive = drawn.positive;
                written = refl;
              },
            ))
    ]
