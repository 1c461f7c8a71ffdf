-- ===== src/Retail/Checkout/Lines.antt =====
-- The loop of a checkout over its lines (services/retail-sales/src/checkout/checkout.service.ts).
use merchandising_funnel_aut.Common.{
  Bool-cases, ℕ, ◌≡◌, refl, inl, inr, Option, List, [], ◌∷◌, ◌++◌,
}
use merchandising_funnel_aut.Common.Action.{Result, resume, ◌>>=◌, ok, err}
use merchandising_funnel_aut.Common.Int.{ℤ}
use merchandising_funnel_aut.Retail.Checkout.{
  CheckoutLine, CheckoutRequest, ReservedLine, reserved_line, Attempt, take_answer, reserve_line,
  go_on, reserve_lines, all_reserved, stopped,
}
use merchandising_funnel_aut.Retail.Products.{PricedProduct}
use merchandising_funnel_aut.Retail.State.{Env, Shop}
use merchandising_funnel_aut.Retail.Stock.{StockAnswer, StockService, StockLaws}
use merchandising_funnel_aut.Retail.Checkout.Reserving.{Since, Since-grant, Since-same}

abbrev pub reserved_of : Attempt → List ReservedLine
reserved_of (all_reserved reserved) = reserved
reserved_of (stopped e reserved) = reserved

module _ {S : Type 0} (stock : StockService S) {IsValid : S → Type 0} {held : ℕ → S → Option ℤ}
    (laws : StockLaws stock IsValid held) where
  -- Where a line leads: it is reserved besides the others, or nothing has changed.
  abbrev pub SinceLine : S → List ReservedLine → Result ReservedLine → S → Type 0
  SinceLine s reserved (ok l) t = Since stock laws s (reserved ++ (l ∷ [])) t
  SinceLine s reserved (err e) t = Since stock laws s reserved t

  module _ (env : Env) (dto : CheckoutRequest) (shop : Shop) (s : S) where
    take_answer-Since :
        (line : CheckoutLine) (product : PricedProduct) (reserved : List ReservedLine) (t : S)
        (r : Result StockAnswer)
        → Since stock laws s reserved t
        → let asked =
            stock.check_and_reserve_stock line.sku dto.location_code line.quantity env.uuid t in
          asked.0 ≡ r
          → let outcome = resume (take_answer stock line product) r asked.1 in
            SinceLine s reserved outcome.0 outcome.1
    unfolding reserved_line
    take_answer-Since line product reserved t (err e) c h =
        Since-same stock laws s t _ reserved c (laws.reserve-IsValid _ _ _ _ t c.valid)
          (laws.reserve-thrown _ _ _ _ t c.valid h)
    take_answer-Since line product reserved t (ok a) c h = elim (Bool-cases a.available) [
      | inl granted ↦
          let (free, after) = laws.reserve-granted _ _ _ _ t c.valid h granted in
          rw granted (
            Since-grant stock laws s t _ reserved _ c (laws.reserve-IsValid _ _ _ _ t c.valid) free
              after)
      | inr refused ↦ rw refused (
          Since-same stock laws s t _ reserved c (laws.reserve-IsValid _ _ _ _ t c.valid)
            (laws.reserve-refused _ _ _ _ t c.valid h refused))
    ]

    ask-Since :
        (line : CheckoutLine) (reserved : List ReservedLine) (t : S) (found : Result PricedProduct)
        → Since stock laws s reserved t
        → let outcome =
            resume
              (λ product.
                stock.check_and_reserve_stock line.sku dto.location_code line.quantity env.uuid
                >>= take_answer stock line product)
              found
              t in
          SinceLine s reserved outcome.0 outcome.1
    ask-Since line reserved t (err e) c = c
    ask-Since line reserved t (ok product) c = take_answer-Since line product reserved t _ c refl

    go_on-Since :
        (rest : List ReservedLine → S → Attempt × S) (reserved : List ReservedLine)
        (r : Result ReservedLine) (t : S)
        → ((reserved' : List ReservedLine) (u : S)
            → Since stock laws s reserved' u
            → Since stock laws s (reserved_of (rest reserved' u).0) (rest reserved' u).1)
        → SinceLine s reserved r t
        → let attempt = go_on stock rest reserved r t in
          Since stock laws s (reserved_of attempt.0) attempt.1
    go_on-Since rest reserved (ok l) t h c = h _ t c
    go_on-Since rest reserved (err e) t h c = c

    pub reserve_lines-Since :
        (lines : List CheckoutLine) (reserved : List ReservedLine) (t : S)
        → Since stock laws s reserved t
        → let attempt = reserve_lines stock env dto shop lines reserved t in
          Since stock laws s (reserved_of attempt.0) attempt.1
    unfolding reserve_lines reserve_line
    reserve_lines-Since [] reserved t c = c
    reserve_lines-Since (line ∷ lines) reserved t c =
        go_on-Since (reserve_lines stock env dto shop lines) reserved _ _
          (reserve_lines-Since lines) (ask-Since line reserved t _ c)
