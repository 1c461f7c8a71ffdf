-- ===== src/Retail/Checkout/Settlement.antt =====
-- How a checkout ends (services/retail-sales/src/checkout/checkout.service.ts).
use mathlib.Core.List.{map-append, append_assoc, append-nil}
use merchandising_funnel_aut.Common.{
  Bool-cases, number_key, pair_key, All, All-append, ℕ, ◌≡◌, refl, sym, ◌⊎◌, inl, inr, Option, List,
  [], ◌∷◌, ◌++◌, map,
}
use merchandising_funnel_aut.Common.Action.{Error, Result, resume, ◌>>=◌, ok, err}
use merchandising_funnel_aut.Common.Int.{ℤ, ◌+ℤ◌, ◌-ℤ◌, ◌*ℤ◌, ◌==ℤ◌, ==ℤ_iff}
use merchandising_funnel_aut.Common.Table.{create}
use merchandising_funnel_aut.Retail.Checkout.{
  CheckoutLine, CheckoutRequest, ReservedLine, reserved_line, total_paid, sale_total, Attempt,
  new_transaction, write_sale, take_answer, reserve_line, go_on, reserve_lines, pay_reserved,
  settle_attempt, checkout, all_reserved, stopped,
}
use merchandising_funnel_aut.Retail.Pricing.{compute_line_price}
use merchandising_funnel_aut.Retail.Products.{PricedProduct}
use merchandising_funnel_aut.Retail.State.{Env, Transaction, Shop}
use merchandising_funnel_aut.Retail.Stock.{StockAnswer, StockService, StockLaws}
use merchandising_funnel_aut.Retail.Checkout.Lines.{reserved_of, reserve_lines-Since}
use merchandising_funnel_aut.Retail.Checkout.Reserving.{Since, release_all-held}

-- A line is its price, less its discount, plus its tax.
abbrev pub AddsUp : ReservedLine → Type 0
AddsUp l = l.line_total ≡ l.unit_price *ℤ l.quantity_sold -ℤ l.discount_amount +ℤ l.tax_amount

abbrev pub bought : ReservedLine → ℕ × ℤ
bought l = (l.sku, l.quantity_sold)

abbrev pub wanted : CheckoutLine → ℕ × ℤ
wanted l = (l.sku, l.quantity)

module _ {S : Type 0} (stock : StockService S) (env : Env) (dto : CheckoutRequest)
    (shop : Shop) where
  -- A reserved line is for what the request names, and adds up.
  IsFor : CheckoutLine → Result ReservedLine → Type 0
  IsFor line (ok l) = (bought l ≡ wanted line) × AddsUp l
  IsFor line (err e) = Unit

  take_answer-IsFor :
      (line : CheckoutLine) (product : PricedProduct) (r : Result StockAnswer) (t : S)
      → IsFor line (resume (take_answer stock line product) r t).0
  unfolding reserved_line compute_line_price IsFor
  take_answer-IsFor line product (err e) t = tt
  take_answer-IsFor line product (ok a) t = elim (Bool-cases a.available) [
    | inl granted ↦ rw granted (refl, refl)
    | inr refused ↦ rw refused tt
  ]

  ask-IsFor :
      (line : CheckoutLine) (found : Result PricedProduct) (t : S)
      → IsFor line
          (resume
            (λ product.
              stock.check_and_reserve_stock line.sku dto.location_code line.quantity env.uuid
              >>= take_answer stock line product)
            found
            t).0
  unfolding IsFor
  ask-IsFor line (err e) t = tt
  ask-IsFor line (ok product) t = take_answer-IsFor line product _ _

  -- A loop that comes to its end has reserved every line of the request.
  Covers : List CheckoutLine → List ReservedLine → Attempt → Type 0
  Covers lines start (all_reserved reserved) =
      (map bought reserved ≡ map bought start ++ map wanted lines) × All AddsUp reserved
  Covers lines start (stopped e reserved) = Unit

  Covers-append :
      (line : CheckoutLine) (lines : List CheckoutLine) (start : List ReservedLine)
      (l : ReservedLine) (attempt : Attempt)
      → bought l ≡ wanted line
      → Covers lines (start ++ (l ∷ [])) attempt
      → Covers (line ∷ lines) start attempt
  unfolding Covers
  Covers-append line lines start l (stopped e reserved) h c = tt
  Covers-append line lines start l (all_reserved reserved) h (same, a) = (
    rw (same, map-append bought start (l ∷ []), h)
        (append_assoc (map bought start) (wanted line ∷ []) (map wanted lines)),
    a,
  )

  go_on-Covers :
      (line : CheckoutLine) (lines : List CheckoutLine) (start : List ReservedLine)
      (r : Result ReservedLine) (t : S)
      → ((start' : List ReservedLine) (u : S)
          → All AddsUp start'
          → Covers lines start' (reserve_lines stock env dto shop lines start' u).0)
      → IsFor line r
      → All AddsUp start
      → Covers
          (line ∷ lines)
          start
          (go_on stock (reserve_lines stock env dto shop lines) start r t).0
  unfolding IsFor Covers
  go_on-Covers line lines start (err e) t rest h a = tt
  go_on-Covers line lines start (ok l) t rest (same, adds) a =
      Covers-append line lines start l _ same
        (rest (start ++ (l ∷ [])) t (All-append AddsUp start l a adds))

  reserve_lines-Covers :
      (lines : List CheckoutLine) (start : List ReservedLine) (t : S)
      → All AddsUp start
      → Covers lines start (reserve_lines stock env dto shop lines start t).0
  unfolding reserve_lines reserve_line Covers
  reserve_lines-Covers [] start t a = (sym (append-nil (map bought start)), a)
  reserve_lines-Covers (line ∷ lines) start t a =
      go_on-Covers line lines start _ _ (reserve_lines-Covers lines) (ask-IsFor line _ t) a

write_sale-transactions :
    (env : Env) (dto : CheckoutRequest) (reserved : List ReservedLine) (shop : Shop)
    → (write_sale env dto reserved shop).1.transactions
      ≡ create env.uuid (new_transaction env dto reserved shop) shop.transactions
unfolding write_sale
write_sale-transactions env dto reserved shop = elim (Bool-cases env.bus_up) [
  | inl up ↦ rw up refl
  | inr down ↦ rw down refl
]

module _ {S : Type 0} (stock : StockService S) {IsValid : S → Type 0} {held : ℕ → S → Option ℤ}
    (laws : StockLaws stock IsValid held) where
  -- Nothing was sold, and every reservation is what it was.
  pub record IsUndone (shop : Shop) (s : S) (r : Result Transaction × (Shop × S)) : Type 0 where
    pub thrown : (e : Error) × (r.0 ≡ err e)
    pub unsold : r.1.0 ≡ shop
    pub unheld : (j : ℕ) → held j r.1.1 ≡ held j s

  -- A sale of the lines of the request, which add up to what is paid; its transaction is written,
  -- and each of its lines, and nothing else, is held besides what was.
  pub record IsSold (env : Env) (dto : CheckoutRequest) (shop : Shop) (s : S)
      (reserved : List ReservedLine) (t : Shop × S) : Type 0 where
    pub requested : map bought reserved ≡ map wanted dto.lines
    pub add_up : All AddsUp reserved
    pub is_paid : total_paid dto.payments ≡ sale_total reserved
    pub written :
        t.0.transactions ≡ create env.uuid (new_transaction env dto reserved shop) shop.transactions
    pub is_held : Since stock laws s reserved t.1

  settle_attempt_lem :
      (env : Env) (dto : CheckoutRequest) (shop : Shop) (s t : S) (attempt : Attempt)
      → Since stock laws s (reserved_of attempt) t
      → Covers stock env dto shop dto.lines [] attempt
      → let r = settle_attempt stock env dto attempt (shop, t) in
        IsUndone shop s r ⊎ ((reserved : List ReservedLine) × IsSold env dto shop s reserved r.1)
  unfolding settle_attempt Covers pay_reserved write_sale
  settle_attempt_lem env dto shop s t (stopped e reserved) c covers = inl (record {
    thrown = (e, refl);
    unsold = refl;
    unheld = release_all-held stock laws s reserved t c.fresh;
  })
  settle_attempt_lem env dto shop s t (all_reserved reserved) c (same, adds) =
      elim (Bool-cases (total_paid dto.payments ==ℤ sale_total reserved)) [
        | inr uneven ↦ rw uneven (
            inl (record {
              thrown = (Error.bad_request, refl);
              unsold = refl;
              unheld = release_all-held stock laws s reserved t c.fresh;
            }))
        | inl even ↦ rw even (
            inr (
              reserved,
              record {
                requested = same;
                add_up = adds;
                is_paid = (==ℤ_iff _ _).0 even;
                written = write_sale-transactions env dto reserved shop;
                is_held = c;
              },
            ))
      ]

  nothing_reserved : (s : S) → IsValid s → Since stock laws s [] s
  nothing_reserved s v = record { valid = v; fresh = λ j. refl; taken = tt }

  -- On an Inventory that keeps the laws of the stock service, a checkout does one of two things.
  -- Either it throws, the shop's database is as before, and every reservation is as before, so that
  -- those it took are released again; or there are reserved lines for exactly what the request
  -- names, each of which adds up, which come to what is paid, the transaction of these lines is
  -- written, and they are held while every other reservation is as before.
  pub checkout_all_or_nothing :
      (env : Env) (dto : CheckoutRequest) (shop : Shop) (s : S)
      → IsValid s
      → let r = checkout stock env dto (shop, s) in
        IsUndone shop s r ⊎ ((reserved : List ReservedLine) × IsSold env dto shop s reserved r.1)
  unfolding checkout
  checkout_all_or_nothing env dto shop s v =
      settle_attempt_lem env dto shop s _ _
        (reserve_lines-Since stock laws env dto shop s dto.lines [] s (nothing_reserved s v))
        (reserve_lines-Covers stock env dto shop dto.lines [] s tt)
