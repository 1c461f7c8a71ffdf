-- ===== src/Retail/Checkout/Reserving.antt =====
-- The reservations of a checkout (services/retail-sales/src/checkout/checkout.service.ts), on any
-- Inventory that keeps the laws of the stock service.
use merchandising_funnel_aut.Common.{
  ◌==◌, if◌then◌else◌, any, All, All-map, All-append, ℕ, ◌≡◌, sym, Bool, ◌||◌, Option, none, some,
  List, [], ◌∷◌, ◌++◌, arith,
}
use merchandising_funnel_aut.Common.Int.{ℤ}
use merchandising_funnel_aut.Retail.Checkout.{ReservedLine, release_all}
use merchandising_funnel_aut.Retail.Stock.{StockService, StockLaws}

abbrev pub has_id : ℕ → List ReservedLine → Bool
has_id j = any (λ l. l.reservation_id == j)

has_id-append :
    (j : ℕ) (xs : List ReservedLine) (l : ReservedLine)
    → has_id j (xs ++ (l ∷ [])) ≡ has_id j xs || (l.reservation_id == j)
has_id-append j [] l = ground arith
has_id-append j (x ∷ xs) l = rw (has_id-append j xs l) (ground arith)

module _ {S : Type 0} (stock : StockService S) {IsValid : S → Type 0} {held : ℕ → S → Option ℤ}
    (laws : StockLaws stock IsValid held) where
  abbrev pub IsHeld : S → ReservedLine → Type 0
  IsHeld s l = held l.reservation_id s ≡ some l.quantity_sold

  -- What was reserved since the state `s`, and nothing else, is what differs from it.
  pub record Since (s : S) (reserved : List ReservedLine) (t : S) : Type 0 where
    pub valid : IsValid t
    pub fresh : (j : ℕ) → held j s ≡ (if has_id j reserved then none else held j t)
    pub taken : All (IsHeld t) reserved

  -- A grant adds its line.
  pub Since-grant :
      (s t u : S) (reserved : List ReservedLine) (l : ReservedLine)
      → Since s reserved t
      → IsValid u
      → held l.reservation_id t ≡ none
      → ((j : ℕ) → held j u ≡ (if l.reservation_id == j then some l.quantity_sold else held j t))
      → Since s (reserved ++ (l ∷ [])) u
  Since-grant s t u reserved l c v free after = record {
    valid = v;
    fresh = λ j. rw has_id-append (ground (arith, c.fresh j, after j, free));
    taken =
        All-append (IsHeld u) reserved l
          (All-map (IsHeld t) (IsHeld u) reserved
            (λ x h. ground (arith, after x.reservation_id, h, free)) c.taken)
          (ground (arith, after l.reservation_id));
  }

  -- A call that reserves nothing changes nothing.
  pub Since-same :
      (s t u : S) (reserved : List ReservedLine)
      → Since s reserved t
      → IsValid u
      → ((j : ℕ) → held j u ≡ held j t)
      → Since s reserved u
  Since-same s t u reserved c v same = record {
    valid = v;
    fresh = λ j. rw (same j) (c.fresh j);
    taken = All-map (IsHeld t) (IsHeld u) reserved (λ x h. rw (same x.reservation_id) h) c.taken;
  }

  -- To release the lines one after the other leads back to where the reserving started.
  pub release_all-held :
      (s : S) (reserved : List ReservedLine) (t : S)
      → ((j : ℕ) → held j s ≡ (if has_id j reserved then none else held j t))
      → (j : ℕ) → held j (release_all stock reserved t) ≡ held j s
  unfolding release_all
  release_all-held s [] t h = λ j. sym (h j)
  release_all-held s (l ∷ reserved) t h =
      release_all-held s reserved (stock.release_reservation l.reservation_id t).1
        λ j. rw (laws.release-held l.reservation_id t j) (ground (arith, h j))
