-- ===== src/Retail/Stock.antt =====
-- What a checkout asks of Inventory
-- (services/retail-sales/src/inventory-grpc-client/inventory-grpc-client.service.ts): the two calls,
-- as operations on the state `S` of the service that answers, and the laws that it promises.
use merchandising_funnel_aut.Common.{
  ◌==◌, if◌then◌else◌, ℕ, ◌≡◌, Bool, true, false, Option, none, some,
}
use merchandising_funnel_aut.Common.Action.{Error, Action, Keeps, ok, err}
use merchandising_funnel_aut.Common.Int.{ℤ}

pub record StockAnswer : Type 0 where
  pub available : Bool
  pub reservation_id : ℕ

pub record StockService (S : Type 0) : Type 0 where
  pub check_and_reserve_stock : ℕ → ℕ → ℤ → ℕ → Action S StockAnswer
  pub release_reservation : ℕ → Action S Bool

-- `held` is the quantity that a reservation keeps from the stock, and `IsValid` what the service
-- keeps true of its own state.
pub record StockLaws {S : Type 0} (stock : StockService S) (IsValid : S → Type 0)
    (held : ℕ → S → Option ℤ) : Type 0 where
  pub reserve-IsValid :
      (sku location_code : ℕ) (quantity : ℤ) (reference : ℕ)
      → Keeps IsValid (stock.check_and_reserve_stock sku location_code quantity reference)
  pub release-IsValid : (id : ℕ) → Keeps IsValid (stock.release_reservation id)
  pub reserve-thrown :
      (sku location_code : ℕ) (quantity : ℤ) (reference : ℕ) (s : S) {e : Error}
      → IsValid s
      → (stock.check_and_reserve_stock sku location_code quantity reference s).0 ≡ err e
      → (j : ℕ)
      → held j (stock.check_and_reserve_stock sku location_code quantity reference s).1 ≡ held j s
  pub reserve-refused :
      (sku location_code : ℕ) (quantity : ℤ) (reference : ℕ) (s : S) {a : StockAnswer}
      → IsValid s
      → (stock.check_and_reserve_stock sku location_code quantity reference s).0 ≡ ok a
      → a.available ≡ false
      → (j : ℕ)
      → held j (stock.check_and_reserve_stock sku location_code quantity reference s).1 ≡ held j s
  pub reserve-granted :
      (sku location_code : ℕ) (quantity : ℤ) (reference : ℕ) (s : S) {a : StockAnswer}
      → IsValid s
      → (stock.check_and_reserve_stock sku location_code quantity reference s).0 ≡ ok a
      → a.available ≡ true
      → (held a.reservation_id s ≡ none)
        × ((j : ℕ)
            → held j (stock.check_and_reserve_stock sku location_code quantity reference s).1
              ≡ (if a.reservation_id == j then some quantity else held j s))
  pub release-held :
      (id : ℕ) (s : S) (j : ℕ)
      → held j (stock.release_reservation id s).1 ≡ (if id == j then none else held j s)
