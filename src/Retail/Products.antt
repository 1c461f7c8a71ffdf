-- ===== src/Retail/Products.antt =====
-- The prices and promotions of ProductsService
-- (services/retail-sales/src/products/products.service.ts).
use merchandising_funnel_aut.Common.{
  leb, number_key, pair_key, find_where, ℕ, suc, Bool, ◌&&◌, Option, none, some, [], ◌∷◌, ◌++◌,
}
use merchandising_funnel_aut.Common.Action.{
  Error, Result, Action, or_throw, ◌>>◌, modify, map_ok, ok, err,
}
use merchandising_funnel_aut.Common.Int.{ℤ}
use merchandising_funnel_aut.Common.Table.{find, create, update}
use merchandising_funnel_aut.Retail.Pricing.{ActivePromotion}
use merchandising_funnel_aut.Retail.State.{Promotion, Product, Shop}

pub record PricedProduct : Type 0 where
  pub id : ℕ
  pub sku : ℕ
  pub name : ℕ
  pub unit_price : ℤ
  pub tax_rate_pct : ℕ
  pub active_promotion : Option ActivePromotion

pub record CreateProduct : Type 0 where
  pub sku : ℕ
  pub name : ℕ
  pub unit_price : ℤ
  pub tax_rate_pct : Option ℕ

pub record UpdateProduct : Type 0 where
  pub name : Option ℕ
  pub unit_price : Option ℤ
  pub tax_rate_pct : Option ℕ

abbrev pub or_default {ℓ} : {A : Type ℓ} → Option A → A → A
or_default none d = d
or_default (some a) d = a

unfoldable pub find_one : ℕ → Action Shop Product
find_one sku s = or_throw (find sku s.products) Error.not_found s

unfoldable pub create_product : CreateProduct → Action Shop Product
create_product dto s = elim (find dto.sku s.products) [
  | some taken ↦ (err Error.unique_violation, s)
  | none ↦ (
    ok product,
    record s { products = create dto.sku product s.products; next_id = suc s.next_id },
  )
]
  where
    product : Product
    product = record {
      id = s.next_id;
      name = dto.name;
      unit_price = dto.unit_price;
      tax_rate_pct = or_default dto.tax_rate_pct 0;
      promotions = [];
    }

abbrev pub with_changes : UpdateProduct → Product → Product
with_changes dto p = record p {
  name = or_default dto.name p.name;
  unit_price = or_default dto.unit_price p.unit_price;
  tax_rate_pct = or_default dto.tax_rate_pct p.tax_rate_pct;
}

unfoldable pub update_product : ℕ → UpdateProduct → Action Shop (Unit {0})
unfolding find_one
update_product sku dto =
    find_one sku >> modify λ s. record s { products = update sku (with_changes dto) s.products }

unfoldable pub add_promotion : ℕ → Promotion → Action Shop (Unit {0})
unfolding find_one
add_promotion sku promotion =
    find_one sku
    >> modify λ s. record s {
      products =
          update sku (λ p. record p { promotions = p.promotions ++ (promotion ∷ []) }) s.products;
    }

abbrev pub is_active : ℕ → Promotion → Bool
is_active at promo = leb promo.starts_at at && leb at promo.ends_at

abbrev pub active_pct : Option Promotion → Option ActivePromotion
active_pct none = none
active_pct (some promo) = some (record { discount_pct = promo.discount_pct })

unfoldable pub priced : ℕ → ℕ → Product → PricedProduct
priced sku at p = record {
  id = p.id;
  sku = sku;
  name = p.name;
  unit_price = p.unit_price;
  tax_rate_pct = p.tax_rate_pct;
  active_promotion = active_pct (find_where (is_active at) p.promotions);
}

-- FR-6.1: the price and the promotion of a SKU at one instant.
unfoldable pub get_active_price_and_promotion : ℕ → ℕ → Shop → Result PricedProduct
unfolding priced find_one
get_active_price_and_promotion sku at s = map_ok (priced sku at) (find_one sku s).0
