-- ===== src/Retail/Pricing.antt =====
-- The price of a checkout line (services/retail-sales/src/products/pricing.ts). The percentages are
-- taken in doubles, since the rounding of their product decides a tie; sums and products of whole
-- cents are exact, as everywhere.
use merchandising_funnel_aut.Common.{ℕ, Option, none, some}
use merchandising_funnel_aut.Common.Double.{Double, hundredths, number, ◌-d◌, ◌*d◌, ◌/d◌, round2}
use merchandising_funnel_aut.Common.Int.{ℤ, ◌+ℤ◌, ◌-ℤ◌, ◌*ℤ◌, pos}

pub record ActivePromotion : Type 0 where
  pub discount_pct : ℕ

pub record LinePricing : Type 0 where
  pub discount_amount : ℤ
  pub tax_amount : ℤ
  pub line_total : ℤ

-- `round2(amount * (pct / 100))`
unfoldable pub percent_of : Double → ℕ → ℤ
percent_of amount pct = round2 (amount *d (hundredths (pos pct) /d number (pos 100)))

unfoldable pub discount_of : Option ActivePromotion → ℤ → ℤ
unfolding percent_of
discount_of none subtotal = pos 0
discount_of (some promotion) subtotal = percent_of (hundredths subtotal) promotion.discount_pct

-- FR-6.1/6.3: the discount comes off first, and the tax is on what is left.
unfoldable pub compute_line_price : ℤ → ℤ → Option ActivePromotion → ℕ → LinePricing
unfolding discount_of percent_of
compute_line_price unit_price quantity active_promotion tax_rate_pct =
    let subtotal = unit_price *ℤ quantity in
    let discount = discount_of active_promotion subtotal in
    let tax = percent_of (hundredths subtotal -d hundredths discount) tax_rate_pct in
    record {
      discount_amount = discount;
      tax_amount = tax;
      line_total = subtotal -ℤ discount +ℤ tax;
    }
