-- ===== src/Retail/Checkout.antt =====
-- CheckoutService (services/retail-sales/src/checkout/checkout.service.ts). Inventory is the state
-- `S` behind the two calls of a StockService; a release that fails is passed over.
pub mod Reserving
pub mod Lines
pub mod Settlement
use merchandising_funnel_aut.Common.{
  if◌then◌else◌, number_key, pair_key, length, sum_of, ℕ, suc, ◌+◌, not, List, [], ◌∷◌, ◌++◌, map,
}
use merchandising_funnel_aut.Events.{ItemSoldLine, PaymentMethodCapture, ItemSoldEvent}
use merchandising_funnel_aut.Common.Action.{
  Error, Result, Action, pure, lift, ◌>>=◌, ◌>>◌, throw_if, transaction, ok, err,
}
use merchandising_funnel_aut.Common.Int.{ℤ, ◌*ℤ◌, ◌==ℤ◌, pos}
use merchandising_funnel_aut.Common.Table.{number_rows, create}
use merchandising_funnel_aut.Retail.Pricing.{compute_line_price}
use merchandising_funnel_aut.Retail.Products.{PricedProduct, get_active_price_and_promotion}
use merchandising_funnel_aut.Retail.State.{
  Env, publish, TransactionStatus, TransactionLine, Transaction, Event, Shop,
}
use merchandising_funnel_aut.Retail.Stock.{StockAnswer, StockService}

pub record CheckoutLine : Type 0 where
  pub sku : ℕ
  pub quantity : ℤ

pub record CheckoutRequest : Type 0 where
  pub store_id : ℕ
  pub register_id : ℕ
  pub cashier_id : ℕ
  pub location_code : ℕ
  pub lines : List CheckoutLine
  pub payments : List PaymentMethodCapture

pub record ReservedLine : Type 0 where
  pub sku : ℕ
  pub product_id : ℕ
  pub product_name : ℕ
  pub quantity_sold : ℤ
  pub unit_price : ℤ
  pub discount_amount : ℤ
  pub tax_amount : ℤ
  pub line_total : ℤ
  pub reservation_id : ℕ

unfoldable pub reserved_line : CheckoutLine → PricedProduct → StockAnswer → ReservedLine
unfolding compute_line_price
reserved_line line product answer =
    let pricing =
      compute_line_price product.unit_price line.quantity product.active_promotion
        product.tax_rate_pct in
    record {
      sku = line.sku;
      product_id = product.id;
      product_name = product.name;
      quantity_sold = line.quantity;
      unit_price = product.unit_price;
      discount_amount = pricing.discount_amount;
      tax_amount = pricing.tax_amount;
      line_total = pricing.line_total;
      reservation_id = answer.reservation_id;
    }

abbrev pub total_paid : List PaymentMethodCapture → ℤ
total_paid = sum_of (λ p. p.amount)

abbrev pub subtotal_of : List ReservedLine → ℤ
subtotal_of = sum_of (λ l. l.unit_price *ℤ l.quantity_sold)

abbrev pub discount_total : List ReservedLine → ℤ
discount_total = sum_of (λ l. l.discount_amount)

abbrev pub tax_total : List ReservedLine → ℤ
tax_total = sum_of (λ l. l.tax_amount)

abbrev pub sale_total : List ReservedLine → ℤ
sale_total = sum_of (λ l. l.line_total)

-- What the loop over the lines comes to: all of them are reserved, or one threw after some were.
pub data Attempt : Type 0 where
  all_reserved : List ReservedLine → Attempt
  stopped : Error → List ReservedLine → Attempt

abbrev pub new_line : ℕ → ReservedLine → TransactionLine
new_line location_code line = record {
  product_id = line.product_id;
  sku = line.sku;
  product_name = line.product_name;
  quantity_sold = line.quantity_sold;
  unit_price = line.unit_price;
  discount_amount = line.discount_amount;
  tax_amount = line.tax_amount;
  line_total = line.line_total;
  reservation_id = line.reservation_id;
  location_code = location_code;
  quantity_returned = pos 0;
}

unfoldable pub new_transaction : Env → CheckoutRequest → List ReservedLine → Shop → Transaction
new_transaction env dto reserved s = record {
  sequence = s.transaction_sequence;
  transaction_number = 1000 + s.transaction_sequence;
  store_id = dto.store_id;
  register_id = dto.register_id;
  cashier_id = dto.cashier_id;
  status = TransactionStatus.completed;
  subtotal_amount = subtotal_of reserved;
  discount_amount = discount_total reserved;
  tax_amount = tax_total reserved;
  total_amount = sale_total reserved;
  created_at = env.now;
  lines = number_rows s.next_id (map (new_line dto.location_code) reserved);
  payments = dto.payments;
}

abbrev pub sold_line : ReservedLine → ItemSoldLine
sold_line line = record {
  sku = line.sku;
  product_name = line.product_name;
  quantity_sold = line.quantity_sold;
  unit_price = line.unit_price;
  discount_amount = line.discount_amount;
  tax_amount = line.tax_amount;
  line_total = line.line_total;
  reservation_id = line.reservation_id;
}

unfoldable pub item_sold_event : Env → CheckoutRequest → List ReservedLine → ItemSoldEvent
item_sold_event env dto reserved = record {
  event_id = env.event_uuid;
  occurred_at = env.now;
  transaction_id = env.uuid;
  store_id = dto.store_id;
  register_id = dto.register_id;
  cashier_id = dto.cashier_id;
  lines = map sold_line reserved;
  payment_methods = dto.payments;
  total_amount = sale_total reserved;
}

-- The writes of a sale that is paid: the transaction under its id, and then the event.
unfoldable pub write_sale : Env → CheckoutRequest → List ReservedLine → Action Shop Transaction
unfolding new_transaction item_sold_event
write_sale env dto reserved s =
    let transaction = new_transaction env dto reserved s in
    (publish env (Event.item_sold (item_sold_event env dto reserved)) >> pure transaction)
      (record s {
        transactions = create env.uuid transaction s.transactions;
        transaction_sequence = suc s.transaction_sequence;
        next_id = s.next_id + length reserved;
      })

module _ {S : Type 0} (stock : StockService S) where
  abbrev pub take_answer : CheckoutLine → PricedProduct → StockAnswer → Action S ReservedLine
  take_answer line product answer =
      throw_if (not answer.available) Error.bad_request >> pure (reserved_line line product answer)

  unfoldable pub reserve_line : Env → CheckoutRequest → Shop → CheckoutLine → Action S ReservedLine
  unfolding reserved_line
  reserve_line env dto shop line =
      lift (get_active_price_and_promotion line.sku env.now shop) >>= λ product.
      stock.check_and_reserve_stock line.sku dto.location_code line.quantity env.uuid
      >>= take_answer line product

  abbrev pub go_on :
      (List ReservedLine → S → Attempt × S)
      → List ReservedLine
      → Result ReservedLine
      → S
      → Attempt × S
  go_on rest reserved (ok line) s = rest (reserved ++ (line ∷ [])) s
  go_on rest reserved (err e) s = (stopped e reserved, s)

  -- The loop of the `try` block, from what is reserved so far.
  unfoldable pub reserve_lines :
      Env → CheckoutRequest → Shop → List CheckoutLine → List ReservedLine → S → Attempt × S
  unfolding reserve_line
  reserve_lines env dto shop [] reserved s = (all_reserved reserved, s)
  reserve_lines env dto shop (line ∷ lines) reserved s =
      let attempt = reserve_line env dto shop line s in
      go_on (reserve_lines env dto shop lines) reserved attempt.0 attempt.1

  -- `Promise.allSettled` of the releases.
  unfoldable pub release_all : List ReservedLine → S → S
  release_all [] s = s
  release_all (line ∷ lines) s =
      release_all lines (stock.release_reservation line.reservation_id s).1

  unfoldable pub pay_reserved :
      Env → CheckoutRequest → List ReservedLine → Action (Shop × S) Transaction
  unfolding write_sale release_all
  pay_reserved env dto reserved (shop, s) =
      let sale = write_sale env dto reserved shop in
      if total_paid dto.payments ==ℤ sale_total reserved
      then (sale.0, (sale.1, s))
      else (err Error.bad_request, (shop, release_all reserved s))

  unfoldable pub settle_attempt : Env → CheckoutRequest → Attempt → Action (Shop × S) Transaction
  unfolding pay_reserved release_all
  settle_attempt env dto (all_reserved reserved) t = pay_reserved env dto reserved t
  settle_attempt env dto (stopped e reserved) (shop, s) = (err e, (shop, release_all reserved s))

  -- FR-6.2/6.3/6.5/6.6: stock for every line, then the payments, then the sale and its event.
  unfoldable pub checkout : Env → CheckoutRequest → Action (Shop × S) Transaction
  unfolding reserve_lines settle_attempt
  checkout env dto (shop, s) =
      let attempt = reserve_lines env dto shop dto.lines [] s in
      settle_attempt env dto attempt.0 (shop, attempt.1)
