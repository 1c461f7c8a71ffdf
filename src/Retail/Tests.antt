-- ===== src/Retail/Tests.antt =====
-- Examples for Retail Sales.
use merchandising_funnel_aut.Inventory.State.{
  Inventory, upsert_level, change_level, record_transaction,
}
use merchandising_funnel_aut.Inventory.Reservations.{
  reserve, reserve_product, check_level, check_and_reserve, reserve_stock, release_reservation,
  release_found, release_active,
}
use merchandising_funnel_aut.Common.{
  number_key, pair_key, length, ◌≡◌, refl, ◌⊎◌, true, none, some, List, [], ◌∷◌, arith,
}
use merchandising_funnel_aut.Events.{PaymentMethod}
use merchandising_funnel_aut.Common.Action.{Error, ok, err}
use merchandising_funnel_aut.Common.Int.{
  ℤ, ◌+ℤ◌, neg, ◌<ℤ◌, floor_div, round_div, pos, int_laws, ◌*ℤ◌, ◌-ℤ◌,
}
use merchandising_funnel_aut.Common.Double.{double_of, to_53_digits, digits, digits_in, nearest}
use merchandising_funnel_aut.Common.Table.{find}
use merchandising_funnel_aut.Retail.Checkout.{
  CheckoutRequest, ReservedLine, reserved_line, new_transaction, item_sold_event, write_sale,
  reserve_line, reserve_lines, release_all, pay_reserved, settle_attempt, checkout,
}
use merchandising_funnel_aut.Retail.Fulfilment.{
  inventory_stock, IsFresh, held_by, inventory_stock-Laws,
}
use merchandising_funnel_aut.Retail.Pricing.{percent_of, discount_of, compute_line_price}
use merchandising_funnel_aut.Retail.Products.{find_one, priced, get_active_price_and_promotion}
use merchandising_funnel_aut.Retail.Refunds.{twice, repeated_line_returns_too_much}
use merchandising_funnel_aut.Retail.Returnable.{IsSettled, process_return-IsSettled}
use merchandising_funnel_aut.Retail.Returns.{
  RequestedLine, ReturnRequest, refund_for, process_return,
}
use merchandising_funnel_aut.Retail.State.{
  Env, Promotion, Product, TransactionStatus, TransactionLine, Transaction, ReturnTransaction, Shop,
}
use merchandising_funnel_aut.Retail.Stock.{StockService, StockLaws}
use merchandising_funnel_aut.Retail.Checkout.Settlement.{IsUndone, IsSold, checkout_all_or_nothing}

abbrev lunch : Promotion
lunch = record { discount_pct = 1000; starts_at = 10; ends_at = 20 }

-- 10.00 a piece, with 16 % tax.
abbrev soap : Product
soap = record {
  id = 1;
  name = 70;
  unit_price = pos 1000;
  tax_rate_pct = 1600;
  promotions = lunch ∷ [];
}

abbrev open_shop : Shop
open_shop = record {
  products = (7, soap) ∷ [];
  transactions = [];
  transaction_sequence = 1;
  returns = [];
  return_sequence = 1;
  published = [];
  next_id = 100;
}

abbrev at_noon : Env
at_noon = record { now = 12; uuid = 50; event_uuid = 51; bus_up = true }

abbrev soap_stock : Inventory
soap_stock = record {
  products = (7, record { id = 1; sku = 7; name = 70; unit_cost = pos 600 }) ∷ [];
  levels = ((1, 3), record { on_hand = pos 5; allocated = pos 0; unit_value = pos 600 }) ∷ [];
  transactions = [];
  reservations = [];
  velocities = [];
  published = [];
  next_id = 1;
}

abbrev stock : StockService Inventory
stock = inventory_stock (record { now = 12; uuid = 60; bus_up = true; reorder_lead_time_days = 7 })

abbrev basket : ℤ → ℤ → CheckoutRequest
basket quantity paid = record {
  store_id = 3;
  register_id = 1;
  cashier_id = 9;
  location_code = 3;
  lines = record { sku = 7; quantity = pos 2 } ∷ record { sku = 7; quantity = quantity } ∷ [];
  payments = record { method = PaymentMethod.cash; amount = paid } ∷ [];
}

no_reservations : IsFresh soap_stock
no_reservations j h = refl

-- Two pieces at 10 % off and 16 % tax come to 20.88.
two_soaps :
    (compute_line_price (pos 1000) (pos 2) (some (record { discount_pct = 1000 })) 1600).line_total
    ≡ pos 2088
unfolding compute_line_price discount_of percent_of double_of to_53_digits digits digits_in nearest
    round_div floor_div ◌+ℤ◌ ◌-ℤ◌ ◌*ℤ◌ neg
two_soaps = refl

inventory_stock-Laws_example : StockLaws stock IsFresh held_by
inventory_stock-Laws_example =
    inventory_stock-Laws (record { now = 12; uuid = 60; bus_up = true; reorder_lead_time_days = 7 })

abbrev inventory_laws : StockLaws stock IsFresh held_by
inventory_laws =
    inventory_stock-Laws (record { now = 12; uuid = 60; bus_up = true; reorder_lead_time_days = 7 })

-- Three pieces that are paid for, and six of five, which take two and give them back.
checkout_all_or_nothing_example :
    let r = checkout stock at_noon (basket (pos 1) (pos 3132)) (open_shop, soap_stock) in
    IsUndone stock inventory_laws open_shop soap_stock r
    ⊎ ((reserved : List ReservedLine) × IsSold stock inventory_laws at_noon
          (basket (pos 1) (pos 3132))
          open_shop
          soap_stock
          reserved
          r.1)
checkout_all_or_nothing_example =
    checkout_all_or_nothing stock inventory_laws at_noon (basket (pos 1) (pos 3132)) open_shop
      soap_stock no_reservations

three_pieces :
    let r = checkout stock at_noon (basket (pos 1) (pos 3132)) (open_shop, soap_stock) in
    (length r.1.0.transactions ≡ 1)
    × (held_by 1 r.1.1 ≡ some (pos 2))
    × (held_by 3 r.1.1 ≡ some (pos 1))
unfolding checkout reserve_lines reserve_line get_active_price_and_promotion find_one priced
    inventory_stock reserve reserve_product upsert_level check_level check_and_reserve reserve_stock
    change_level record_transaction settle_attempt pay_reserved write_sale new_transaction
    item_sold_event reserved_line compute_line_price discount_of percent_of double_of to_53_digits
    digits digits_in nearest round_div floor_div ◌+ℤ◌ ◌-ℤ◌ ◌*ℤ◌ neg
three_pieces = (refl, refl, refl)

eight_pieces :
    let r = checkout stock at_noon (basket (pos 6) (pos 3132)) (open_shop, soap_stock) in
    (r.0 ≡ err Error.bad_request) × (length r.1.0.transactions ≡ 0) × (held_by 1 r.1.1 ≡ none)
unfolding checkout reserve_lines reserve_line get_active_price_and_promotion find_one priced
    inventory_stock reserve reserve_product upsert_level check_level check_and_reserve reserve_stock
    change_level record_transaction settle_attempt pay_reserved release_all release_reservation
    release_found release_active reserved_line compute_line_price discount_of percent_of double_of
    to_53_digits digits digits_in nearest round_div floor_div ◌+ℤ◌ ◌-ℤ◌ ◌*ℤ◌ neg
eight_pieces = (refl, refl, refl)

abbrev three_soaps : TransactionLine
three_soaps = record {
  product_id = 1;
  sku = 7;
  product_name = 70;
  quantity_sold = pos 3;
  unit_price = pos 67;
  discount_amount = pos 1;
  tax_amount = pos 0;
  line_total = pos 200;
  reservation_id = 1;
  location_code = 3;
  quantity_returned = pos 1;
}

abbrev sale : Transaction
sale = record {
  sequence = 1;
  transaction_number = 1001;
  store_id = 3;
  register_id = 1;
  cashier_id = 9;
  status = TransactionStatus.completed;
  subtotal_amount = pos 201;
  discount_amount = pos 1;
  tax_amount = pos 0;
  total_amount = pos 200;
  created_at = 12;
  lines = (40, three_soaps) ∷ [];
  payments = [];
}

abbrev after_sale : Shop
after_sale = record open_shop { transactions = (50, sale) ∷ [] }

abbrev bring_back : List RequestedLine → ReturnRequest
bring_back lines = record {
  original_transaction_id = 50;
  store_id = 3;
  register_id = 1;
  lines = lines;
}

abbrev two_back : List RequestedLine
two_back = record { transaction_line_id = 40; quantity_returned = pos 2 } ∷ []

after_sale-IsSettled : IsSettled after_sale
after_sale-IsSettled = ((((omega arith), (omega arith)), tt), tt)

process_return-IsSettled_example :
    IsSettled (process_return at_noon (bring_back two_back) after_sale).1
process_return-IsSettled_example =
    process_return-IsSettled at_noon (bring_back two_back) after_sale (refl, (omega arith), tt)
      after_sale-IsSettled

-- A third of 2.00, three times, is 2.01.
three_thirds : refund_for three_soaps (pos 1) ≡ pos 67
unfolding refund_for double_of to_53_digits digits digits_in nearest round_div floor_div ◌+ℤ◌ ◌*ℤ◌
    neg
three_thirds = refl

-- Half of 1.15 is refunded, and taken off, as 0.57.
half_refunded :
    refund_for (record three_soaps { line_total = pos 115; quantity_sold = pos 2 }) (pos 1) ≡ pos 57
unfolding refund_for double_of to_53_digits digits digits_in nearest round_div floor_div ◌+ℤ◌ ◌*ℤ◌
    neg
half_refunded = refl

half_discounted :
    (compute_line_price (pos 115) (pos 1) (some (record { discount_pct = 5000 })) 0).discount_amount
    ≡ pos 57
unfolding compute_line_price discount_of percent_of double_of to_53_digits digits digits_in nearest
    round_div floor_div ◌+ℤ◌ ◌-ℤ◌ ◌*ℤ◌ neg
half_discounted = refl

repeated_line_returns_too_much_example :
    let dto : ReturnRequest = record {
      original_transaction_id = 50;
      store_id = 3;
      register_id = 1;
      lines = twice 40 (pos 2);
    } in
    let r = process_return at_noon dto after_sale in
    (receipt : ReturnTransaction) × (t : Transaction) × (l : TransactionLine) × (r.0 ≡ ok receipt)
    × (find 50 r.1.transactions ≡ some t)
    × (find 40 t.lines ≡ some l)
    × (l.quantity_sold <ℤ l.quantity_returned)
repeated_line_returns_too_much_example =
    repeated_line_returns_too_much at_noon 3 1 50 40 (pos 2) after_sale sale three_soaps refl refl
      (omega int_laws) (omega int_laws) refl
