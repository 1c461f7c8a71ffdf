-- ===== src/Flows/Tests.antt =====
-- Examples for what passes between the services.
use merchandising_funnel_aut.Common.{
  number_key, pair_key, false, ℕ, suc, List, refl, arith, ◌≡◌, ◌⊎◌, [], ◌∷◌, some, none, true,
}
use merchandising_funnel_aut.Common.Action.{ok}
use merchandising_funnel_aut.Common.Int.{ℤ, pos, neg, ◌+ℤ◌, ◌*ℤ◌}
use merchandising_funnel_aut.Inventory.State.{Env}
use merchandising_funnel_aut.Inventory.StockCounts.{StockCount, StockCountStatus, StockCountType}
use merchandising_funnel_aut.Inventory.StockCounts.Counting.{summarize}
use merchandising_funnel_aut.Inventory.StockCounts.Posting.{changes_of, posting_event}
use merchandising_funnel_aut.Financials.Accounts.{inventory, inventory_shrinkage}
use merchandising_funnel_aut.Financials.Journal.{JournalDraft}
use merchandising_funnel_aut.Financials.Plans.{nothing_to_book, net}
use merchandising_funnel_aut.Financials.Postings.{only_entry, stock_adjusted}
use merchandising_funnel_aut.Events.{Condition, DiscrepancyType}
use merchandising_funnel_aut.Receiving.State as Dock
use merchandising_funnel_aut.Receiving.Finalizing.{finalize}
use merchandising_funnel_aut.Receiving.Outcomes.{IsReady}
use merchandising_funnel_aut.Procurement.State.{PurchaseOrderStatus, PurchaseOrder, Orders}
use merchandising_funnel_aut.Flows.Deliveries.{IsFollowed, order_follows_delivery}
use merchandising_funnel_aut.Flows.Shrinkage.{posted_count_books}
use merchandising_funnel_aut.Flows.Sales.{cost_of, IsPosted, paid_sale_books}
use merchandising_funnel_aut.Events.{PaymentMethod}
use merchandising_funnel_aut.Financials.Effects.Sold.{facts_of}
use merchandising_funnel_aut.Financials.Postings.{with_facts, item_sold}
use merchandising_funnel_aut.Retail.State as Till
use merchandising_funnel_aut.Retail.Stock.{StockService}
use merchandising_funnel_aut.Retail.Checkout.{
  CheckoutRequest, ReservedLine, item_sold_event, pay_reserved,
}

abbrev noon : Env
noon = record { now = 1000; uuid = 1; bus_up = true; reorder_lead_time_days = 3 }

-- Three of ten pieces are missing.
abbrev short_count : StockCount
short_count = record {
  sequence = 1;
  count_number = 1001;
  location_code = 1;
  type = StockCountType.full;
  status = StockCountStatus.submitted;
  blind = true;
  notes = none;
  created_by_id = 4;
  submitted = none;
  posted = none;
  cancelled = none;
  created_at = 800;
  updated_at = 800;
  lines =
      record {
        id = 1;
        product_id = 7;
        sku = 70;
        product_name = 700;
        expected_qty = pos 10;
        counted_qty = some (pos 7);
        counted_by_id = some 4;
        counted_at = some 900;
        unit_cost = pos 50;
      }
      ∷ [];
}

posted_count_books_example :
    let event = posting_event noon 5 short_count (changes_of short_count.lines) in
    (value : ℤ) × ((summarize short_count.lines).variance_value ≡ some value)
    × (((value ≡ pos 0) × (stock_adjusted event ≡ ok nothing_to_book))
        ⊎ ((e : JournalDraft) × (stock_adjusted event ≡ ok (only_entry e))
            × (net inventory e.lines ≡ value)
            × (net inventory_shrinkage e.lines ≡ neg value)))
posted_count_books_example = posted_count_books noon 5 short_count

abbrev at_till : Till.Env
at_till = record { now = 12; uuid = 50; event_uuid = 51; bus_up = true }

abbrev empty_shop : Till.Shop
empty_shop = record {
  products = [];
  transactions = [];
  transaction_sequence = 1;
  returns = [];
  return_sequence = 1;
  published = [];
  next_id = 100;
}

-- A service with one reservation, whose number is its state.
abbrev one_reservation : StockService ℕ
one_reservation = record {
  check_and_reserve_stock = λ sku location_code quantity reference s.
      (ok (record { available = true; reservation_id = s }), suc s);
  release_reservation = λ id s. (ok true, s);
}

-- Two pieces of 10.00 at 10 % off and 16 % tax, partly paid with a gift card.
abbrev two_soaps_paid : CheckoutRequest
two_soaps_paid = record {
  store_id = 3;
  register_id = 1;
  cashier_id = 9;
  location_code = 3;
  lines = record { sku = 7; quantity = pos 2 } ∷ [];
  payments =
      record { method = PaymentMethod.gift_card; amount = pos 1000 }
      ∷ record { method = PaymentMethod.cash; amount = pos 1088 }
      ∷ [];
}

abbrev soaps : List ReservedLine
soaps =
    record {
      sku = 7;
      product_id = 1;
      product_name = 70;
      quantity_sold = pos 2;
      unit_price = pos 1000;
      discount_amount = pos 200;
      tax_amount = pos 288;
      line_total = pos 2088;
      reservation_id = 0;
    }
    ∷ []

paid_sale_books_example :
    let r = pay_reserved one_reservation at_till two_soaps_paid soaps (empty_shop, 1) in
    let event = item_sold_event at_till two_soaps_paid soaps in
    (t : Till.Transaction) × (e : JournalDraft) × (r.0 ≡ ok t)
    × (r.1.0.published ≡ Till.Event.item_sold event ∷ [])
    × (item_sold (λ sku. ok (pos 600)) event
        ≡ ok (with_facts (facts_of (λ sku. pos 600) event event.lines) e))
    × IsPosted t (cost_of (λ sku. pos 600) soaps) e
unfolding item_sold_event ◌+ℤ◌ ◌*ℤ◌
paid_sale_books_example =
    paid_sale_books one_reservation (λ sku. pos 600) at_till two_soaps_paid soaps empty_shop 1 refl
      refl (omega arith) (omega arith, (omega arith, tt))
      ((omega arith, omega arith, omega arith), tt)

abbrev at_dock : Dock.Env
at_dock = record { now = 1000; uuid = 1; bus_up = true }

-- Ten are ordered, and eight of them are scanned.
abbrev truck : Dock.GoodsReceivedNote
truck = record {
  goods_received_note_number = 1001;
  po_number = 900;
  supplier_id = 4;
  received_at_location = 1;
  status = Dock.GoodsReceivedNoteStatus.draft;
  finalized_at = none;
  lines =
      record {
        sku = 70;
        product_name = 700;
        condition = Condition.good;
        quantity_ordered = pos 10;
        quantity_received = pos 8;
        discrepancy_type = DiscrepancyType.shortage;
        quarantined = false;
        notes = none;
      }
      ∷ [];
}

abbrev awaited : Dock.ExpectedDelivery
awaited = record {
  supplier_id = 4;
  supplier_name = 40;
  status = Dock.ExpectedDeliveryStatus.expected;
  lines =
      record { sku = 70; product_name = 700; quantity_ordered = pos 10; quantity_received = pos 0 }
      ∷ [];
}

abbrev dock : Dock.Receiving
dock = record { notes = (5, truck) ∷ []; deliveries = (900, awaited) ∷ []; published = [] }

abbrev truck_is_ready : IsReady 5 dock
truck_is_ready = record {
  note = truck;
  delivery = awaited;
  stored = refl;
  draft = refl;
  scanned = refl;
  awaited = refl;
}

abbrev ten_ordered : PurchaseOrder
ten_ordered = record {
  po_number = 900;
  supplier_id = 4;
  supplier_name = 40;
  payment_terms_days = 30;
  currency = 1;
  status = PurchaseOrderStatus.sent;
  total_amount = pos 50000;
  requested_by_id = 3;
  approved_by_id = some 2;
  approved_at = some 500;
  lines =
      record {
        sku = 70;
        product_name = 700;
        quantity_ordered = pos 10;
        unit_cost = pos 5000;
        quantity_received = pos 0;
      }
      ∷ [];
}

abbrev one_order : Orders
one_order = record {
  orders = (8, ten_ordered) ∷ [];
  processed_receipts = [];
  published = [];
  sequence = 1;
}

order_follows_delivery_example :
    ((finalize at_dock 5 dock).0 ≡ ok tt)
    × IsFollowed 900 8 dock one_order (finalize at_dock 5 dock).1
order_follows_delivery_example =
    order_follows_delivery at_dock 5 dock truck_is_ready one_order 8 ten_ordered ten_ordered refl
      refl refl refl refl
