-- ===== src/Financials/Tests.antt =====
-- Financials at concrete inputs.
use merchandising_funnel_aut.Common.{
  number_key, keep, All, ◌*◌, ◌≡◌, refl, ◌≢◌, ◌⊎◌, true, false, none, some, List, [], ◌∷◌,
}
use merchandising_funnel_aut.Events.{
  Condition, DiscrepancyType, GoodsReceivedEvent, AdjustmentKind, StockAdjustedEvent,
  DayClosedEvent,
}
use merchandising_funnel_aut.Common.Action.{Error, ok, err}
use merchandising_funnel_aut.Common.Int.{neg, pos, negsuc, int_laws, ◌+ℤ◌, ◌*ℤ◌}
use merchandising_funnel_aut.Financials.Accounts.{
  cash, inventory, accounts_payable, cash_over_short, inventory_shrinkage,
}
use merchandising_funnel_aut.Financials.Journal.{
  JournalDraft, has_amount, check_lines, check_totals, balanced, debits_of, credits_of,
}
use merchandising_funnel_aut.Financials.Ledger.{
  BillStatus, DomainEvent, Books, create_entry, create_bill, InboxEvent, InboxStatus, posted_event,
  book, commit_body, commit,
}
use merchandising_funnel_aut.Financials.Plans.{PostingPlan, nothing_to_book, net, billed, booked}
use merchandising_funnel_aut.Financials.Postings.{
  PurchaseOrder, default_currency_code, received_values, bill_of, receipt_entry, receipt_plan,
  goods_received, only_entry, day_closed, adjusted_value, stock_adjusted,
}
use merchandising_funnel_aut.Financials.Effects.Adjusted.{day_closed_books, stock_adjusted_books}
use merchandising_funnel_aut.Financials.Effects.Received.{worth, goods_received_books}
use merchandising_funnel_aut.Financials.Journal.Balance.{IsOneSided, balanced-ok, balanced_goes}
use merchandising_funnel_aut.Financials.Ledger.Backoff.{capped, backoff_ms_doubles}
use merchandising_funnel_aut.Common.Table.{find}
use merchandising_funnel_aut.Financials.Ledger.Delivery.{IsOnlyMarked, commit-again}
use merchandising_funnel_aut.Financials.Ledger.Inbox.{Services, backoff_ms}
use merchandising_funnel_aut.Financials.Ledger.Reconciliation.{IsReconciled}
use merchandising_funnel_aut.Financials.Ledger.Runs.{Step, run, run-IsReconciled}

abbrev delivered : GoodsReceivedEvent
delivered = record {
  event_id = 1;
  occurred_at = 2000;
  goods_received_note_number = 1001;
  po_number = 900;
  supplier_id = 4;
  received_at_location = 1;
  lines =
      record {
        sku = 70;
        product_name = 700;
        quantity_ordered = pos 10;
        quantity_received = pos 8;
        condition = Condition.good;
        discrepancy_type = DiscrepancyType.nothing;
      }
      ∷ record {
        sku = 70;
        product_name = 700;
        quantity_ordered = pos 0;
        quantity_received = pos 2;
        condition = Condition.damaged;
        discrepancy_type = DiscrepancyType.damage;
      }
      ∷ [];
}

abbrev dairy_order : PurchaseOrder
dairy_order = record {
  supplier_id = 4;
  currency = 404;
  payment_terms_days = 30;
  lines = record { sku = 70; unit_cost = pos 50 } ∷ [];
}

abbrev receipt_draft : JournalDraft
receipt_draft = receipt_entry delivered (pos 400 ∷ []) (pos 400)

receipt_draft_passes : balanced receipt_draft ≡ ok receipt_draft
unfolding balanced check_totals check_lines ◌+ℤ◌
receipt_draft_passes = refl

balanced-ok_example :
    (debits_of receipt_draft.lines ≡ credits_of receipt_draft.lines)
    × (receipt_draft.lines ≢ [])
    × All IsOneSided receipt_draft.lines
    × (receipt_draft ≡ record receipt_draft { lines = keep has_amount receipt_draft.lines })
    × (debits_of receipt_draft.lines ≡ debits_of receipt_draft.lines)
    × (credits_of receipt_draft.lines ≡ credits_of receipt_draft.lines)
balanced-ok_example = balanced-ok receipt_draft receipt_draft receipt_draft_passes

balanced_goes_example :
    balanced receipt_draft
    ≡ ok (record receipt_draft { lines = keep has_amount receipt_draft.lines })
balanced_goes_example = balanced_goes receipt_draft refl refl (omega int_laws)

abbrev receipt : PostingPlan
receipt = record {
  entry = some receipt_draft;
  bill = some (bill_of delivered dairy_order (pos 400));
  facts = [];
}

goods_received-receipt : goods_received (ok dairy_order) delivered ≡ ok receipt
unfolding goods_received received_values receipt_plan balanced check_totals check_lines ◌+ℤ◌ ◌*ℤ◌
goods_received-receipt = refl

goods_received_books_example :
    (po : PurchaseOrder) × (ok dairy_order ≡ ok po)
    × (po.currency ≡ default_currency_code)
    × (booked inventory receipt.entry ≡ worth po delivered.lines)
    × (booked accounts_payable receipt.entry ≡ neg (worth po delivered.lines))
    × (billed receipt.bill ≡ worth po delivered.lines)
goods_received_books_example =
    goods_received_books (ok dairy_order) delivered receipt goods_received-receipt

abbrev short_day : DayClosedEvent
short_day = record {
  event_id = 2;
  occurred_at = 3000;
  store_id = 1;
  business_date = 0;
  expected_total = pos 900;
  actual_counted_total = pos 850;
  discrepancy_amount = negsuc 49;
  closed_by_manager_id = 4;
}

day_closed_books_example :
    ((short_day.discrepancy_amount ≡ pos 0) × (day_closed short_day ≡ ok nothing_to_book))
    ⊎ ((e : JournalDraft) × (short_day.discrepancy_amount ≢ pos 0)
        × (day_closed short_day ≡ ok (only_entry e))
        × (net cash e.lines ≡ short_day.discrepancy_amount)
        × (net cash_over_short e.lines ≡ neg short_day.discrepancy_amount))
day_closed_books_example = day_closed_books short_day

abbrev counted_stock : StockAdjustedEvent
counted_stock = record {
  event_id = 3;
  occurred_at = 3000;
  kind = AdjustmentKind.stock_count;
  reference = 11;
  location_code = 1;
  description = 12;
  adjusted_by_id = 4;
  lines =
      record { sku = 70; product_name = 700; quantity_delta = negsuc 1; unit_cost = pos 50 } ∷ [];
}

stock_adjusted_books_example :
    ((adjusted_value counted_stock.lines ≡ pos 0)
      × (stock_adjusted counted_stock ≡ ok nothing_to_book))
    ⊎ ((e : JournalDraft) × (adjusted_value counted_stock.lines ≢ pos 0)
        × (stock_adjusted counted_stock ≡ ok (only_entry e))
        × (net inventory e.lines ≡ adjusted_value counted_stock.lines)
        × (net inventory_shrinkage e.lines ≡ neg (adjusted_value counted_stock.lines)))
stock_adjusted_books_example = stock_adjusted_books counted_stock

abbrev services_down : Services
services_down = record {
  purchase_order = λ number. err Error.unavailable;
  unit_cost = λ sku. err Error.unavailable;
  now = 5000;
  new_id = 60;
}

abbrev services_up : Services
services_up = record {
  purchase_order = λ number. ok dairy_order;
  unit_cost = λ sku. ok (pos 50);
  now = 9000;
  new_id = 61;
}

abbrev empty_books : Books
empty_books = record { entries = []; bills = []; facts = []; inbox = [] }

abbrev waiting : InboxEvent
waiting = record {
  payload = DomainEvent.goods_received delivered;
  status = InboxStatus.pending;
  attempts = 0;
  last_error = none;
  next_attempt = 0;
  posted_at = none;
}

-- The same delivery is stored under two events.
abbrev stored_books : Books
stored_books = record empty_books { inbox = (1, waiting) ∷ (5, waiting) ∷ [] }

abbrev steps : List Step
steps =
    Step.arrives services_up 1 (DomainEvent.goods_received delivered)
    ∷ Step.attempted services_down 1
    ∷ Step.attempted services_up 1
    ∷ Step.arrives services_up 5 (DomainEvent.goods_received delivered)
    ∷ Step.attempted services_up 5
    ∷ Step.pays 61 9500 none
    ∷ Step.pays 61 9600 none
    ∷ []

run-IsReconciled_example : IsReconciled (run steps empty_books)
run-IsReconciled_example = run-IsReconciled steps empty_books (tt, omega int_laws)

abbrev posted_books : Books
posted_books = record empty_books {
  inbox = (1, posted_event 5000 waiting) ∷ (5, waiting) ∷ [];
  entries = receipt_draft ∷ [];
  bills =
      (
        60,
        record {
          draft = bill_of delivered dairy_order (pos 400);
          status = BillStatus.unpaid;
          paid_at = none;
          payment_reference = none;
        },
      )
      ∷ [];
}

receipt_committed : commit 5000 60 receipt 1 stored_books ≡ (ok false, posted_books)
unfolding commit commit_body book create_entry create_bill
receipt_committed = refl

commit-again_example :
    let r = commit 9000 61 receipt 5 posted_books in
    ((event : InboxEvent) × (find 5 posted_books.inbox ≡ some event)
      × (r.0 ≡ ok true)
      × IsOnlyMarked 9000 5 event posted_books r.1)
    ⊎ ((find 5 posted_books.inbox ≡ none) × (r ≡ (err Error.not_found, posted_books)))
commit-again_example =
    commit-again 5000 60 1 9000 61 5 receipt receipt receipt_draft receipt_draft false stored_books
      posted_books refl refl refl receipt_committed

backoff_ms_doubles_example : (backoff_ms 1 ≡ 15_000) × (backoff_ms 10 ≡ capped (2 * backoff_ms 9))
backoff_ms_doubles_example = backoff_ms_doubles 8
