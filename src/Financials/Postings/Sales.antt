-- ===== src/Financials/Postings/Sales.antt =====
-- The postings of a sale and of a return (services/financials/src/postings/postings.service.ts).
use merchandising_funnel_aut.Common.{
  ℕ, Option, none, some, List, [], ◌∷◌, ◌++◌, ◌==◌, if◌then◌else◌, find_where, sum_of, number_key,
}
use merchandising_funnel_aut.Common.Int.{ℤ, pos, ◌+ℤ◌, ◌-ℤ◌, ◌*ℤ◌, neg, ltb_ℤ}
use merchandising_funnel_aut.Common.Double.{hundredths, ◌+d◌, ◌*d◌, ◌/d◌, round2}
use merchandising_funnel_aut.Common.Table.{Table, upsert}
use merchandising_funnel_aut.Common.Action.{Result, ok, map_ok, bind_ok}
use merchandising_funnel_aut.Events.{
  ItemSoldEvent, ItemSoldLine, ItemReturnedEvent, ItemReturnedLine, PaymentMethod,
  PaymentMethodCapture,
}
use merchandising_funnel_aut.Financials.Accounts.{
  cash, card_receivable, gift_cards, inventory, vat_payable, sales, sales_returns, cogs,
}
use merchandising_funnel_aut.Financials.Journal.{
  JournalLineDraft, JournalDraft, EntrySource, balanced, debit_line, credit_line,
}
use merchandising_funnel_aut.Financials.Plans.{SaleFactDraft, PostingPlan, business_date}

-- PAYMENT_ACCOUNT
abbrev pub payment_account : PaymentMethod → ℕ
payment_account PaymentMethod.cash = cash
payment_account PaymentMethod.card = card_receivable
payment_account PaymentMethod.gift_card = gift_cards

abbrev pub sale_fact : ItemSoldEvent → ItemSoldLine → ℤ → SaleFactDraft
sale_fact event line cost = record {
  occurred_at = event.occurred_at;
  business_date = business_date event.occurred_at;
  store_id = event.store_id;
  transaction_id = event.transaction_id;
  return_id = none;
  sku = line.sku;
  product_name = line.product_name;
  quantity = line.quantity_sold;
  revenue = line.line_total -ℤ line.tax_amount;
  tax_amount = line.tax_amount;
  cogs = cost *ℤ line.quantity_sold;
  unit_cost = cost;
}

-- One fact for each line, at Inventory's unit cost of its SKU.
unfoldable pub sale_facts :
    (ℕ → Result ℤ) → ItemSoldEvent → List ItemSoldLine → Result (List SaleFactDraft)
sale_facts get_unit_cost event [] = ok []
sale_facts get_unit_cost event (line ∷ lines) =
    let rest = sale_facts get_unit_cost event lines in
    bind_ok (get_unit_cost line.sku)
      λ cost. map_ok (λ facts. sale_fact event line cost ∷ facts) rest

-- The takings of each account, in the order in which it is first paid to.
unfoldable pub takings : Table ℕ ℤ → List PaymentMethodCapture → Table ℕ ℤ
takings payments [] = payments
takings payments (p ∷ ps) =
    takings (upsert (payment_account p.method) p.amount (λ v. v +ℤ p.amount) payments) ps

abbrev pub taking_lines : Table ℕ ℤ → List JournalLineDraft
taking_lines [] = []
taking_lines ((account_code, amount) ∷ t) = debit_line account_code amount ∷ taking_lines t

abbrev pub total_revenue : List SaleFactDraft → ℤ
total_revenue = sum_of (λ f. f.revenue)

abbrev pub total_tax : List SaleFactDraft → ℤ
total_tax = sum_of (λ f. f.tax_amount)

abbrev pub total_cogs : List SaleFactDraft → ℤ
total_cogs = sum_of (λ f. f.cogs)

abbrev pub sale_lines : List SaleFactDraft → List JournalLineDraft
sale_lines facts =
    credit_line sales (total_revenue facts)
    ∷ credit_line vat_payable (total_tax facts)
    ∷ debit_line cogs (total_cogs facts)
    ∷ credit_line inventory (total_cogs facts)
    ∷ []

abbrev pub with_facts : List SaleFactDraft → JournalDraft → PostingPlan
with_facts facts e = record { entry = some e; bill = none; facts = facts }

unfoldable pub sale_entry : ItemSoldEvent → List SaleFactDraft → JournalDraft
unfolding takings
sale_entry event facts = record {
  occurred_at = event.occurred_at;
  source = EntrySource.item_sold;
  source_ref = (0, event.transaction_id);
  store_id = some event.store_id;
  lines = taking_lines (takings [] event.payment_methods) ++ sale_lines facts;
}

unfoldable pub sale_plan : ItemSoldEvent → List SaleFactDraft → Result PostingPlan
unfolding sale_entry
sale_plan event facts = map_ok (with_facts facts) (balanced (sale_entry event facts))

-- FR-8.2: takings by payment method, revenue net of VAT, VAT, and the cost of the goods sold.
unfoldable pub item_sold : (ℕ → Result ℤ) → ItemSoldEvent → Result PostingPlan
unfolding sale_facts sale_plan
item_sold get_unit_cost event =
    bind_ok (sale_facts get_unit_cost event event.lines) (sale_plan event)

-- The tax in a refund, at the share of tax in the original sale, in doubles.
abbrev pub refunded_tax : Option SaleFactDraft → ℤ → ℤ
refunded_tax none refund = pos 0
refunded_tax (some sold) refund =
    let gross = hundredths sold.revenue +d hundredths sold.tax_amount in
    if ltb_ℤ (pos 0) gross.numerator
    then round2 (hundredths refund *d (hundredths sold.tax_amount /d gross))
    else pos 0

abbrev pub returned_cost : (ℕ → Result ℤ) → Option SaleFactDraft → ℕ → Result ℤ
returned_cost get_unit_cost none sku = get_unit_cost sku
returned_cost get_unit_cost (some sold) sku = ok sold.unit_cost

abbrev pub return_fact : ItemReturnedEvent → ItemReturnedLine → ℤ → ℤ → SaleFactDraft
return_fact event line tax cost = record {
  occurred_at = event.occurred_at;
  business_date = business_date event.occurred_at;
  store_id = event.store_id;
  transaction_id = event.original_transaction_id;
  return_id = some event.return_id;
  sku = line.sku;
  product_name = line.product_name;
  quantity = neg line.quantity_returned;
  revenue = neg (line.refund_amount -ℤ tax);
  tax_amount = neg tax;
  cogs = neg (cost *ℤ line.quantity_returned);
  unit_cost = cost;
}

-- One fact for each returned line, against the original sale's fact of its SKU.
unfoldable pub return_facts :
    (ℕ → Result ℤ)
    → List SaleFactDraft
    → ItemReturnedEvent
    → List ItemReturnedLine
    → Result (List SaleFactDraft)
return_facts get_unit_cost original event [] = ok []
return_facts get_unit_cost original event (line ∷ lines) =
    let rest = return_facts get_unit_cost original event lines in
    let sold = find_where (λ f. f.sku == line.sku) original in
    bind_ok (returned_cost get_unit_cost sold line.sku) λ cost.
      map_ok (λ facts. return_fact event line (refunded_tax sold line.refund_amount) cost ∷ facts)
        rest

abbrev pub total_refund : List ItemReturnedLine → ℤ
total_refund = sum_of (λ l. l.refund_amount)

abbrev pub return_lines : ℤ → List SaleFactDraft → List JournalLineDraft
return_lines refund facts =
    debit_line sales_returns (neg (total_revenue facts))
    ∷ debit_line vat_payable (neg (total_tax facts))
    ∷ credit_line cash refund
    ∷ debit_line inventory (neg (total_cogs facts))
    ∷ credit_line cogs (neg (total_cogs facts))
    ∷ []

unfoldable pub return_plan : ItemReturnedEvent → List SaleFactDraft → Result PostingPlan
return_plan event facts = map_ok (with_facts facts) (
    balanced (record {
      occurred_at = event.occurred_at;
      source = EntrySource.item_returned;
      source_ref = (0, event.return_id);
      store_id = some event.store_id;
      lines = return_lines (total_refund event.lines) facts;
    }))

-- D-14: a refund reverses revenue, VAT and cost at the original sale's split, and leaves in cash.
unfoldable pub item_returned :
    (ℕ → Result ℤ) → List SaleFactDraft → ItemReturnedEvent → Result PostingPlan
unfolding return_facts return_plan
item_returned get_unit_cost original event =
    bind_ok (return_facts get_unit_cost original event event.lines) (return_plan event)
