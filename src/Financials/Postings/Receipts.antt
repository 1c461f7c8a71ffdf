-- ===== src/Financials/Postings/Receipts.antt =====
-- The posting of received goods (services/financials/src/postings/postings.service.ts).
use merchandising_funnel_aut.Common.{
  ℕ, ◌+◌, ◌*◌, Bool, true, false, not, Option, none, some, List, [], ◌∷◌, ◌++◌, map, ◌==◌,
  if◌then◌else◌, find_where, sum_of,
}
use merchandising_funnel_aut.Common.Int.{ℤ, pos, ◌*ℤ◌, leb_ℤ, ◌==ℤ◌}
use merchandising_funnel_aut.Common.Action.{Error, Result, ok, err, map_ok, bind_ok}
use merchandising_funnel_aut.Events.{GoodsReceivedEvent, GoodsReceivedLine, Condition}
use merchandising_funnel_aut.Financials.Accounts.{inventory, accounts_payable}
use merchandising_funnel_aut.Financials.Journal.{
  JournalDraft, EntrySource, balanced, debit_line, credit_line,
}
use merchandising_funnel_aut.Financials.Plans.{BillDraft, PostingPlan, nothing_to_book, day_ms}

pub record PoLine : Type 0 where
  pub sku : ℕ
  pub unit_cost : ℤ

-- What Procurement answers about a purchase order.
pub record PurchaseOrder : Type 0 where
  pub supplier_id : ℕ
  pub currency : ℕ
  pub payment_terms_days : ℕ
  pub lines : List PoLine

-- DEFAULT_CURRENCY_CODE, KES, by its number.
abbrev pub default_currency_code : ℕ
default_currency_code = 404

abbrev pub is_damaged : Condition → Bool
is_damaged Condition.damaged = true
is_damaged Condition.good = false

-- The value of a line at the unit cost of the order's line for its SKU.
abbrev pub line_value : Option PoLine → GoodsReceivedLine → Result ℤ
line_value none line = err Error.permanent
line_value (some po_line) line = ok (po_line.unit_cost *ℤ line.quantity_received)

-- The values of the lines that are booked. A SKU that is not on the order stops the loop.
unfoldable pub received_values : PurchaseOrder → List GoodsReceivedLine → Result (List ℤ)
received_values po [] = ok []
received_values po (line ∷ lines) =
    let rest = received_values po lines in
    if is_damaged line.condition
    then rest
    else if leb_ℤ line.quantity_received (pos 0)
    then rest
    else bind_ok (line_value (find_where (λ l. l.sku == line.sku) po.lines) line)
        λ value. map_ok (λ values. value ∷ values) rest

abbrev pub bill_of : GoodsReceivedEvent → PurchaseOrder → ℤ → BillDraft
bill_of event po total = record {
  goods_received_note_number = event.goods_received_note_number;
  po_number = event.po_number;
  supplier_id = po.supplier_id;
  amount = total;
  currency = po.currency;
  bill_date = event.occurred_at;
  due_date = event.occurred_at + po.payment_terms_days * day_ms;
}

abbrev pub receipt_entry : GoodsReceivedEvent → List ℤ → ℤ → JournalDraft
receipt_entry event values total = record {
  occurred_at = event.occurred_at;
  source = EntrySource.goods_received;
  source_ref = (0, event.goods_received_note_number);
  store_id = none;
  lines = map (debit_line inventory) values ++ credit_line accounts_payable total ∷ [];
}

unfoldable pub receipt_plan : GoodsReceivedEvent → PurchaseOrder → List ℤ → Result PostingPlan
receipt_plan event po values =
    let total = sum_of (λ v. v) values in
    if total ==ℤ pos 0
    then ok nothing_to_book
    else map_ok (λ e. record { entry = some e; bill = some (bill_of event po total); facts = [] })
        (balanced (receipt_entry event values total))

-- FR-8.1: goods in, and one supplier bill. Damaged units are not booked.
unfoldable pub goods_received : Result PurchaseOrder → GoodsReceivedEvent → Result PostingPlan
unfolding received_values receipt_plan
goods_received purchase_order event = bind_ok purchase_order λ po.
    if not (po.currency == default_currency_code)
    then err Error.permanent
    else bind_ok (received_values po event.lines) (receipt_plan event po)
