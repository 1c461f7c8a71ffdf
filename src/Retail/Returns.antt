-- ===== src/Retail/Returns.antt =====
-- ReturnsService (services/retail-sales/src/returns/returns.service.ts, returns.repository.ts).
use merchandising_funnel_aut.Common.{
  if◌then◌else◌, number_key, pair_key, sum_of, ℕ, suc, ◌+◌, Bool, true, ◌&&◌, Option, none, some,
  List, [], ◌∷◌, map,
}
use merchandising_funnel_aut.Events.{ItemReturnedLine, ItemReturnedEvent}
use merchandising_funnel_aut.Common.Action.{
  Error, Result, Action, pure, or_throw, lift, ◌>>=◌, ◌>>◌, map_ok, bind_ok, ok, err,
}
use merchandising_funnel_aut.Common.Double.{hundredths, number, ◌*d◌, ◌/d◌, round2}
use merchandising_funnel_aut.Common.Int.{ℤ, ◌+ℤ◌, ◌-ℤ◌, ltb_ℤ, leb_ℤ}
use merchandising_funnel_aut.Common.Table.{Table, find, update}
use merchandising_funnel_aut.Retail.State.{
  Env, publish, TransactionStatus, TransactionLine, Transaction, ReturnLine, ReturnTransaction,
  Event, Shop,
}

pub record RequestedLine : Type 0 where
  pub transaction_line_id : ℕ
  pub quantity_returned : ℤ

pub record ReturnRequest : Type 0 where
  pub original_transaction_id : ℕ
  pub store_id : ℕ
  pub register_id : ℕ
  pub lines : List RequestedLine

-- `round2((lineTotal / quantitySold) * quantityReturned)`, in doubles
unfoldable pub refund_for : TransactionLine → ℤ → ℤ
refund_for line quantity =
    round2 (hundredths line.line_total /d number line.quantity_sold *d number quantity)

unfoldable pub return_line : TransactionLine → RequestedLine → ReturnLine
unfolding refund_for
return_line line requested = record {
  transaction_line_id = requested.transaction_line_id;
  sku = line.sku;
  product_name = line.product_name;
  quantity_returned = requested.quantity_returned;
  location_code = line.location_code;
  refund_amount = refund_for line requested.quantity_returned;
}

abbrev pub remaining : TransactionLine → ℤ
remaining line = line.quantity_sold -ℤ line.quantity_returned

unfoldable pub checked_line : RequestedLine → Option TransactionLine → Result ReturnLine
unfolding return_line
checked_line requested none = err Error.bad_request
checked_line requested (some line) =
    if ltb_ℤ (remaining line) requested.quantity_returned
    then err Error.bad_request
    else ok (return_line line requested)

-- Each requested line, against the lines as they are before the return.
unfoldable pub checked_lines :
    Table ℕ TransactionLine → List RequestedLine → Result (List ReturnLine)
unfolding checked_line
checked_lines lines [] = ok []
checked_lines lines (requested ∷ rest) =
    let others = checked_lines lines rest in
    bind_ok (checked_line requested (find requested.transaction_line_id lines))
      λ line. map_ok (λ checked. line ∷ checked) others

abbrev pub add_returned : ℤ → TransactionLine → TransactionLine
add_returned quantity line = record line { quantity_returned = line.quantity_returned +ℤ quantity }

-- The increments of `createWithLineIncrements`, one after the other.
unfoldable pub increment_lines : List ReturnLine → Table ℕ TransactionLine → Table ℕ TransactionLine
increment_lines [] lines = lines
increment_lines (r ∷ rest) lines =
    increment_lines rest (update r.transaction_line_id (add_returned r.quantity_returned) lines)

abbrev pub every_line : (TransactionLine → Bool) → Table ℕ TransactionLine → Bool
every_line p [] = true
every_line p ((_, l) ∷ t) = p l && every_line p t

unfoldable pub fully_returned : Table ℕ TransactionLine → Bool
fully_returned = every_line (λ l. leb_ℤ l.quantity_sold l.quantity_returned)

-- The transaction with its lines as refreshed, and its status.
unfoldable pub returned_transaction : List ReturnLine → Transaction → Transaction
unfolding increment_lines fully_returned
returned_transaction checked t =
    let lines = increment_lines checked t.lines in
    record t {
      lines = lines;
      status = if fully_returned lines then TransactionStatus.returned else t.status;
    }

unfoldable pub return_receipt : Env → ReturnRequest → List ReturnLine → Shop → ReturnTransaction
return_receipt env dto checked s = record {
  id = env.uuid;
  sequence = s.return_sequence;
  return_number = 1000 + s.return_sequence;
  original_transaction_id = dto.original_transaction_id;
  store_id = dto.store_id;
  register_id = dto.register_id;
  refund_amount = sum_of (λ l. l.refund_amount) checked;
  created_at = env.now;
  lines = checked;
}

abbrev pub returned_line : ReturnLine → ItemReturnedLine
returned_line l = record {
  sku = l.sku;
  product_name = l.product_name;
  quantity_returned = l.quantity_returned;
  location_code = l.location_code;
  refund_amount = l.refund_amount;
}

unfoldable pub item_returned_event : Env → ReturnRequest → List ReturnLine → ItemReturnedEvent
item_returned_event env dto checked = record {
  event_id = env.event_uuid;
  occurred_at = env.now;
  return_id = env.uuid;
  original_transaction_id = dto.original_transaction_id;
  store_id = dto.store_id;
  register_id = dto.register_id;
  lines = map returned_line checked;
}

-- The receipt and the increments, the status, and then the event.
unfoldable pub write_return : Env → ReturnRequest → List ReturnLine → Action Shop ReturnTransaction
unfolding return_receipt returned_transaction item_returned_event
write_return env dto checked s =
    let receipt = return_receipt env dto checked s in
    (publish env (Event.item_returned (item_returned_event env dto checked)) >> pure receipt)
      (record s {
        returns = receipt ∷ s.returns;
        return_sequence = suc s.return_sequence;
        transactions =
            update dto.original_transaction_id (returned_transaction checked) s.transactions;
      })

-- FR-6.4
unfoldable pub process_return : Env → ReturnRequest → Action Shop ReturnTransaction
unfolding checked_lines write_return
process_return env dto s =
    (or_throw (find dto.original_transaction_id s.transactions) Error.not_found >>= λ transaction.
    lift (checked_lines transaction.lines dto.lines) >>= write_return env dto)
      s
