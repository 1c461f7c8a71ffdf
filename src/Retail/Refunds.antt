-- ===== src/Retail/Refunds.antt =====
-- A return that names one line twice (services/retail-sales/src/returns).
use merchandising_funnel_aut.Common.{
  ==_iff, number_key, pair_key, ℕ, ◌≡◌, refl, true, false, some, List, [], ◌∷◌, arith,
}
use merchandising_funnel_aut.Common.Action.{ok}
use merchandising_funnel_aut.Common.Int.{ℤ, ◌+ℤ◌, ◌≤ℤ◌, ◌<ℤ◌, ltb_ℤ, int_laws}
use merchandising_funnel_aut.Common.Table.{Table, find, find-update}
use merchandising_funnel_aut.Retail.Returns.{
  RequestedLine, ReturnRequest, return_line, remaining, checked_line, checked_lines, add_returned,
  increment_lines, returned_transaction, write_return, process_return,
}
use merchandising_funnel_aut.Retail.State.{
  Env, TransactionLine, Transaction, ReturnLine, ReturnTransaction, Shop,
}

-- One requested line that is named twice.
abbrev pub twice : ℕ → ℤ → List RequestedLine
twice id quantity =
    let requested : RequestedLine = record {
      transaction_line_id = id;
      quantity_returned = quantity;
    } in
    requested ∷ requested ∷ []

checked_lines-twice :
    (id : ℕ) (quantity : ℤ) (lines : Table ℕ TransactionLine) (l : TransactionLine)
    → find id lines ≡ some l
    → quantity ≤ℤ remaining l
    → (r : ReturnLine) × (checked_lines lines (twice id quantity) ≡ ok (r ∷ r ∷ []))
      × (r.transaction_line_id ≡ id)
      × (r.quantity_returned ≡ quantity)
unfolding checked_lines checked_line return_line
checked_lines-twice id quantity lines l e h =
    let enough : ltb_ℤ (remaining l) quantity ≡ false = ground arith in
    (
      return_line l (record { transaction_line_id = id; quantity_returned = quantity }),
      rw (e, checked_line, enough) refl,
      refl,
      refl,
    )

increment_lines-twice :
    (id : ℕ) (quantity : ℤ) (lines : Table ℕ TransactionLine) (l : TransactionLine) (r : ReturnLine)
    → find id lines ≡ some l
    → r.transaction_line_id ≡ id
    → r.quantity_returned ≡ quantity
    → find id (increment_lines (r ∷ r ∷ []) lines)
      ≡ some (add_returned quantity (add_returned quantity l))
unfolding increment_lines
increment_lines-twice id quantity lines l r e i q =
    rw (i, q, find-update, find-update, e) (ground (arith, ==_iff id id))

-- The check of a return compares each requested line with the lines as they were before it: a
-- request that names one line twice, each time with a quantity that is left but not twice over, is
-- accepted, and more of the line has come back than was sold.
pub repeated_line_returns_too_much :
    (env : Env) (store register order id : ℕ) (quantity : ℤ) (s : Shop) (t : Transaction)
    (l : TransactionLine)
    → find order s.transactions ≡ some t
    → find id t.lines ≡ some l
    → quantity ≤ℤ remaining l
    → remaining l <ℤ quantity +ℤ quantity
    → env.bus_up ≡ true
    → let dto : ReturnRequest = record {
      original_transaction_id = order;
      store_id = store;
      register_id = register;
      lines = twice id quantity;
    } in
      let r = process_return env dto s in
      (receipt : ReturnTransaction) × (t' : Transaction) × (l' : TransactionLine) × (r.0
        ≡ ok receipt)
      × (find order r.1.transactions ≡ some t')
      × (find id t'.lines ≡ some l')
      × (l'.quantity_sold <ℤ l'.quantity_returned)
unfolding process_return write_return returned_transaction
repeated_line_returns_too_much env store register order id quantity s t l known e h over up =
    let (r, passed, i, q) = checked_lines-twice id quantity t.lines l e h in
    rw (known, passed, up, find-update, known)
      (
        _,
        returned_transaction (r ∷ r ∷ []) t,
        _,
        refl,
        ground (arith, ==_iff order order),
        increment_lines-twice id quantity t.lines l r e i q,
        omega int_laws,
      )
