-- ===== src/Financials/Ledger/Payables.antt =====
-- Supplier bills: how late they are, and their payment (services/financials/src/payables).
use merchandising_funnel_aut.Common.{
  if◌then◌else◌, number_key, pair_key, ℕ, ◌/◌, Bool, true, false, not, Option, none, some, [], ◌∷◌,
}
use merchandising_funnel_aut.Common.Action.{
  Error, Action, pure, throw, gets, lift, ◌>>=◌, ◌>>◌, throw_if, modify, transaction,
}
use merchandising_funnel_aut.Common.Int.{ℤ, ◌-ℤ◌, leb_ℤ, pos}
use merchandising_funnel_aut.Common.Table.{find, update}
use merchandising_funnel_aut.Financials.Accounts.{bank, accounts_payable}
use merchandising_funnel_aut.Financials.Journal.{
  EntrySource, JournalDraft, debit_line, credit_line, balanced,
}
use merchandising_funnel_aut.Financials.Ledger.{BillStatus, PayableBill, Books, create_entry}
use merchandising_funnel_aut.Financials.Plans.{day_ms}

-- Whole UTC days, from the due date to the date of the report.
abbrev pub days_overdue : ℕ → ℕ → ℤ
days_overdue due_date as_of = pos (as_of / day_ms) -ℤ pos (due_date / day_ms)

pub data AgingBucket : Type 0 where
  current up_to_30 up_to_60 up_to_90 over_90 : AgingBucket

unfoldable pub aging_bucket : ℤ → AgingBucket
aging_bucket days =
    if leb_ℤ days (pos 0)
    then AgingBucket.current
    else if leb_ℤ days (pos 30)
    then AgingBucket.up_to_30
    else if leb_ℤ days (pos 60)
    then AgingBucket.up_to_60
    else if leb_ℤ days (pos 90)
    then AgingBucket.up_to_90
    else AgingBucket.over_90

abbrev pub is_unpaid : PayableBill → Bool
is_unpaid b = elim b.status [ BillStatus.unpaid ↦ true | BillStatus.paid ↦ false ]

-- Dr Accounts payable, Cr Bank.
abbrev pub payment_entry : ℕ → ℕ → ℤ → JournalDraft
payment_entry id paid_at amount = record {
  occurred_at = paid_at;
  source = EntrySource.bill_payment;
  source_ref = (0, id);
  store_id = none;
  lines = debit_line accounts_payable amount ∷ credit_line bank amount ∷ [];
}

abbrev pub mark_paid : ℕ → ℕ → Option ℕ → Books → Books
mark_paid id paid_at reference s = record s {
  bills =
      update id
        (λ b. record b {
          status = BillStatus.paid;
          paid_at = some paid_at;
          payment_reference = reference;
        })
        s.bills;
}

abbrev pub is_unpaid_bill : Option PayableBill → Bool
is_unpaid_bill none = false
is_unpaid_bill (some b) = is_unpaid b

-- `PayablesRepository.pay`: the status guard of the update decides, in one transaction.
unfoldable pub pay_body : ℕ → ℕ → Option ℕ → JournalDraft → Bool → Action Books Bool
unfolding create_entry
pay_body id paid_at reference entry false = pure false
pay_body id paid_at reference entry true =
    modify (mark_paid id paid_at reference) >> create_entry entry >> pure true

unfoldable pub pay_once : ℕ → ℕ → Option ℕ → JournalDraft → Action Books Bool
unfolding pay_body
pay_once id paid_at reference entry =
    transaction
      (gets (λ s. is_unpaid_bill (find id s.bills)) >>= pay_body id paid_at reference entry)

unfoldable pub pay_found : ℕ → ℕ → Option ℕ → Option PayableBill → Action Books (Unit {0})
unfolding pay_once
pay_found id paid_at reference none = throw Error.not_found
pay_found id paid_at reference (some bill) =
    throw_if (not (is_unpaid bill)) Error.bad_request
    >> lift (balanced (payment_entry id paid_at bill.draft.amount))
    >>= λ entry.
        pay_once id paid_at reference entry >>= λ done. throw_if (not done) Error.bad_request

unfoldable pub pay : ℕ → ℕ → Option ℕ → Action Books (Unit {0})
unfolding pay_found
pay id paid_at reference s = pay_found id paid_at reference (find id s.bills) s

-- An open bill as the aging report counts it.
abbrev pub open_amount : PayableBill → ℤ
open_amount b = if is_unpaid b then b.draft.amount else pos 0
