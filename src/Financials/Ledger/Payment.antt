-- ===== src/Financials/Ledger/Payment.antt =====
-- The payment of a bill in the books (services/financials/src/payables).
use merchandising_funnel_aut.Common.{
  Bool-cases, number_key, pair_key, ℕ, ◌≡◌, refl, sym, ap, ◌∙◌, inl, inr, Bool, true, false, not,
  Option, none, some,
}
use merchandising_funnel_aut.Common.Action.{
  Error, Result, pure, gets, lift, ◌>>=◌, throw_if, Keeps, Keeps-resume, resume-ok,
  transaction_keeps, ok, err,
}
use merchandising_funnel_aut.Common.Int.{ℤ, ◌+ℤ◌, neg, pos, int_laws}
use merchandising_funnel_aut.Common.Table.{find, total-update}
use merchandising_funnel_aut.Financials.Accounts.{accounts_payable}
use merchandising_funnel_aut.Financials.Journal.{JournalDraft, balanced}
use merchandising_funnel_aut.Financials.Ledger.{BillStatus, PayableBill, Books, create_entry}
use merchandising_funnel_aut.Financials.Plans.{net, net-balanced}
use merchandising_funnel_aut.Financials.Effects.Matching.{IsEven}
use merchandising_funnel_aut.Financials.Journal.Balance.{balanced-ok}
use merchandising_funnel_aut.Financials.Ledger.Payables.{
  is_unpaid, payment_entry, mark_paid, is_unpaid_bill, pay_body, pay_once, pay_found, pay,
  open_amount,
}
use merchandising_funnel_aut.Financials.Ledger.Reconciliation.{IsReconciled, create_planned-ok}

paid_off : (a before after : ℤ) → after +ℤ a ≡ before +ℤ pos 0 → a +ℤ neg before ≡ neg after
paid_off a before after h =
    let e : before ≡ after +ℤ a =
      let z : before +ℤ pos 0 ≡ before = omega int_laws in sym z ∙ sym h in
    rw e (omega int_laws)

paid-IsReconciled :
    (id paid_at : ℕ) (reference : Option ℕ) (entry : JournalDraft) (bill : PayableBill)
    (s t : Books)
    → find id s.bills ≡ some bill
    → is_unpaid bill ≡ true
    → IsEven entry
    → net accounts_payable entry.lines ≡ bill.draft.amount
    → IsReconciled s
    → create_entry entry (mark_paid id paid_at reference s) ≡ (ok tt, t)
    → IsReconciled t
paid-IsReconciled id paid_at reference entry bill s t here unpaid even amount (all, owed) h =
    let (evens, net_after, bills) =
      create_planned-ok (some entry) (mark_paid id paid_at reference s) t even all h in
    let changed =
      total-update open_amount id
        (λ b. record b {
          status = BillStatus.paid;
          paid_at = some paid_at;
          payment_reference = reference;
        })
        {v = bill} s.bills here in
    (evens, net_after ∙ rw (bills, amount, owed) (paid_off _ _ _ (rw unpaid at changed)))

pay_body-IsReconciled :
    (id paid_at : ℕ) (reference : Option ℕ) (entry : JournalDraft) (bill : PayableBill)
    (s t : Books) (guard done : Bool)
    → find id s.bills ≡ some bill
    → is_unpaid bill ≡ true
    → IsEven entry
    → net accounts_payable entry.lines ≡ bill.draft.amount
    → IsReconciled s
    → pay_body id paid_at reference entry guard s ≡ (ok done, t)
    → IsReconciled t
unfolding pay_body
pay_body-IsReconciled id paid_at reference entry bill s t false done here unpaid even amount good
      h =
    let same : s ≡ t = ap (λ p. p.1) h in rw (← same) good
pay_body-IsReconciled id paid_at reference entry bill s t true done here unpaid even amount good h =
    let (a, u, created, last) =
      resume-ok (λ _. pure true) (create_entry entry (mark_paid id paid_at reference s)) h in
    let same : u ≡ t = ap (λ p. p.1) last in
    rw (← same)
      (paid-IsReconciled id paid_at reference entry bill s u here unpaid even amount good created)

pay_once-IsReconciled :
    (id paid_at : ℕ) (reference : Option ℕ) (entry : JournalDraft) (bill : PayableBill) (s : Books)
    → find id s.bills ≡ some bill
    → is_unpaid bill ≡ true
    → IsEven entry
    → net accounts_payable entry.lines ≡ bill.draft.amount
    → IsReconciled s
    → IsReconciled (pay_once id paid_at reference entry s).1
unfolding pay_once
pay_once-IsReconciled id paid_at reference entry bill s here unpaid even amount good =
    transaction_keeps IsReconciled
      (gets (λ u. is_unpaid_bill (find id u.bills)) >>= pay_body id paid_at reference entry) s good
      (λ done t h.
        pay_body-IsReconciled id paid_at reference entry bill s t _ done here unpaid even amount
          good h)

pay_entry-IsReconciled :
    (id paid_at : ℕ) (reference : Option ℕ) (bill : PayableBill) (s : Books)
    (entry : Result JournalDraft)
    → balanced (payment_entry id paid_at bill.draft.amount) ≡ entry
    → find id s.bills ≡ some bill
    → is_unpaid bill ≡ true
    → IsReconciled s
    → IsReconciled
        ((lift entry >>= λ e.
            pay_once id paid_at reference e >>= λ done. throw_if (not done) Error.bad_request)
          s).1
pay_entry-IsReconciled id paid_at reference bill s (err e) passed here unpaid good = good
pay_entry-IsReconciled id paid_at reference bill s (ok entry) passed here unpaid good =
    Keeps-resume IsReconciled (λ done. throw_if (not done) Error.bad_request) (λ done u kept. kept)
      (pay_once id paid_at reference entry s).0 (pay_once id paid_at reference entry s).1
      (pay_once-IsReconciled id paid_at reference entry bill s here unpaid
        ((balanced-ok (payment_entry id paid_at bill.draft.amount) entry passed).0)
        (net-balanced accounts_payable (payment_entry id paid_at bill.draft.amount) entry passed
          ∙ omega int_laws)
        good)

pay_found-IsReconciled :
    (id paid_at : ℕ) (reference : Option ℕ) (found : Option PayableBill) (s : Books)
    → find id s.bills ≡ found
    → IsReconciled s
    → IsReconciled (pay_found id paid_at reference found s).1
unfolding pay_found
pay_found-IsReconciled id paid_at reference none s here good = good
pay_found-IsReconciled id paid_at reference (some bill) s here good =
    elim (Bool-cases (is_unpaid bill)) [
      | inl unpaid ↦
          rw unpaid (pay_entry-IsReconciled id paid_at reference bill s _ refl here unpaid good)
      | inr paid ↦ rw paid good
    ]

pub pay-IsReconciled :
    (id paid_at : ℕ) (reference : Option ℕ) → Keeps IsReconciled (pay id paid_at reference)
unfolding pay
pay-IsReconciled id paid_at reference s good =
    pay_found-IsReconciled id paid_at reference (find id s.bills) s refl good
