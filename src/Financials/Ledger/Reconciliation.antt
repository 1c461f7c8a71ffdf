-- ===== src/Financials/Ledger/Reconciliation.antt =====
-- The accounts-payable control account against the supplier bills
-- (services/financials/src/ledger/ledger.repository.ts, inbox, payables).
use merchandising_funnel_aut.Common.{
  Bool-cases, number_key, pair_key, any, sum_of, All, ℕ, Bool, ◌⊎◌, ◌≡◌, refl, ap, ◌∙◌, inl, inr,
  true, false, Option, none, some, List, ◌∷◌,
}
use merchandising_funnel_aut.Common.Action.{
  Error, pure, or_throw, ◌>>◌, modify, when, resume-ok, or_throw-ok, ok-injective,
  transaction_keeps, ok,
}
use merchandising_funnel_aut.Common.Int.{ℤ, ◌+ℤ◌, neg, int_laws}
use merchandising_funnel_aut.Common.Table.{find, total, total-create}
use merchandising_funnel_aut.Financials.Accounts.{accounts_payable}
use merchandising_funnel_aut.Financials.Journal.{JournalDraft}
use merchandising_funnel_aut.Financials.Ledger.{
  Books, same_document, create_entry, has_bill_for, create_bill, create_facts, mark_posted,
  set_posted, InboxEvent, is_booked_already, create_planned, book, commit_body, commit,
}
use merchandising_funnel_aut.Financials.Plans.{BillDraft, PostingPlan, net, billed, booked}
use merchandising_funnel_aut.Financials.Effects.Matching.{IsEven, IsEvenPlan, IsMatched}
use merchandising_funnel_aut.Financials.Ledger.Payables.{open_amount}

-- Debits less credits on an account, over all entries.
abbrev pub ledger_net : ℕ → List JournalDraft → ℤ
ledger_net code = sum_of (λ e. net code e.lines)

-- Every entry is even, and what the accounts payable owe is what the unpaid bills come to.
abbrev pub IsReconciled : Books → Type 0
IsReconciled s =
    All IsEven s.entries × (ledger_net accounts_payable s.entries ≡ neg (total open_amount s.bills))

-- What a committed entry and bill leave.
pub create_planned-ok :
    (entry : Option JournalDraft) (s : Books) (t : Books)
    → IsEvenPlan entry
    → All IsEven s.entries
    → create_planned entry s ≡ (ok tt, t)
    → All IsEven t.entries
      × (ledger_net accounts_payable t.entries
          ≡ booked accounts_payable entry +ℤ ledger_net accounts_payable s.entries)
      × (t.bills ≡ s.bills)
unfolding create_entry
create_planned-ok none s t even all h =
    let e : s ≡ t = ap (λ p. p.1) h in rw (← e) (all, omega int_laws, refl)
create_planned-ok (some e) s t even all h = elim (Bool-cases (any (same_document e) s.entries)) [
  | inl taken ↦ absurd (cc (ap (λ p. p.0) (rw taken at h)))
  | inr fresh ↦
      let same : record s { entries = e ∷ s.entries } ≡ t = ap (λ p. p.1) (rw fresh at h) in
      rw (← same) ((even, all), refl, refl)
]

pub create_bill-ok :
    (id : ℕ) (bill : Option BillDraft) (s : Books) (t : Books)
    → create_bill id bill s ≡ (ok tt, t)
    → (t.entries ≡ s.entries)
      × (total open_amount t.bills ≡ total open_amount s.bills +ℤ billed bill)
unfolding create_bill
create_bill-ok id none s t h = let e : s ≡ t = ap (λ p. p.1) h in rw (← e) (refl, omega int_laws)
create_bill-ok id (some b) s t h =
    elim (Bool-cases (has_bill_for b.goods_received_note_number s.bills)) [
      | inl taken ↦ absurd (cc (ap (λ p. p.0) (rw taken at h)))
      | inr fresh ↦
          let same = ap (λ p. p.1) (rw fresh at h) in
          rw (← same) (refl, total-create open_amount id _ s.bills)
    ]

book-Reconciled :
    (id : ℕ) (plan : PostingPlan) (s t : Books)
    → IsMatched plan
    → IsReconciled s
    → book id plan s ≡ (ok tt, t)
    → IsReconciled t
unfolding book
book-Reconciled id plan s t (even, matched) (all, owed) h =
    let (a, u, both, last) = resume-ok (λ _. modify (create_facts plan.facts)) _ h in
    let (b, v, first, second) =
      resume-ok (λ _. create_bill id plan.bill) (create_planned plan.entry s) both in
    let (evens, net_after, bills) = create_planned-ok plan.entry s v even all first in
    let (entries, owed_after) = create_bill-ok id plan.bill v u second in
    let same : create_facts plan.facts u ≡ t = ap (λ p. p.1) last in
    rw (← same, entries) (evens, net_after ∙ rw (matched, owed, owed_after, bills) (omega int_laws))

-- What a commit comes to where it does not throw: the books that its plan is written to, or that it
-- leaves as they are, with the row of its event, which is there, marked.
pub record IsCommitted (now bill_id event_id : ℕ) (plan : PostingPlan) (s : Books)
    (duplicate : Bool) (t : Books) : Type 0 where
  pub between : Books
  pub event : InboxEvent
  pub stored : find event_id between.inbox ≡ some event
  pub marked : set_posted now event_id between ≡ t
  pub known : is_booked_already plan.entry s ≡ duplicate
  pub written :
      ((duplicate ≡ true) × (s ≡ between))
      ⊎ ((duplicate ≡ false) × (book bill_id plan s ≡ (ok tt, between)))

marked-IsCommitted :
    (now bill_id event_id : ℕ) (plan : PostingPlan) (s u : Books) (again duplicate : Bool)
    (t : Books)
    → is_booked_already plan.entry s ≡ again
    → ((again ≡ true) × (s ≡ u)) ⊎ ((again ≡ false) × (book bill_id plan s ≡ (ok tt, u)))
    → (mark_posted now event_id >> pure again) u ≡ (ok duplicate, t)
    → IsCommitted now bill_id event_id plan s duplicate t
marked-IsCommitted now bill_id event_id plan s u again duplicate t known written h =
    let (a, v, marked, last) = resume-ok (λ _. pure again) (mark_posted now event_id u) h in
    let (event, w, stored, set) =
      resume-ok (λ _. modify (set_posted now event_id))
        (or_throw (find event_id u.inbox) Error.not_found u) marked in
    let (found, same) = or_throw-ok (find event_id u.inbox) Error.not_found u stored in
    let e : again ≡ duplicate = ok-injective _ _ (ap (λ p. p.0) last) in
    record {
      between = u;
      event = event;
      stored = found;
      marked = ap (set_posted now event_id) same ∙ ap (λ p. p.1) set ∙ ap (λ p. p.1) last;
      known = known ∙ e;
      written = rw (← e) written;
    }

pub commit_body-ok :
    (now bill_id event_id : ℕ) (plan : PostingPlan) (s : Books) (duplicate : Bool) (t : Books)
    → commit_body now bill_id plan event_id s ≡ (ok duplicate, t)
    → IsCommitted now bill_id event_id plan s duplicate t
unfolding commit_body
commit_body-ok now bill_id event_id plan s duplicate t h =
    elim (Bool-cases (is_booked_already plan.entry s)) [
      | inl again ↦
          marked-IsCommitted now bill_id event_id plan s s true duplicate t again (inl (refl, refl))
            (rw again at h)
      | inr fresh ↦
          let h' : (when true (book bill_id plan) >> mark_posted now event_id >> pure false) s
              ≡ (ok duplicate, t) =
            rw fresh at h in
          let (a, u, before, last) = resume-ok (λ _. pure false) _ h' in
          let (b, v, booked_ok, marked) =
            resume-ok (λ _. mark_posted now event_id) (book bill_id plan s) before in
          marked-IsCommitted now bill_id event_id plan s v false duplicate t fresh
            (inr (refl, booked_ok)) (rw marked last)
    ]

pub commit-IsReconciled :
    (now bill_id event_id : ℕ) (plan : PostingPlan) (s : Books)
    → IsMatched plan
    → IsReconciled s
    → IsReconciled (commit now bill_id plan event_id s).1
unfolding commit
commit-IsReconciled now bill_id event_id plan s matched good =
    transaction_keeps IsReconciled (commit_body now bill_id plan event_id) s good (λ duplicate t h.
      let c = commit_body-ok now bill_id event_id plan s duplicate t h in
      rw (← c.marked) (elim c.written [
        | inl (again, same) ↦ rw (← same) good
        | inr (fresh, booked_ok) ↦ book-Reconciled bill_id plan s c.between matched good booked_ok
      ]))
