-- ===== src/Financials/Ledger/Delivery.antt =====
-- The commit of a plan for a document that is booked already
-- (services/financials/src/ledger/ledger.repository.ts).
use merchandising_funnel_aut.Common.{
  Bool-cases, Option-cases, ==_iff, ◌==◌, number_key, ◌⊎◌, inr, none, any, ℕ, ◌≡◌, refl, ap, ◌∙◌,
  inl, Bool, true, false, Option, some, List, [], ◌∷◌, arith,
}
use merchandising_funnel_aut.Common.Action.{err, Error, modify, resume-ok, rolled_back-ok, ok}
use merchandising_funnel_aut.Financials.Journal.{JournalDraft}
use merchandising_funnel_aut.Financials.Ledger.{
  Books, same_document, create_entry, create_bill, create_facts, is_booked_already, set_posted,
  posted_event, InboxEvent, InboxStatus, create_planned, book, commit_body, commit,
}
use merchandising_funnel_aut.Common.Table.{find, find-update}
use merchandising_funnel_aut.Financials.Plans.{BillDraft, PostingPlan}
use merchandising_funnel_aut.Financials.Ledger.Reconciliation.{create_bill-ok, commit_body-ok}

same_document_replace :
    (d e x : JournalDraft) → same_document d e ≡ true → same_document d x ≡ same_document e x
same_document_replace d e x h = ground arith

any-same_document :
    (d e : JournalDraft) (ls : List JournalDraft)
    → same_document d e ≡ true
    → any (same_document d) ls ≡ any (same_document e) ls
any-same_document d e [] h = refl
any-same_document d e (x ∷ xs) h = rw (same_document_replace d e x h, any-same_document d e xs h)

same_document_refl : (e : JournalDraft) → same_document e e ≡ true
same_document_refl e = ground arith

create_entry-any :
    (e : JournalDraft) (s t : Books)
    → create_entry e s ≡ (ok tt, t)
    → any (same_document e) t.entries ≡ true
unfolding create_entry
create_entry-any e s t h = elim (Bool-cases (any (same_document e) s.entries)) [
  | inl taken ↦ absurd (cc (ap (λ p. p.0) (rw taken at h)))
  | inr fresh ↦
      let same : record s { entries = e ∷ s.entries } ≡ t = ap (λ p. p.1) (rw fresh at h) in
      rw (← same, same_document_refl e)
]

create_bill-entries :
    (id : ℕ) (bill : Option BillDraft) (s t : Books)
    → create_bill id bill s ≡ (ok tt, t)
    → t.entries ≡ s.entries
create_bill-entries id bill s t h = (create_bill-ok id bill s t h).0

book-any :
    (id : ℕ) (plan : PostingPlan) (e : JournalDraft) (s t : Books)
    → plan.entry ≡ some e
    → book id plan s ≡ (ok tt, t)
    → any (same_document e) t.entries ≡ true
unfolding book
book-any id plan e s t has h =
    let (a, u, both, last) = resume-ok (λ _. modify (create_facts plan.facts)) _ h in
    let (b, v, first, second) =
      resume-ok (λ _. create_bill id plan.bill) (create_planned plan.entry s) both in
    let first' : create_entry e s ≡ (ok tt, v) = rw has at first in
    let same : create_facts plan.facts u ≡ t = ap (λ p. p.1) last in
    rw (← same, create_bill-entries id plan.bill v u second) (create_entry-any e s v first')

commit-any :
    (now bill_id event_id : ℕ) (plan : PostingPlan) (e : JournalDraft) (duplicate : Bool)
    (s t : Books)
    → plan.entry ≡ some e
    → commit_body now bill_id plan event_id s ≡ (ok duplicate, t)
    → any (same_document e) t.entries ≡ true
commit-any now bill_id event_id plan e duplicate s t has h =
    let c = commit_body-ok now bill_id event_id plan s duplicate t h in
    rw (← c.marked) (elim c.written [
      | inl (again, same) ↦
          let booked_before : is_booked_already plan.entry s ≡ true = c.known ∙ again in
          rw (← same) (rw has at booked_before)
      | inr (fresh, booked_ok) ↦ book-any bill_id plan e s c.between has booked_ok
    ])

-- Books in which one event is marked posted and nothing else is changed.
pub record IsOnlyMarked (now event_id : ℕ) (event : InboxEvent) (s t : Books) : Type 0 where
  pub entries : t.entries ≡ s.entries
  pub bills : t.bills ≡ s.bills
  pub facts : t.facts ≡ s.facts
  pub others : (j : ℕ) → (event_id == j) ≡ false → find j t.inbox ≡ find j s.inbox
  pub row : InboxEvent
  pub found : find event_id t.inbox ≡ some row
  pub is_posted : row.status ≡ InboxStatus.posted
  pub at : row.posted_at ≡ some now
  pub cleared : row.last_error ≡ none
  pub kept : row.payload ≡ event.payload

set_posted-IsOnlyMarked :
    (now event_id : ℕ) (event : InboxEvent) (s : Books)
    → find event_id s.inbox ≡ some event
    → IsOnlyMarked now event_id event s (set_posted now event_id s)
set_posted-IsOnlyMarked now event_id event s stored = record {
  entries = refl;
  bills = refl;
  facts = refl;
  others = λ j apart. rw (find-update, apart) refl;
  row = posted_event now event;
  found = rw (find-update, (==_iff event_id event_id).1 refl, stored) refl;
  is_posted = refl;
  at = refl;
  cleared = refl;
  kept = refl;
}

-- Once a plan with an entry is committed, a plan whose entry is for the same source document is a
-- duplicate. Where its inbox event is stored, it goes through: that event is marked posted, and no
-- entry, bill, sale fact or other event changes. Where the event is not stored, it throws, and
-- nothing at all is changed.
pub commit-again :
    (now bill_id event_id now' bill_id' event_id' : ℕ) (plan plan' : PostingPlan)
    (e e' : JournalDraft) (duplicate : Bool) (s t : Books)
    → plan.entry ≡ some e
    → plan'.entry ≡ some e'
    → same_document e' e ≡ true
    → commit now bill_id plan event_id s ≡ (ok duplicate, t)
    → let r = commit now' bill_id' plan' event_id' t in
      ((event : InboxEvent) × (find event_id' t.inbox ≡ some event)
        × (r.0 ≡ ok true)
        × IsOnlyMarked now' event_id' event t r.1)
      ⊎ ((find event_id' t.inbox ≡ none) × (r ≡ (err Error.not_found, t)))
unfolding commit commit_body
commit-again now bill_id event_id now' bill_id' event_id' plan plan' e e' duplicate s t has has'
      same h =
    let done : commit_body now bill_id plan event_id s ≡ (ok duplicate, t) =
      rolled_back-ok s t duplicate _ h in
    let known = commit-any now bill_id event_id plan e duplicate s t has done in
    elim (Option-cases (find event_id' t.inbox)) [
      | inl missing ↦
          rw (has', any-same_document e' e t.entries same, known, missing) (inr (refl, refl))
      | inr (event, stored) ↦
          rw (has', any-same_document e' e t.entries same, known, stored)
            (inl (event, refl, refl, set_posted-IsOnlyMarked now' event_id' event t stored))
    ]
