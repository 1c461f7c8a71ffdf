-- ===== src/Financials/Ledger.antt =====
-- The books and the inbox of Financials: the posting of a plan
-- (services/financials/src/ledger/ledger.repository.ts), the processing of a stored event
-- (inbox/inbox.processor.ts, inbox/inbox.repository.ts, inbox/inbox.controller.ts) and the payment of
-- a bill (payables/payables.service.ts, payables/payables.repository.ts).
pub mod Inbox
pub mod Payables
pub mod Reconciliation
pub mod Payment
pub mod Runs
pub mod Backoff
pub mod Delivery
use merchandising_funnel_aut.Common.{
  ◌==◌, if◌then◌else◌, number_key, same_pair, pair_key, any, ℕ, Bool, false, not, ◌&&◌, ◌||◌,
  Option, none, some, List, [], ◌∷◌, ◌++◌,
}
use merchandising_funnel_aut.Events.{
  GoodsReceivedEvent, StockAdjustedEvent, ItemSoldEvent, ItemReturnedEvent, DayClosedEvent,
}
use merchandising_funnel_aut.Common.Action.{
  Error, Action, pure, gets, or_throw, ◌>>=◌, ◌>>◌, modify, when, transaction, ok, err,
}
use merchandising_funnel_aut.Common.Table.{Table, find, create, update}
use merchandising_funnel_aut.Financials.Journal.{EntrySource, JournalDraft}
use merchandising_funnel_aut.Financials.Plans.{BillDraft, SaleFactDraft, PostingPlan}

pub data BillStatus : Type 0 where
  unpaid paid : BillStatus

pub record PayableBill : Type 0 where
  pub draft : BillDraft
  pub status : BillStatus
  pub paid_at : Option ℕ
  pub payment_reference : Option ℕ

pub data DomainEvent : Type 0 where
  goods_received : GoodsReceivedEvent → DomainEvent
  item_sold : ItemSoldEvent → DomainEvent
  item_returned : ItemReturnedEvent → DomainEvent
  day_closed : DayClosedEvent → DomainEvent
  stock_adjusted : StockAdjustedEvent → DomainEvent
  no_rule : ℕ → DomainEvent

pub data InboxStatus : Type 0 where
  pending posted needs_attention : InboxStatus

pub record InboxEvent : Type 0 where
  pub payload : DomainEvent
  pub status : InboxStatus
  pub attempts : ℕ
  pub last_error : Option Error
  pub next_attempt : ℕ
  pub posted_at : Option ℕ

-- The tables of the service. Bills are under their ids, inbox events under their event ids.
pub record Books : Type 0 where
  pub entries : List JournalDraft
  pub bills : Table ℕ PayableBill
  pub facts : List SaleFactDraft
  pub inbox : Table ℕ InboxEvent

abbrev pub source_number : EntrySource → ℕ
source_number EntrySource.goods_received = 0
source_number EntrySource.item_sold = 1
source_number EntrySource.item_returned = 2
source_number EntrySource.day_closed = 3
source_number EntrySource.bill_payment = 4
source_number EntrySource.stock_adjustment = 5

-- Whether two entries are booked for the same source document.
abbrev pub same_document : JournalDraft → JournalDraft → Bool
same_document d e =
    source_number d.source == source_number e.source && same_pair d.source_ref e.source_ref

-- The unique key of the entries refuses a second entry for one document.
unfoldable pub create_entry : JournalDraft → Action Books (Unit {0})
create_entry e s =
    if any (same_document e) s.entries
    then (err Error.unique_violation, s)
    else (ok tt, record s { entries = e ∷ s.entries })

abbrev pub has_bill_for : ℕ → Table ℕ PayableBill → Bool
has_bill_for number [] = false
has_bill_for number ((_, bill) ∷ t) =
    bill.draft.goods_received_note_number == number || has_bill_for number t

-- So does the unique note number of the bills.
unfoldable pub create_bill : ℕ → Option BillDraft → Action Books (Unit {0})
create_bill id none s = (ok tt, s)
create_bill id (some draft) s =
    if has_bill_for draft.goods_received_note_number s.bills
    then (err Error.unique_violation, s)
    else (
      ok tt,
      record s {
        bills =
            create id
              (record {
                draft = draft;
                status = BillStatus.unpaid;
                paid_at = none;
                payment_reference = none;
              })
              s.bills;
      },
    )

abbrev pub create_facts : List SaleFactDraft → Books → Books
create_facts drafts s = record s { facts = s.facts ++ drafts }

abbrev pub posted_event : ℕ → InboxEvent → InboxEvent
posted_event now event = record event {
  status = InboxStatus.posted;
  posted_at = some now;
  last_error = none;
}

abbrev pub set_posted : ℕ → ℕ → Books → Books
set_posted now event_id s = record s { inbox = update event_id (posted_event now) s.inbox }

-- The update throws where the inbox has no row of the event.
abbrev pub mark_posted : ℕ → ℕ → Action Books (Unit {0})
mark_posted now event_id s =
    (or_throw (find event_id s.inbox) Error.not_found >> modify (set_posted now event_id)) s

abbrev pub is_booked_already : Option JournalDraft → Books → Bool
is_booked_already none s = false
is_booked_already (some e) s = any (same_document e) s.entries

abbrev pub create_planned : Option JournalDraft → Action Books (Unit {0})
create_planned none = pure tt
create_planned (some e) = create_entry e

-- What a plan writes where its document is not booked yet.
unfoldable pub book : ℕ → PostingPlan → Action Books (Unit {0})
unfolding create_entry create_bill
book bill_id plan =
    create_planned plan.entry >> create_bill bill_id plan.bill >> modify (create_facts plan.facts)

-- The body of the transaction; the result is whether the document was booked already.
unfoldable pub commit_body : ℕ → ℕ → PostingPlan → ℕ → Action Books Bool
unfolding book
commit_body now bill_id plan event_id = gets (is_booked_already plan.entry) >>= λ duplicate.
    when (not duplicate) (book bill_id plan) >> mark_posted now event_id >> pure duplicate

unfoldable pub commit : ℕ → ℕ → PostingPlan → ℕ → Action Books Bool
unfolding commit_body
commit now bill_id plan event_id = transaction (commit_body now bill_id plan event_id)
