-- ===== src/Financials/Ledger/Inbox.antt =====
-- Stored events and their processing (services/financials/src/inbox).
use merchandising_funnel_aut.Common.{
  leb, ◌==◌, if◌then◌else◌, number_key, pair_key, keep, ℕ, ◌+◌, ◌-◌, ◌*◌, ◌^◌, Bool, true, false,
  ◌&&◌, Option, none, some, List,
}
use merchandising_funnel_aut.Common.Action.{
  Error, Result, Action, pure, throw, gets, lift, ◌>>=◌, ◌>>◌, modify, ok, err,
}
use merchandising_funnel_aut.Common.Int.{ℤ}
use merchandising_funnel_aut.Common.Table.{find, update, upsert}
use merchandising_funnel_aut.Financials.Ledger.{DomainEvent, InboxStatus, InboxEvent, Books, commit}
use merchandising_funnel_aut.Financials.Plans.{SaleFactDraft, PostingPlan}
use merchandising_funnel_aut.Financials.Postings.{
  PurchaseOrder, goods_received, item_sold, item_returned, day_closed, stock_adjusted,
}

-- What Procurement and Inventory answer, the clock, and the id of a bill that is created.
pub record Services : Type 0 where
  pub purchase_order : ℕ → Result PurchaseOrder
  pub unit_cost : ℕ → Result ℤ
  pub now : ℕ
  pub new_id : ℕ

-- The facts of the original sale: those of the transaction that are not of a return.
abbrev pub is_fact_of : ℕ → SaleFactDraft → Bool
is_fact_of transaction_id f =
    f.transaction_id == transaction_id && elim f.return_id [ none ↦ true | some _ ↦ false ]

abbrev pub find_sale_facts : ℕ → Books → List SaleFactDraft
find_sale_facts transaction_id s = keep (is_fact_of transaction_id) s.facts

-- `plan`: the posting rule of an event.
unfoldable pub plan_for : Services → Books → DomainEvent → Result PostingPlan
plan_for services s (DomainEvent.goods_received event) =
    goods_received (services.purchase_order event.po_number) event
plan_for services s (DomainEvent.item_sold event) = item_sold services.unit_cost event
plan_for services s (DomainEvent.item_returned event) =
    item_returned services.unit_cost (find_sale_facts event.original_transaction_id s) event
plan_for services s (DomainEvent.day_closed event) = day_closed event
plan_for services s (DomainEvent.stock_adjusted event) = stock_adjusted event
plan_for services s (DomainEvent.no_rule routing_key) = err Error.permanent

-- A redelivery of a stored event changes nothing.
unfoldable pub store : Services → ℕ → DomainEvent → Books → Books
store services event_id payload s = record s {
  inbox =
      upsert event_id
        (record {
          payload = payload;
          status = InboxStatus.pending;
          attempts = 0;
          last_error = none;
          next_attempt = services.now;
          posted_at = none;
        })
        (λ event. event) s.inbox;
}

abbrev pub max_backoff_ms : ℕ
max_backoff_ms = 60 * 60 * 1000

-- 15 seconds, doubled with each attempt, and an hour at most.
unfoldable pub backoff_ms : ℕ → ℕ
backoff_ms attempts =
    let delay = 15_000 * 2 ^ (attempts - 1) in
    if leb delay max_backoff_ms then delay else max_backoff_ms

pub data ProcessResult : Type 0 where
  posted retry needs_attention skipped : ProcessResult

-- PermanentPostingError and UnbalancedEntryError: nothing that a retry would mend.
abbrev pub is_final : Error → Bool
is_final Error.permanent = true
is_final Error.unbalanced = true
is_final _ = false

abbrev pub schedule_retry : ℕ → ℕ → Error → ℕ → Books → Books
schedule_retry event_id attempts error next_attempt s = record s {
  inbox =
      update event_id
        (λ event. record event {
          attempts = attempts;
          last_error = some error;
          next_attempt = next_attempt;
        })
        s.inbox;
}

abbrev pub mark_needs_attention : ℕ → ℕ → Error → Books → Books
mark_needs_attention event_id attempts error s = record s {
  inbox =
      update event_id
        (λ event. record event {
          status = InboxStatus.needs_attention;
          attempts = attempts;
          last_error = some error;
        })
        s.inbox;
}

-- What follows the attempt: the `catch` decides between a person and a retry.
unfoldable pub settle : Services → ℕ → ℕ → Result Bool → Action Books ProcessResult
unfolding backoff_ms
settle services event_id attempts (ok duplicate) s = (ok ProcessResult.posted, s)
settle services event_id attempts (err e) s =
    if is_final e
    then (ok ProcessResult.needs_attention, mark_needs_attention event_id attempts e s)
    else (
      ok ProcessResult.retry,
      schedule_retry event_id attempts e (services.now + backoff_ms attempts) s,
    )

-- The body of the `try`.
unfoldable pub attempt : Services → ℕ → DomainEvent → Action Books Bool
attempt services event_id payload = gets (λ s. plan_for services s payload) >>= λ plan.
    lift plan >>= λ p. commit services.now services.new_id p event_id

unfoldable pub process_with : Services → ℕ → InboxEvent → InboxStatus → Action Books ProcessResult
unfolding settle attempt
process_with services event_id event InboxStatus.pending s =
    let (outcome, t) = attempt services event_id event.payload s in
    settle services event_id (event.attempts + 1) outcome t
process_with services event_id event _ s = (ok ProcessResult.skipped, s)

unfoldable pub process_found : Services → ℕ → Option InboxEvent → Action Books ProcessResult
unfolding process_with
process_found services event_id none s = (ok ProcessResult.skipped, s)
process_found services event_id (some event) s = process_with services event_id event event.status s

unfoldable pub process : Services → ℕ → Action Books ProcessResult
unfolding process_found
process services event_id s = process_found services event_id (find event_id s.inbox) s

-- `requeue`
abbrev pub requeue : ℕ → ℕ → Books → Books
requeue now event_id s = record s {
  inbox =
      update event_id (λ event. record event { status = InboxStatus.pending; next_attempt = now })
        s.inbox;
}

-- A person asks for another attempt.
unfoldable pub retry_with : Services → ℕ → InboxStatus → Action Books ProcessResult
unfolding process
retry_with services event_id InboxStatus.posted = pure ProcessResult.posted
retry_with services event_id _ = modify (requeue services.now event_id) >> process services event_id

unfoldable pub retry_found : Services → ℕ → Option InboxEvent → Action Books ProcessResult
unfolding retry_with
retry_found services event_id none = throw Error.not_found
retry_found services event_id (some event) = retry_with services event_id event.status

unfoldable pub retry_event : Services → ℕ → Action Books ProcessResult
unfolding retry_found
retry_event services event_id s = retry_found services event_id (find event_id s.inbox) s
