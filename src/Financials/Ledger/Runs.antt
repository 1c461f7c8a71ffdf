-- ===== src/Financials/Ledger/Runs.antt =====
-- Sequences of events, attempts and payments
-- (services/financials/src/inbox, services/financials/src/payables).
use merchandising_funnel_aut.Common.{
  Bool-cases, number_key, pair_key, ℕ, ◌≡◌, refl, inl, inr, Bool, Option, none, some, List, [], ◌∷◌,
}
use merchandising_funnel_aut.Common.Action.{Result, lift, ◌>>=◌, Keeps, ok, err}
use merchandising_funnel_aut.Common.Table.{find}
use merchandising_funnel_aut.Financials.Ledger.{DomainEvent, InboxStatus, InboxEvent, Books, commit}
use merchandising_funnel_aut.Financials.Plans.{PostingPlan}
use merchandising_funnel_aut.Financials.Effects.Matching.{
  IsMatched, day_closed-IsMatched, stock_adjusted-IsMatched, item_sold-IsMatched,
  item_returned-IsMatched, goods_received-IsMatched,
}
use merchandising_funnel_aut.Financials.Ledger.Inbox.{
  Services, plan_for, store, is_final, settle, attempt, process_with, process_found, process,
  requeue, retry_with, retry_found, retry_event,
}
use merchandising_funnel_aut.Financials.Ledger.Payables.{pay}
use merchandising_funnel_aut.Financials.Ledger.Payment.{pay-IsReconciled}
use merchandising_funnel_aut.Financials.Ledger.Reconciliation.{IsReconciled, commit-IsReconciled}

plan_for-IsMatched :
    (services : Services) (s : Books) (event : DomainEvent) (plan : PostingPlan)
    → plan_for services s event ≡ ok plan
    → IsMatched plan
unfolding plan_for
plan_for-IsMatched services s (DomainEvent.goods_received event) plan h =
    goods_received-IsMatched _ event plan h
plan_for-IsMatched services s (DomainEvent.item_sold event) plan h =
    item_sold-IsMatched services.unit_cost event plan h
plan_for-IsMatched services s (DomainEvent.item_returned event) plan h =
    item_returned-IsMatched services.unit_cost _ event plan h
plan_for-IsMatched services s (DomainEvent.day_closed event) plan h =
    day_closed-IsMatched event plan h
plan_for-IsMatched services s (DomainEvent.stock_adjusted event) plan h =
    stock_adjusted-IsMatched event plan h
plan_for-IsMatched services s (DomainEvent.no_rule key) plan h = absurd (cc h)

attempt_plan-IsReconciled :
    (services : Services) (event_id : ℕ) (s : Books) (answer : Result PostingPlan)
    → ((plan : PostingPlan) → answer ≡ ok plan → IsMatched plan)
    → IsReconciled s
    → IsReconciled ((lift answer >>= λ p. commit services.now services.new_id p event_id) s).1
attempt_plan-IsReconciled services event_id s (ok plan) matched good =
    commit-IsReconciled services.now services.new_id event_id plan s (matched plan refl) good
attempt_plan-IsReconciled services event_id s (err e) matched good = good

settle-IsReconciled :
    (services : Services) (event_id attempts : ℕ) (outcome : Result Bool)
    → Keeps IsReconciled (settle services event_id attempts outcome)
unfolding settle
settle-IsReconciled services event_id attempts (ok duplicate) s good = good
settle-IsReconciled services event_id attempts (err e) s good = elim (Bool-cases (is_final e)) [
  | inl final ↦ rw final good
  | inr transient ↦ rw transient good
]

process_with-IsReconciled :
    (services : Services) (event_id : ℕ) (event : InboxEvent) (status : InboxStatus)
    → Keeps IsReconciled (process_with services event_id event status)
unfolding process_with attempt
process_with-IsReconciled services event_id event InboxStatus.pending s good =
    settle-IsReconciled services event_id _ _ _ (
      attempt_plan-IsReconciled services event_id s (plan_for services s event.payload)
        (plan_for-IsMatched services s event.payload) good)
process_with-IsReconciled services event_id event InboxStatus.posted s good = good
process_with-IsReconciled services event_id event InboxStatus.needs_attention s good = good

process_found-IsReconciled :
    (services : Services) (event_id : ℕ) (found : Option InboxEvent)
    → Keeps IsReconciled (process_found services event_id found)
unfolding process_found
process_found-IsReconciled services event_id none s good = good
process_found-IsReconciled services event_id (some event) s good =
    process_with-IsReconciled services event_id event event.status s good

process-IsReconciled :
    (services : Services) (event_id : ℕ) → Keeps IsReconciled (process services event_id)
unfolding process
process-IsReconciled services event_id s good =
    process_found-IsReconciled services event_id (find event_id s.inbox) s good

retry_with-IsReconciled :
    (services : Services) (event_id : ℕ) (status : InboxStatus)
    → Keeps IsReconciled (retry_with services event_id status)
unfolding retry_with
retry_with-IsReconciled services event_id InboxStatus.posted s good = good
retry_with-IsReconciled services event_id InboxStatus.pending s good =
    process-IsReconciled services event_id (requeue services.now event_id s) good
retry_with-IsReconciled services event_id InboxStatus.needs_attention s good =
    process-IsReconciled services event_id (requeue services.now event_id s) good

retry_found-IsReconciled :
    (services : Services) (event_id : ℕ) (found : Option InboxEvent)
    → Keeps IsReconciled (retry_found services event_id found)
unfolding retry_found
retry_found-IsReconciled services event_id none s good = good
retry_found-IsReconciled services event_id (some event) s good =
    retry_with-IsReconciled services event_id event.status s good

retry_event-IsReconciled :
    (services : Services) (event_id : ℕ) → Keeps IsReconciled (retry_event services event_id)
unfolding retry_event
retry_event-IsReconciled services event_id s good =
    retry_found-IsReconciled services event_id (find event_id s.inbox) s good

-- What reaches Financials: events from the bus, attempts to post them, and payments.
pub data Step : Type 0 where
  arrives : Services → ℕ → DomainEvent → Step
  attempted : Services → ℕ → Step
  retried : Services → ℕ → Step
  pays : ℕ → ℕ → Option ℕ → Step

unfoldable pub take_step : Step → Books → Books
take_step (Step.arrives services event_id payload) s = store services event_id payload s
take_step (Step.attempted services event_id) s = (process services event_id s).1
take_step (Step.retried services event_id) s = (retry_event services event_id s).1
take_step (Step.pays id paid_at reference) s = (pay id paid_at reference s).1

abbrev pub run : List Step → Books → Books
run [] s = s
run (x ∷ xs) s = run xs (take_step x s)

take_step-IsReconciled : (x : Step) (s : Books) → IsReconciled s → IsReconciled (take_step x s)
unfolding take_step store
take_step-IsReconciled (Step.arrives services event_id payload) s good = good
take_step-IsReconciled (Step.attempted services event_id) s good =
    process-IsReconciled services event_id s good
take_step-IsReconciled (Step.retried services event_id) s good =
    retry_event-IsReconciled services event_id s good
take_step-IsReconciled (Step.pays id paid_at reference) s good =
    pay-IsReconciled id paid_at reference s good

-- From books that are reconciled, whatever events arrive, are posted, fail or are retried, and
-- whatever bills are paid, in any order: every entry has as much on the debit side as on the credit
-- side, and the accounts payable owe what the unpaid bills come to.
pub run-IsReconciled : (xs : List Step) (s : Books) → IsReconciled s → IsReconciled (run xs s)
run-IsReconciled [] s good = good
run-IsReconciled (x ∷ xs) s good = run-IsReconciled xs _ (take_step-IsReconciled x s good)
