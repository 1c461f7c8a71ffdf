-- ===== src/Financials/Journal.antt =====
-- Journal entries (services/financials/src/ledger/journal.ts). Amounts are whole cents, on which
-- `toCents`, `fromCents` and `round2` of ledger/money.ts change nothing.
pub mod Balance
use merchandising_funnel_aut.Common.{
  ℕ, ◌≡◌, ◌≢◌, refl, inl, inr, Bool, true, false, not, ◌&&◌, ◌||◌, Option, none, some, List, [],
  ◌∷◌, ◌==◌, if◌then◌else◌, arith, Bool-cases, keep, All,
}
use merchandising_funnel_aut.Common.Int.{
  ℤ, pos, ◌+ℤ◌, ◌-ℤ◌, neg, ◌≤ℤ◌, ◌<ℤ◌, ltb_ℤ, ◌==ℤ◌, int_laws,
}
use merchandising_funnel_aut.Common.Action.{Error, Result, ok, err}

pub record JournalLineDraft : Type 0 where
  pub account_code : ℕ
  pub debit : Option ℤ
  pub credit : Option ℤ

pub data EntrySource : Type 0 where
  goods_received item_sold item_returned day_closed bill_payment stock_adjustment : EntrySource

-- A document that an entry is booked for: its kind of source, and its reference.
pub record JournalDraft : Type 0 where
  pub occurred_at : ℕ
  pub source : EntrySource
  pub source_ref : ℕ × ℕ
  pub store_id : Option ℕ
  pub lines : List JournalLineDraft

abbrev pub or_zero : Option ℤ → ℤ
or_zero none = pos 0
or_zero (some a) = a

abbrev pub debit_of : JournalLineDraft → ℤ
debit_of l = or_zero l.debit

abbrev pub credit_of : JournalLineDraft → ℤ
credit_of l = or_zero l.credit

abbrev pub debit_line : ℕ → ℤ → JournalLineDraft
debit_line account_code amount = record {
  account_code = account_code;
  debit = some amount;
  credit = none;
}

abbrev pub credit_line : ℕ → ℤ → JournalLineDraft
credit_line account_code amount = record {
  account_code = account_code;
  debit = none;
  credit = some amount;
}

abbrev pub has_amount : JournalLineDraft → Bool
has_amount l = not (debit_of l ==ℤ pos 0) || not (credit_of l ==ℤ pos 0)

-- A line with a negative amount, or with an amount on both sides, is refused.
abbrev pub is_bad : JournalLineDraft → Bool
is_bad l =
    (ltb_ℤ (debit_of l) (pos 0) || ltb_ℤ (credit_of l) (pos 0))
    || (ltb_ℤ (pos 0) (debit_of l) && ltb_ℤ (pos 0) (credit_of l))

-- The loop over the lines, with the totals of its two sides.
unfoldable pub check_lines : ℤ → ℤ → List JournalLineDraft → Result (ℤ × ℤ)
check_lines debits credits [] = ok (debits, credits)
check_lines debits credits (l ∷ ls) =
    let rest = check_lines (debits +ℤ debit_of l) (credits +ℤ credit_of l) ls in
    if is_bad l then err Error.unbalanced else rest

unfoldable pub check_totals :
    JournalDraft → List JournalLineDraft → Result (ℤ × ℤ) → Result JournalDraft
check_totals draft lines (err e) = err e
check_totals draft [] (ok totals) = err Error.unbalanced
check_totals draft (l ∷ ls) (ok (debits, credits)) =
    if debits ==ℤ credits then ok (record draft { lines = l ∷ ls }) else err Error.unbalanced

-- Double entry's one rule. Lines of no amount are dropped.
unfoldable pub balanced : JournalDraft → Result JournalDraft
unfolding check_lines check_totals
balanced draft =
    let lines = keep has_amount draft.lines in
    check_totals draft lines (check_lines (pos 0) (pos 0) lines)

abbrev pub debits_of : List JournalLineDraft → ℤ
debits_of [] = pos 0
debits_of (l ∷ ls) = debit_of l +ℤ debits_of ls

abbrev pub credits_of : List JournalLineDraft → ℤ
credits_of [] = pos 0
credits_of (l ∷ ls) = credit_of l +ℤ credits_of ls
