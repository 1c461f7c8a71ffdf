-- ===== src/Financials/Plans.antt =====
-- What one event changes in the books (services/financials/src/postings/posting-plan.ts), and what
-- a list of journal lines does to an account.
use merchandising_funnel_aut.Common.{ap, ◌∙◌, some}
use merchandising_funnel_aut.Common.Action.{ok}
use merchandising_funnel_aut.Financials.Journal.{balanced}
use merchandising_funnel_aut.Financials.Journal.Balance.{balanced-ok}
use merchandising_funnel_aut.Common.{
  ℕ, ◌≡◌, refl, Option, none, List, [], ◌∷◌, ◌++◌, ◌==◌, if◌then◌else◌, keep, ◌/◌,
}
use merchandising_funnel_aut.Common.Int.{ℤ, pos, ◌+ℤ◌, ◌-ℤ◌, int_laws}
use merchandising_funnel_aut.Financials.Journal.{
  JournalLineDraft, JournalDraft, debit_of, credit_of, has_amount,
}

pub record BillDraft : Type 0 where
  pub goods_received_note_number : ℕ
  pub po_number : ℕ
  pub supplier_id : ℕ
  pub amount : ℤ
  pub currency : ℕ
  pub bill_date : ℕ
  pub due_date : ℕ

pub record SaleFactDraft : Type 0 where
  pub occurred_at : ℕ
  pub business_date : ℕ
  pub store_id : ℕ
  pub transaction_id : ℕ
  pub return_id : Option ℕ
  pub sku : ℕ
  pub product_name : ℕ
  pub quantity : ℤ
  pub revenue : ℤ
  pub tax_amount : ℤ
  pub cogs : ℤ
  pub unit_cost : ℤ

-- `entry` is none where the event moves no money.
pub record PostingPlan : Type 0 where
  pub entry : Option JournalDraft
  pub bill : Option BillDraft
  pub facts : List SaleFactDraft

abbrev pub nothing_to_book : PostingPlan
nothing_to_book = record { entry = none; bill = none; facts = [] }

abbrev pub day_ms : ℕ
day_ms = 86_400_000

-- The UTC day, counted from the epoch.
abbrev pub business_date : ℕ → ℕ
business_date at = at / day_ms

-- Debits less credits of the lines on one account.
abbrev pub net : ℕ → List JournalLineDraft → ℤ
net code [] = pos 0
net code (l ∷ ls) =
    if l.account_code == code then (debit_of l -ℤ credit_of l) +ℤ net code ls else net code ls

pub net-keep : (code : ℕ) (ls : List JournalLineDraft) → net code (keep has_amount ls) ≡ net code ls
net-keep code [] = refl
net-keep code (l ∷ ls) = grind (int_laws, net-keep code ls)

pub net-append :
    (code : ℕ) (ls ms : List JournalLineDraft) → net code (ls ++ ms) ≡ net code ls +ℤ net code ms
net-append code [] ms = omega int_laws
net-append code (l ∷ ls) ms = grind (int_laws, net-append code ls ms)

-- An entry that is let through does to an account what its draft does.
pub net-balanced :
    (code : ℕ) (draft e : JournalDraft)
    → balanced draft ≡ ok e
    → net code e.lines ≡ net code draft.lines
net-balanced code draft e h =
    ap (λ d. net code d.lines) ((balanced-ok draft e h).3) ∙ net-keep code draft.lines

-- What a plan owes on its bill.
abbrev pub billed : Option BillDraft → ℤ
billed none = pos 0
billed (some b) = b.amount

-- What a plan's entry does to an account.
abbrev pub booked : ℕ → Option JournalDraft → ℤ
booked code none = pos 0
booked code (some e) = net code e.lines
