-- ===== src/Financials/Effects/Takings.antt =====
-- What the takings of a sale do to the accounts
-- (services/financials/src/postings/postings.service.ts).
use merchandising_funnel_aut.Common.{
  ◌==◌, Bool-cases, number_key, sum_of, any, All, ℕ, ◌≡◌, refl, ◌∙◌, inl, inr, true, false, List,
  [], ◌∷◌, ◌++◌, arith,
}
use merchandising_funnel_aut.Events.{PaymentMethod, PaymentMethodCapture}
use merchandising_funnel_aut.Common.Int.{ℤ, pos, ◌+ℤ◌, ◌≤ℤ◌, ◌<ℤ◌, ==ℤ_iff, int_laws}
use merchandising_funnel_aut.Common.Table.{Table, upsert}
use merchandising_funnel_aut.Financials.Journal.{
  JournalLineDraft, debit_of, debit_line, credit_line, has_amount, is_bad, debits_of, credits_of,
}
use merchandising_funnel_aut.Financials.Plans.{net}
use merchandising_funnel_aut.Financials.Postings.{payment_account, takings, taking_lines}

-- The accounts of takings, apart from a given one.
abbrev IsOther : ℕ → Table ℕ ℤ → Type 0
IsOther code = All (λ p. (p.0 == code) ≡ false)

upsert-IsOther :
    (other code : ℕ) (a : ℤ) (f : ℤ → ℤ) (t : Table ℕ ℤ)
    → (code == other) ≡ false
    → IsOther other t
    → IsOther other (upsert code a f t)
upsert-IsOther other code a f [] h o = (h, tt)
upsert-IsOther other code a f ((k, v) ∷ t) h (o, os) = elim (Bool-cases (k == code)) [
  | inl same ↦ rw same (o, os)
  | inr apart ↦ rw apart (o, upsert-IsOther other code a f t h os)
]

takings-IsOther :
    (other : ℕ)
    → ((m : PaymentMethod) → (payment_account m == other) ≡ false)
    → (ps : List PaymentMethodCapture) (t : Table ℕ ℤ) → IsOther other t
    → IsOther other (takings t ps)
unfolding takings
takings-IsOther other apart [] t o = o
takings-IsOther other apart (p ∷ ps) t o =
    takings-IsOther other apart ps _ (upsert-IsOther other _ p.amount _ t (apart p.method) o)

net-taking_lines :
    (other : ℕ) (t : Table ℕ ℤ) → IsOther other t → net other (taking_lines t) ≡ pos 0
net-taking_lines other [] o = refl
net-taking_lines other ((k, v) ∷ t) (o, os) = rw (o, net-taking_lines other t os)

-- Takings change no account but those of the payment methods.
pub net-takings :
    (other : ℕ)
    → ((m : PaymentMethod) → (payment_account m == other) ≡ false)
    → (ps : List PaymentMethodCapture) → net other (taking_lines (takings [] ps)) ≡ pos 0
net-takings other apart ps = net-taking_lines other _ (takings-IsOther other apart ps [] tt)

abbrev pub paid : List PaymentMethodCapture → ℤ
paid = sum_of (λ p. p.amount)

debits_of-upsert :
    (code : ℕ) (a : ℤ) (t : Table ℕ ℤ)
    → debits_of (taking_lines (upsert code a (λ v. v +ℤ a) t)) ≡ debits_of (taking_lines t) +ℤ a
debits_of-upsert code a [] = omega int_laws
debits_of-upsert code a ((k, v) ∷ t) = elim (Bool-cases (k == code)) [
  | inl same ↦ rw same (omega int_laws)
  | inr apart ↦ rw (apart, debits_of-upsert code a t) (omega int_laws)
]

-- The takings are debited with all that is paid.
pub debits_of-takings :
    (ps : List PaymentMethodCapture) (t : Table ℕ ℤ)
    → debits_of (taking_lines (takings t ps)) ≡ debits_of (taking_lines t) +ℤ paid ps
unfolding takings
debits_of-takings [] t = omega int_laws
debits_of-takings (p ∷ ps) t =
    debits_of-takings ps _
    ∙ rw (debits_of-upsert (payment_account p.method) p.amount t) (omega int_laws)

pub credits_of-taking_lines : (t : Table ℕ ℤ) → credits_of (taking_lines t) ≡ pos 0
credits_of-taking_lines [] = refl
credits_of-taking_lines ((k, v) ∷ t) = rw (credits_of-taking_lines t) (omega int_laws)

abbrev AreLow : Table ℕ ℤ → Type 0
AreLow = All (λ p. pos 0 ≤ℤ p.1)

upsert-AreLow :
    (code : ℕ) (a : ℤ) (t : Table ℕ ℤ)
    → pos 0 ≤ℤ a
    → AreLow t
    → AreLow (upsert code a (λ v. v +ℤ a) t)
upsert-AreLow code a [] h o = (h, tt)
upsert-AreLow code a ((k, v) ∷ t) h (o, os) = elim (Bool-cases (k == code)) [
  | inl same ↦ rw same (omega int_laws, os)
  | inr apart ↦ rw apart (o, upsert-AreLow code a t h os)
]

pub takings-AreLow :
    (ps : List PaymentMethodCapture) (t : Table ℕ ℤ)
    → All (λ (p : PaymentMethodCapture). pos 0 ≤ℤ p.amount) ps
    → AreLow t
    → AreLow (takings t ps)
unfolding takings
takings-AreLow [] t h o = o
takings-AreLow (p ∷ ps) t (h, hs) o = takings-AreLow ps _ hs (upsert-AreLow _ p.amount t h o)

pub is_bad-debit : (code : ℕ) (a : ℤ) → pos 0 ≤ℤ a → is_bad (debit_line code a) ≡ false
is_bad-debit code a h = ground arith

pub is_bad-credit : (code : ℕ) (a : ℤ) → pos 0 ≤ℤ a → is_bad (credit_line code a) ≡ false
is_bad-credit code a h = ground arith

pub taking_lines_good :
    (t : Table ℕ ℤ) (ls : List JournalLineDraft)
    → AreLow t
    → any is_bad ls ≡ false
    → any is_bad (taking_lines t ++ ls) ≡ false
taking_lines_good [] ls o h = h
taking_lines_good ((k, v) ∷ t) ls (o, os) h = rw (is_bad-debit k v o) (taking_lines_good t ls os h)

pub debits_of-append :
    (ls ms : List JournalLineDraft) → debits_of (ls ++ ms) ≡ debits_of ls +ℤ debits_of ms
debits_of-append [] ms = omega int_laws
debits_of-append (l ∷ ls) ms = rw (debits_of-append ls ms) (omega int_laws)

pub credits_of-append :
    (ls ms : List JournalLineDraft) → credits_of (ls ++ ms) ≡ credits_of ls +ℤ credits_of ms
credits_of-append [] ms = omega int_laws
credits_of-append (l ∷ ls) ms = rw (credits_of-append ls ms) (omega int_laws)

no_amount : (l : JournalLineDraft) → has_amount l ≡ false → debit_of l ≡ pos 0
no_amount l h = (==ℤ_iff (debit_of l) (pos 0)).0 (ground arith)

no_amounts : (ls : List JournalLineDraft) → any has_amount ls ≡ false → debits_of ls ≡ pos 0
no_amounts [] h = refl
no_amounts (l ∷ ls) h =
    rw (no_amount l (ground arith), no_amounts ls (ground arith)) (omega int_laws)

above_none : (a : ℤ) → pos 0 <ℤ a → a ≡ pos 0 → ⊥
above_none a h e = let h' : pos 0 <ℤ pos 0 = rw e at h in omega int_laws

pub some_amount : (ls : List JournalLineDraft) → pos 0 <ℤ debits_of ls → any has_amount ls ≡ true
some_amount ls h = elim (Bool-cases (any has_amount ls)) [
  | inl there ↦ there
  | inr missing ↦ absurd (above_none _ h (no_amounts ls missing))
]
