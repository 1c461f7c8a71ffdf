-- ===== src/Financials/Ledger/Backoff.antt =====
-- The wait between attempts to post an event (services/financials/src/inbox/inbox.processor.ts).
use native.Mathlib.Numerals.{unary_clauses}
use merchandising_funnel_aut.Common.{
  leb, if◌then◌else◌, ℕ, suc, ◌-◌, ◌*◌, ◌^◌, ◌≡◌, sym, ap, ◌∙◌, arith,
}
use merchandising_funnel_aut.Financials.Ledger.Inbox.{max_backoff_ms, backoff_ms}

abbrev pub capped : ℕ → ℕ
capped delay = if leb delay max_backoff_ms then delay else max_backoff_ms

two_pow_suc : (n : ℕ) → 2 ^ suc n ≡ 2 ^ n * 2
two_pow_suc n = simp unary_clauses (omega arith)

suc_minus_one : (n : ℕ) → suc n - 1 ≡ n
suc_minus_one n = omega arith

backoff_ms_lem : (n : ℕ) → backoff_ms (suc n) ≡ capped (15_000 * 2 ^ n)
unfolding backoff_ms
backoff_ms_lem n = ap (λ k. capped (15_000 * 2 ^ k)) (suc_minus_one n)

capped_double : (p q : ℕ) → q ≡ p * 2 → capped (15_000 * q) ≡ capped (2 * capped (15_000 * p))
capped_double p q h = ground arith

-- The first wait is 15 seconds; each one after it is twice the one before, an hour at most.
pub backoff_ms_doubles :
    (n : ℕ) → (backoff_ms 1 ≡ 15_000) × (backoff_ms (suc (suc n)) ≡ capped (2 * backoff_ms (suc n)))
backoff_ms_doubles n = (
  backoff_ms_lem 0,
  backoff_ms_lem (suc n)
      ∙ capped_double (2 ^ n) (2 ^ suc n) (two_pow_suc n)
      ∙ ap (λ d. capped (2 * d)) (sym (backoff_ms_lem n)),
)
