-- ===== src/Financials/Accounts.antt =====
-- The chart of accounts (services/financials/src/accounts/chart-of-accounts.ts).
use merchandising_funnel_aut.Common.{ℕ, Bool, true, false, List, [], ◌∷◌}

pub data AccountType : Type 0 where
  asset liability revenue expense : AccountType

abbrev pub cash : ℕ
cash = 1000

abbrev pub bank : ℕ
bank = 1010

abbrev pub card_receivable : ℕ
card_receivable = 1100

abbrev pub inventory : ℕ
inventory = 1200

abbrev pub accounts_payable : ℕ
accounts_payable = 2000

abbrev pub vat_payable : ℕ
vat_payable = 2100

abbrev pub gift_cards : ℕ
gift_cards = 2200

abbrev pub sales : ℕ
sales = 4000

abbrev pub sales_returns : ℕ
sales_returns = 4900

abbrev pub cogs : ℕ
cogs = 5000

abbrev pub cash_over_short : ℕ
cash_over_short = 6100

abbrev pub inventory_shrinkage : ℕ
inventory_shrinkage = 6200

-- `Object.values(ACCOUNTS)`, each account by its code and type.
abbrev pub accounts : List (ℕ × AccountType)
accounts =
    (cash, AccountType.asset)
    ∷ (bank, AccountType.asset)
    ∷ (card_receivable, AccountType.asset)
    ∷ (inventory, AccountType.asset)
    ∷ (accounts_payable, AccountType.liability)
    ∷ (vat_payable, AccountType.liability)
    ∷ (gift_cards, AccountType.liability)
    ∷ (sales, AccountType.revenue)
    ∷ (sales_returns, AccountType.revenue)
    ∷ (cogs, AccountType.expense)
    ∷ (cash_over_short, AccountType.expense)
    ∷ (inventory_shrinkage, AccountType.expense)
    ∷ []

-- Assets and expenses grow with debits; liabilities and revenue with credits.
abbrev pub is_debit_normal : AccountType → Bool
is_debit_normal AccountType.asset = true
is_debit_normal AccountType.expense = true
is_debit_normal _ = false
