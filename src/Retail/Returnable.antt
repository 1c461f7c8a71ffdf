-- ===== src/Retail/Returnable.antt =====
-- How much of a sale comes back (services/retail-sales/src/returns).
use merchandising_funnel_aut.Common.{
  ◌==◌, Bool-cases, Option-cases, number_key, pair_key, any, All, ℕ, ◌≡◌, refl, subst, inl, inr,
  Bool, false, Option, none, some, List, [], ◌∷◌, arith,
}
use merchandising_funnel_aut.Common.Action.{ok-injective, bind_ok-ok, map_ok-ok, Result-cases, ok}
use merchandising_funnel_aut.Common.Int.{◌+ℤ◌, ◌≤ℤ◌, ltb_ℤ, ltb_ℤ-false, pos, int_laws}
use merchandising_funnel_aut.Common.Table.{
  Table, find, update, find-update, Rows, find-Rows, update-Rows,
}
use merchandising_funnel_aut.Retail.Returns.{
  RequestedLine, ReturnRequest, return_line, remaining, checked_line, checked_lines, add_returned,
  increment_lines, returned_transaction, write_return, process_return,
}
use merchandising_funnel_aut.Retail.State.{Env, TransactionLine, ReturnLine, Shop}

-- No more of a line has come back than was sold.
abbrev pub IsReturnable : TransactionLine → Type 0
IsReturnable l = (pos 0 ≤ℤ l.quantity_returned) × (l.quantity_returned ≤ℤ l.quantity_sold)

abbrev pub IsSettled : Shop → Type 0
IsSettled s = Rows (λ t. Rows IsReturnable t.lines) s.transactions

-- A quantity that is not negative, of a line that has as many left.
Fits : Table ℕ TransactionLine → ReturnLine → Type 0
Fits lines r =
    (l : TransactionLine) × (find r.transaction_line_id lines ≡ some l)
    × (pos 0 ≤ℤ r.quantity_returned)
    × (l.quantity_returned +ℤ r.quantity_returned ≤ℤ l.quantity_sold)

abbrev pub names : ℕ → List RequestedLine → Bool
names id = any (λ r. r.transaction_line_id == id)

-- The lines of a request: each line of the sale at most once, and no negative quantity.
abbrev pub IsProper : List RequestedLine → Type 0
IsProper [] = Unit
IsProper (r ∷ rs) =
    (names r.transaction_line_id rs ≡ false) × (pos 0 ≤ℤ r.quantity_returned) × IsProper rs

abbrev pub returns_to : ℕ → List ReturnLine → Bool
returns_to id = any (λ r. r.transaction_line_id == id)

abbrev pub IsDistinct : List ReturnLine → Type 0
IsDistinct [] = Unit
IsDistinct (r ∷ rs) = (returns_to r.transaction_line_id rs ≡ false) × IsDistinct rs

-- An increment of another line leaves what fits.
Fits-update :
    (id : ℕ) (f : TransactionLine → TransactionLine) (lines : Table ℕ TransactionLine)
    (rs : List ReturnLine)
    → returns_to id rs ≡ false
    → All (Fits lines) rs
    → All (Fits (update id f lines)) rs
unfolding Fits
Fits-update id f lines [] h fits = tt
Fits-update id f lines (r ∷ rs) h ((l, found, low, high), fits) = (
  (l, rw (find-update id r.transaction_line_id f lines) (ground (arith, found)), low, high),
  Fits-update id f lines rs (ground arith) fits,
)

increment_lines-Rows :
    (rs : List ReturnLine) (lines : Table ℕ TransactionLine)
    → IsDistinct rs
    → All (Fits lines) rs
    → Rows IsReturnable lines
    → Rows IsReturnable (increment_lines rs lines)
unfolding increment_lines Fits
increment_lines-Rows [] lines d fits rows = rows
increment_lines-Rows (r ∷ rs) lines (apart, d) ((l, found, positive, enough), fits) rows =
    let (low, high) = find-Rows IsReturnable r.transaction_line_id lines rows found in
    increment_lines-Rows rs _ d
      (Fits-update r.transaction_line_id (add_returned r.quantity_returned) lines rs apart fits)
      (update-Rows IsReturnable r.transaction_line_id (add_returned r.quantity_returned) lines rows
        found (omega int_laws, enough))

-- A line that passes the check fits.
checked_line-Fits :
    (lines : Table ℕ TransactionLine) (requested : RequestedLine) (found : Option TransactionLine)
    {r : ReturnLine}
    → find requested.transaction_line_id lines ≡ found
    → pos 0 ≤ℤ requested.quantity_returned
    → checked_line requested found ≡ ok r
    → Fits lines r × (r.transaction_line_id ≡ requested.transaction_line_id)
unfolding checked_line return_line Fits
checked_line-Fits lines requested none e low h = absurd (cc h)
checked_line-Fits lines requested (some l) {r} e low h =
    elim (Bool-cases (ltb_ℤ (remaining l) requested.quantity_returned)) [
      | inl over ↦ absurd (cc (over, h))
      | inr enough ↦
          let most = ltb_ℤ-false (remaining l) requested.quantity_returned enough in
          let same : return_line l requested ≡ r = ok-injective _ _ (rw enough at h) in
          subst (λ r. Fits lines r × (r.transaction_line_id ≡ requested.transaction_line_id)) same
            ((l, e, low, omega int_laws), refl)
    ]

checked_lines-proper :
    (lines : Table ℕ TransactionLine) (rs : List RequestedLine) {checked : List ReturnLine}
    → IsProper rs
    → checked_lines lines rs ≡ ok checked
    → All (Fits lines) checked
      × IsDistinct checked
      × ((id : ℕ) → returns_to id checked ≡ names id rs)
unfolding checked_lines
checked_lines-proper lines [] {checked} p h =
    subst (λ c. All (Fits lines) c × IsDistinct c × ((id : ℕ) → returns_to id c ≡ names id []))
      (ok-injective _ _ h) (tt, tt, λ id. refl)
checked_lines-proper lines (requested ∷ rs) {checked} (apart, low, proper) h =
    let (r, one, h') = bind_ok-ok _ _ h in
    let (others, rest, same) = map_ok-ok _ _ h' in
    let (fits, named) = checked_line-Fits lines requested _ refl low one in
    let (all_fit, distinct, names_same) = checked_lines-proper lines rs proper rest in
    subst
      (λ c.
        All (Fits lines) c
        × IsDistinct c
        × ((id : ℕ) → returns_to id c ≡ names id (requested ∷ rs)))
      same
      (
        (fits, all_fit),
        (rw (named, names_same requested.transaction_line_id) apart, distinct),
        λ id. rw (named, names_same id) refl,
      )

pub write_return-transactions :
    (env : Env) (dto : ReturnRequest) (checked : List ReturnLine) (s : Shop)
    → (write_return env dto checked s).1.transactions
      ≡ update dto.original_transaction_id (returned_transaction checked) s.transactions
unfolding write_return
write_return-transactions env dto checked s = elim (Bool-cases env.bus_up) [
  | inl up ↦ rw up refl
  | inr down ↦ rw down refl
]

-- A return that names each line of the sale once, in quantities that are not negative, takes back
-- no more of any line than was sold, over all returns.
pub process_return-IsSettled :
    (env : Env) (dto : ReturnRequest) (s : Shop)
    → IsProper dto.lines
    → IsSettled s
    → IsSettled (process_return env dto s).1
unfolding process_return returned_transaction
process_return-IsSettled env dto s p settled =
    elim (Option-cases (find dto.original_transaction_id s.transactions)) [
      | inl unknown ↦ rw unknown settled
      | inr (t, known) ↦ elim (Result-cases (checked_lines t.lines dto.lines)) [
        | inl (e, failed) ↦ rw (known, failed) settled
        | inr (checked, passed) ↦
            let (fits, distinct, _) = checked_lines-proper t.lines dto.lines p passed in
            let rows = find-Rows (λ t. Rows IsReturnable t.lines) _ s.transactions settled known in
            rw (known, passed, write_return-transactions)
              (update-Rows (λ t. Rows IsReturnable t.lines) dto.original_transaction_id
                (returned_transaction checked) s.transactions settled known
                (increment_lines-Rows checked t.lines distinct fits rows))
      ]
    ]
