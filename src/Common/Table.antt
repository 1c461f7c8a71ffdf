-- ===== src/Common/Table.antt =====
-- A database table with a unique key, as the rows under their keys. The operations are the Prisma
-- calls that the services make: findUnique, create, update, upsert and updateMany.
use Prim.Native.Nat.{ℕ, suc}
use mathlib.Core.Path.{◌≡◌, refl, sym, subst}
use mathlib.Core.Logic.{inl, inr}
use mathlib.Core.List.{List, [], ◌∷◌}
use mathlib.Core.Option
use mathlib.Core.Option.{Option, none, some}
use native.Mathlib.Omega.{arith}
use merchandising_funnel_aut.Common.Tests.{Bool-cases, Key, if◌then◌else◌}
use merchandising_funnel_aut.Common.Int.{ℤ, pos, ◌+ℤ◌, int_laws}

abbrev pub Table {ℓ κ} : Type ℓ → Type κ → Type (ℓ ⊔ κ)
Table K V = List (K × V)

-- The row that an `upsert` leaves.
abbrev pub upserted {ℓ} : {V : Type ℓ} → V → (V → V) → Option V → V
upserted v f none = v
upserted v f (some w) = f w

-- Rows with fresh identifiers, from the next one on.
abbrev pub number_rows {ℓ} : {A : Type ℓ} → ℕ → List A → Table ℕ A
number_rows id [] = []
number_rows id (row ∷ rows) = (id, row) ∷ number_rows (suc id) rows

module _ {ℓ κ} {K : Type ℓ} {V : Type κ} ⦃e : Key K⦄ where
  -- `findUnique`
  abbrev pub find : K → Table K V → Option V
  find k [] = none
  find k ((j, v) ∷ t) = if e.same j k then some v else find k t

  -- `create`, where the key is not taken
  abbrev pub create : K → V → Table K V → Table K V
  create k v [] = (k, v) ∷ []
  create k v (x ∷ t) = x ∷ create k v t

  -- `update` and, on a unique key, `updateMany`: nothing happens where no row has the key.
  abbrev pub update : K → (V → V) → Table K V → Table K V
  update k f [] = []
  update k f ((j, v) ∷ t) = if e.same j k then (j, f v) ∷ t else (j, v) ∷ update k f t

  -- `upsert`
  abbrev pub upsert : K → V → (V → V) → Table K V → Table K V
  upsert k v f [] = (k, v) ∷ []
  upsert k v f ((j, w) ∷ t) = if e.same j k then (j, f w) ∷ t else (j, w) ∷ upsert k v f t

  pub find-update :
      (k j : K) (f : V → V) (t : Table K V)
      → find j (update k f t) ≡ (if e.same k j then Option.map f (find j t) else find j t)
  find-update k j f [] = ground arith
  find-update k j f ((i, v) ∷ t) =
      ground (arith, e.same_iff i k, e.same_iff i j, e.same_iff k j, find-update k j f t)

  pub find-upsert :
      (k j : K) (v : V) (f : V → V) (t : Table K V)
      → find j (upsert k v f t) ≡ (if e.same k j then some (upserted v f (find j t)) else find j t)
  find-upsert k j v f [] = refl
  find-upsert k j v f ((i, w) ∷ t) =
      ground (arith, e.same_iff i k, e.same_iff i j, e.same_iff k j, find-upsert k j v f t)

  pub find-create :
      (k j : K) (v : V) (t : Table K V)
      → find j (create k v t)
        ≡ elim (find j t) [ none ↦ if e.same k j then some v else none | some w ↦ some w ]
  find-create k j v [] = refl
  find-create k j v ((i, w) ∷ t) = ground (arith, find-create k j v t)

  -- The sum of a column over the rows.
  abbrev pub total : (V → ℤ) → Table K V → ℤ
  total f [] = pos 0
  total f ((_, v) ∷ t) = f v +ℤ total f t

  pub total-create :
      (f : V → ℤ) (k : K) (v : V) (t : Table K V) → total f (create k v t) ≡ total f t +ℤ f v
  total-create f k v [] = omega int_laws
  total-create f k v ((i, w) ∷ t) = rw (total-create f k v t) (omega int_laws)

  pub total-update :
      (f : V → ℤ) (k : K) (g : V → V) {v : V} (t : Table K V)
      → find k t ≡ some v
      → total f (update k g t) +ℤ f v ≡ total f t +ℤ f (g v)
  total-update f k g [] h = cc
  total-update f k g {v} ((i, w) ∷ t) h = grind (int_laws, total-update f k g {v = v} t)

  -- What holds of every row.
  abbrev pub Rows {μ} : (V → Type μ) → Table K V → Type μ
  Rows P [] = Unit
  Rows P ((_, v) ∷ t) = P v × Rows P t

  pub find-Rows {μ} :
      (P : V → Type μ) (k : K) {v : V} (t : Table K V) → Rows P t → find k t ≡ some v → P v
  find-Rows P k {v} [] p h = absurd (cc h)
  find-Rows P k {v} ((j, w) ∷ t) (p, ps) h = elim (Bool-cases (e.same j k)) [
    | inl here ↦
        let same : some w ≡ some v = rw here at h in subst P (Option.some-injective w v same) p
    | inr there ↦ find-Rows P k t ps (rw there at h)
  ]

  pub update-Rows {μ} :
      (P : V → Type μ) (k : K) (f : V → V) {v : V} (t : Table K V)
      → Rows P t
      → find k t ≡ some v
      → P (f v)
      → Rows P (update k f t)
  update-Rows P k f {v} [] p h q = tt
  update-Rows P k f {v} ((j, w) ∷ t) (p, ps) h q = elim (Bool-cases (e.same j k)) [
    | inl here ↦
        let same : some w ≡ some v = rw here at h in
        rw here (subst (λ x. P (f x)) (sym (Option.some-injective w v same)) q, ps)
    | inr there ↦ rw there (p, update-Rows P k f t ps (rw there at h) q)
  ]

  pub upsert-Rows {μ} :
      (P : V → Type μ) (k : K) (v : V) (f : V → V) (t : Table K V)
      → Rows P t
      → P v
      → ((w : V) → P w → P (f w))
      → Rows P (upsert k v f t)
  upsert-Rows P k v f [] p q g = (q, tt)
  upsert-Rows P k v f ((j, w) ∷ t) (p, ps) q g = elim (Bool-cases (e.same j k)) [
    | inl here ↦ rw here (g w p, ps)
    | inr there ↦ rw there (p, upsert-Rows P k v f t ps q g)
  ]

  pub create-Rows {μ} :
      (P : V → Type μ) (k : K) (v : V) (t : Table K V) → Rows P t → P v → Rows P (create k v t)
  create-Rows P k v [] p q = (q, tt)
  create-Rows P k v ((j, w) ∷ t) (p, ps) q = (p, create-Rows P k v t ps q)

  -- An amount that is added to a row, or starts one.
  pub total-upsert :
      (f : V → ℤ) (k : K) (v : V) (g : V → V) (a : ℤ) (t : Table K V)
      → f v ≡ a
      → ((w : V) → f (g w) ≡ f w +ℤ a)
      → total f (upsert k v g t) ≡ total f t +ℤ a
  total-upsert f k v g a [] h i = rw h (omega int_laws)
  total-upsert f k v g a ((j, w) ∷ t) h i = elim (Bool-cases (e.same j k)) [
    | inl here ↦ rw (here, i w) (omega int_laws)
    | inr there ↦ rw (there, total-upsert f k v g a t h i) (omega int_laws)
  ]

-- A change that keeps what holds of a row keeps what holds of every row.
pub Rows-update {ℓ κ μ} :
    {K : Type ℓ} {V : Type κ} ⦃e : Key K⦄ (P : V → Type μ) (k : K) (f : V → V) (t : Table K V)
    → ((v : V) → P v → P (f v))
    → Rows P t
    → Rows P (update k f t)
Rows-update P k f [] h rows = tt
Rows-update ⦃e⦄ P k f ((j, v) ∷ t) h (p, rows) = elim (Bool-cases (e.same j k)) [
  | inl here ↦ rw here (h v p, rows)
  | inr there ↦ rw there (p, Rows-update P k f t h rows)
]
