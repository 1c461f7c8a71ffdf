-- ===== src/Common/Action.antt =====
-- A request to a service: it reads and writes the service's database, and may throw. What was
-- written before the throw stays written, unless the code runs it in one database transaction.
use mathlib.Core.Logic.{◌⊎◌, inl, inr}
use mathlib.Core.Path.{◌≡◌, refl, ap}
use mathlib.Core.Bool.{Bool, true, false}
use mathlib.Core.Option.{Option, none, some}
use merchandising_funnel_aut.Common.Tests.{if◌then◌else◌}

-- The exceptions that the services throw, by class, and the failures of the event bus and of a
-- call to another service.
pub data Error : Type 0 where
  not_found bad_request conflict forbidden : Error
  unbalanced permanent : Error
  unique_violation unavailable : Error

pub data Result {ℓ} (A : Type ℓ) : Type ℓ where
  ok : A → Result A
  err : Error → Result A

pub ok-injective {ℓ} : {A : Type ℓ} (a b : A) → ok a ≡ ok b → a ≡ b
ok-injective a b h = cc h

abbrev pub Action : Type 0 → Type 0 → Type 0
Action S A = S → Result A × S

module _ {S A : Type 0} where
  abbrev pub pure : A → Action S A
  pure a s = (ok a, s)

  abbrev pub throw : Error → Action S A
  throw e s = (err e, s)

  abbrev pub gets : (S → A) → Action S A
  gets f s = (ok (f s), s)

  abbrev pub or_throw : Option A → Error → Action S A
  or_throw none e = throw e
  or_throw (some a) e = pure a

  -- The answer of another service, or its failure.
  abbrev pub lift : Result A → Action S A
  lift r s = (r, s)

-- What follows a call: it runs on a result, and an exception passes it by.
abbrev pub resume : {S A B : Type 0} → (A → Action S B) → Result A → Action S B
resume f (ok a) s = f a s
resume f (err e) s = (err e, s)

infixl 5 ◌>>=◌ ◌>>◌
abbrev pub ◌>>=◌ : {S A B : Type 0} → Action S A → (A → Action S B) → Action S B
◌>>=◌ m f s = resume f (m s).0 (m s).1

abbrev pub ◌>>◌ : {S A B : Type 0} → Action S A → Action S B → Action S B
m >> k = m >>= λ _. k

abbrev pub throw_if : {S : Type 0} → Bool → Error → Action S (Unit {0})
throw_if c e s = (if c then err e else ok tt, s)

abbrev pub modify : {S : Type 0} → (S → S) → Action S (Unit {0})
modify f s = (ok tt, f s)

abbrev pub when : {S : Type 0} → Bool → Action S (Unit {0}) → Action S (Unit {0})
when c m s = if c then m s else (ok tt, s)

-- A property of the database that a call keeps, whether it throws or not.
abbrev pub Keeps {ℓ} : {S A : Type 0} → (S → Type ℓ) → Action S A → Type ℓ
Keeps {S = S} P m = (s : S) → P s → P (m s).1

pub Keeps-resume {ℓ} :
    {S A B : Type 0} (P : S → Type ℓ) (f : A → Action S B)
    → ((a : A) → Keeps P (f a))
    → (r : Result A) → Keeps P (resume f r)
Keeps-resume P f h (ok a) s p = h a s p
Keeps-resume P f h (err e) s p = p

pub Keeps-bind {ℓ} :
    {S A B : Type 0} (P : S → Type ℓ) (m : Action S A) (f : A → Action S B)
    → Keeps P m
    → ((a : A) → Keeps P (f a))
    → Keeps P (m >>= f)
Keeps-bind P m f hm hf s p = Keeps-resume P f hf (m s).0 (m s).1 (hm s p)

pub Keeps-when {ℓ} :
    {S : Type 0} (P : S → Type ℓ) (c : Bool) (m : Action S (Unit {0}))
    → Keeps P m
    → Keeps P (when c m)
Keeps-when P true m h s p = h s p
Keeps-when P false m h s p = p

-- Inversion of a chain of calls that does not throw.
pub resume-ok :
    {S A B : Type 0} (f : A → Action S B) (p : Result A × S) {b : B} {t : S}
    → resume f p.0 p.1 ≡ (ok b, t)
    → (a : A) × (u : S) × (p ≡ (ok a, u)) × (f a u ≡ (ok b, t))
resume-ok f (ok a, u) h = (a, u, refl, h)
resume-ok f (err e, u) h = absurd (cc (ap (λ p. p.0) h))

abbrev pub map_ok {ℓ κ} : {A : Type ℓ} {B : Type κ} → (A → B) → Result A → Result B
map_ok f (ok a) = ok (f a)
map_ok f (err e) = err e

abbrev pub bind_ok {ℓ κ} : {A : Type ℓ} {B : Type κ} → Result A → (A → Result B) → Result B
bind_ok (ok a) f = f a
bind_ok (err e) f = err e

-- Inversion of a chain that succeeds.
pub bind_ok-ok {ℓ κ} :
    {A : Type ℓ} {B : Type κ} (r : Result A) (f : A → Result B) {b : B}
    → bind_ok r f ≡ ok b
    → (a : A) × (r ≡ ok a) × (f a ≡ ok b)
bind_ok-ok (ok a) f h = (a, refl, h)
bind_ok-ok (err e) f h = absurd (cc h)

pub map_ok-ok {ℓ κ} :
    {A : Type ℓ} {B : Type κ} (r : Result A) (f : A → B) {b : B}
    → map_ok f r ≡ ok b
    → (a : A) × (r ≡ ok a) × (f a ≡ b)
map_ok-ok (ok a) f h = (a, refl, ok-injective _ _ h)
map_ok-ok (err e) f h = absurd (cc h)

pub throw_if-ok :
    {S : Type 0} (c : Bool) (e : Error) (s : S) {a : Unit {0}} {t : S}
    → throw_if c e s ≡ (ok a, t)
    → (c ≡ false) × (s ≡ t)
throw_if-ok true e s h = absurd (cc (ap (λ p. p.0) h))
throw_if-ok false e s h = (refl, ap (λ p. p.1) h)

pub or_throw-ok :
    {S A : Type 0} (o : Option A) (e : Error) (s : S) {a : A} {t : S}
    → or_throw o e s ≡ (ok a, t)
    → (o ≡ some a) × (s ≡ t)
or_throw-ok none e s h = absurd (cc (ap (λ p. p.0) h))
or_throw-ok (some b) e s h = (ap some (ok-injective _ _ (ap (λ p. p.0) h)), ap (λ p. p.1) h)

pub Result-cases {ℓ} :
    {A : Type ℓ} (r : Result A) → ((e : Error) × (r ≡ err e)) ⊎ ((a : A) × (r ≡ ok a))
Result-cases (err e) = inl (e, refl)
Result-cases (ok a) = inr (a, refl)

-- A database transaction: a throw takes back what was written in it.
abbrev pub rolled_back : {S A : Type 0} → S → Result A × S → Result A × S
rolled_back s (ok a, t) = (ok a, t)
rolled_back s (err e, t) = (err e, s)

abbrev pub transaction : {S A : Type 0} → Action S A → Action S A
transaction m s = rolled_back s (m s)

rolled_back_keeps {ℓ} :
    {S A : Type 0} (P : S → Type ℓ) (s : S)
    → P s
    → (r : Result A × S) → ((a : A) (t : S) → r ≡ (ok a, t) → P t)
    → P (rolled_back s r).1
rolled_back_keeps P s p (ok a, t) h = h a t refl
rolled_back_keeps P s p (err e, t) h = p

-- A transaction keeps what its body keeps when it does not throw.
pub transaction_keeps {ℓ} :
    {S A : Type 0} (P : S → Type ℓ) (m : Action S A) (s : S)
    → P s
    → ((a : A) (t : S) → m s ≡ (ok a, t) → P t)
    → P (transaction m s).1
transaction_keeps P m s p h = rolled_back_keeps P s p (m s) (λ a t e. h a t e)

pub rolled_back-ok :
    {S A : Type 0} (s t : S) (a : A) (r : Result A × S)
    → rolled_back s r ≡ (ok a, t)
    → r ≡ (ok a, t)
rolled_back-ok s t a (ok b, u) h = h
rolled_back-ok s t a (err e, u) h = absurd (cc (ap (λ p. p.0) h))

pub Keeps-or_throw {ℓ} :
    {S A : Type 0} (P : S → Type ℓ) (o : Option A) (e : Error) → Keeps P (or_throw o e)
Keeps-or_throw P none e s p = p
Keeps-or_throw P (some a) e s p = p
