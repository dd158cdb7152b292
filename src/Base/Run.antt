-- ===== src/Base/Run.antt =====
-- The outcome of running C or C++ code: a value, undefined behaviour, or an exception that
-- nobody catches.
use mathlib.Core.Path.{◌≡◌, refl, ap}
use mathlib.Core.Logic.{◌⊎◌, inl, inr}
use mathlib.Core.Option.{Option, none, some}

pub data Fault : Type 0 where
  undefined uncaught : Fault

pub data Run {ℓ} (A : Type ℓ) : Type ℓ where
  ok : A → Run A
  fault : Fault → Run A

infixl 5 ◌>>=◌ ◌>>◌
abbrev pub ◌>>=◌ {ℓ κ} : {A : Type ℓ} {B : Type κ} → Run A → (A → Run B) → Run B
ok a >>= f = f a
fault e >>= f = fault e

abbrev pub ◌>>◌ {ℓ κ} : {A : Type ℓ} {B : Type κ} → Run A → Run B → Run B
m >> k = m >>= λ _. k

-- A read through an address or an index at which nothing is stored is undefined.
abbrev pub defined {ℓ} : {A : Type ℓ} → Option A → Run A
defined none = fault undefined
defined (some a) = ok a

-- The outcome is a value for which `P` holds.
abbrev pub Returns {ℓ} : {A : Type ℓ} → (A → Type 0) → Run A → Type 0
Returns P (ok a) = P a
Returns P (fault e) = ⊥

-- The outcome, if it is a value, is one for which `P` holds.
abbrev pub Yields {ℓ} : {A : Type ℓ} → (A → Type 0) → Run A → Type 0
Yields P (ok a) = P a
Yields P (fault e) = Unit {0}

pub Run-cases {ℓ} :
    {A : Type ℓ} (r : Run A) → ((a : A) × (r ≡ ok a)) ⊎ ((e : Fault) × (r ≡ fault e))
Run-cases (ok a) = inl (a, refl)
Run-cases (fault e) = inr (e, refl)

module _ {ℓ κ} {A : Type ℓ} {B : Type κ} where
  pub Yields-bind :
      (P : A → Type 0) (Q : B → Type 0) (m : Run A) (f : A → Run B)
      → Yields P m
      → ((a : A) → P a → Yields Q (f a))
      → Yields Q (m >>= f)
  Yields-bind P Q (ok a) f h k = k a h
  Yields-bind P Q (fault e) f h k = tt

  pub Returns-bind :
      (P : A → Type 0) (Q : B → Type 0) (m : Run A) (f : A → Run B)
      → Returns P m
      → ((a : A) → P a → Returns Q (f a))
      → Returns Q (m >>= f)
  Returns-bind P Q (ok a) f h k = k a h
  Returns-bind P Q (fault e) f h k = absurd h

pub Returns-Yields {ℓ} : {A : Type ℓ} (P : A → Type 0) (m : Run A) → Returns P m → Yields P m
Returns-Yields P (ok a) h = h
Returns-Yields P (fault e) h = tt

pub Yields-true {ℓ} : {A : Type ℓ} (m : Run A) → Yields (λ _. Unit {0}) m
Yields-true (ok a) = tt
Yields-true (fault e) = tt

pub Returns-mono {ℓ} :
    {A : Type ℓ} (P Q : A → Type 0) (m : Run A) → Returns P m → ((a : A) → P a → Q a) → Returns Q m
Returns-mono P Q (ok a) h k = k a h
Returns-mono P Q (fault e) h k = absurd h

-- A run that returns has a value.
pub Returns-ok {ℓ} :
    {A : Type ℓ} (P : A → Type 0) (m : Run A) → Returns P m → (a : A) × (m ≡ ok a) × P a
Returns-ok P (ok a) h = (a, refl, h)
Returns-ok P (fault e) h = absurd h

pub ok_injective {ℓ} : {A : Type ℓ} {a b : A} → ok a ≡ ok b → a ≡ b
ok_injective {a} e = ap (λ r. elim r [ ok x ↦ x | fault f ↦ a ]) e

pub fault_injective {ℓ} : {A : Type ℓ} {e f : Fault} → ◌≡◌ {A = Run A} (fault e) (fault f) → e ≡ f
fault_injective {e} p = ap (λ r. elim r [ ok x ↦ e | fault f ↦ f ]) p
