-- ===== src/Prelude/Errors.antt =====
-- Python's exceptions as values.
use mathlib.Core.Path.{◌≡◌, refl}
use mathlib.Core.Option.{Option, none, some}
use mathlib.Core.Logic.{◌⊎◌, inl, inr}

pub data PyError : Type 0 where
  zero_division index_error value_error key_error attribute_error name_error type_error
        argument_type_error :
      PyError

pub data Result {ℓ} (A : Type ℓ) : Type ℓ where
  ok : A → Result A
  raised : PyError → Result A

infixl 5 ◌>>=◌
abbrev pub ◌>>=◌ {ℓ κ} : {A : Type ℓ} {B : Type κ} → Result A → (A → Result B) → Result B
ok a >>= f = f a
raised e >>= f = raised e

-- A lookup that raises where there is nothing.
abbrev pub or_raise {ℓ} : {A : Type ℓ} → Option A → PyError → Result A
or_raise none e = raised e
or_raise (some a) e = ok a

pub Result-cases {ℓ} :
    {A : Type ℓ} (r : Result A) → ((a : A) × (r ≡ ok a)) ⊎ ((e : PyError) × (r ≡ raised e))
Result-cases (ok a) = inl (a, refl)
Result-cases (raised e) = inr (e, refl)

-- What stands behind a chain that has returned.
pub returned {ℓ κ} :
    {A : Type ℓ} {B : Type κ} {out : B} (next : A → Result B) (r : Result A)
    → (r >>= next) ≡ ok out
    → (x : A) × (next x ≡ ok out) × (r ≡ ok x)
returned next (raised e) h = cc
returned next (ok x) h = (x, h, refl)

pub ok-injective {ℓ} : {A : Type ℓ} (a b : A) → ok a ≡ ok b → a ≡ b
ok-injective a b h = cc
