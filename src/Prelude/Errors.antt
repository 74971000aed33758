-- ===== src/Prelude/Errors.antt =====
-- A call that returns a value or raises. The errors are Python's exception classes with their text.
use Prim.Native.Nat.{ℕ}
use Prim.Native.String.{String}
use mathlib.Core.Bool.{Bool, true, false, not, ◌&&◌}
use mathlib.Core.Logic.{◌⊎◌, inl, inr}
use mathlib.Core.Path.{◌≡◌, refl}

pub data Error : Type 0 where
  value_error key_error index_error lookup_error runtime_error type_error : String → Error
  -- HTTPException: the status code and the detail
  http_error : ℕ → String → Error

pub data Outcome {ℓ} (A : Type ℓ) : Type ℓ where
  ok : A → Outcome A
  raised : Error → Outcome A

infixl 5 ◌>>=◌ ◌>>◌
abbrev pub ◌>>=◌ {ℓ κ} : {A : Type ℓ} {B : Type κ} → Outcome A → (A → Outcome B) → Outcome B
ok a >>= f = f a
raised e >>= f = raised e

abbrev pub ◌>>◌ {ℓ} : {B : Type ℓ} → Outcome (Unit {0}) → Outcome B → Outcome B
m >> k = m >>= λ _. k

-- `if test: raise error`
abbrev pub raise_if : Bool → Error → Outcome (Unit {0})
raise_if true e = raised e
raise_if false e = ok tt

abbrev pub is_ok {ℓ} : {A : Type ℓ} → Outcome A → Bool
is_ok (ok a) = true
is_ok (raised e) = false

-- If a chain of two calls succeeds, so does the first, and the second on its result.
pub ok_of_bind {ℓ κ} :
    {A : Type ℓ} {B : Type κ} (m : Outcome A) (f : A → Outcome B)
    → is_ok (m >>= f) ≡ true
    → (a : A) × (m ≡ ok a) × (is_ok (f a) ≡ true)
ok_of_bind (ok a) f h = (a, refl, h)
ok_of_bind (raised e) f h = cc

pub Outcome-cases {ℓ} :
    {A : Type ℓ} (r : Outcome A) → ((a : A) × (r ≡ ok a)) ⊎ ((e : Error) × (r ≡ raised e))
Outcome-cases (ok a) = inl (a, refl)
Outcome-cases (raised e) = inr (e, refl)

pub is_ok-bind {ℓ κ} :
    {A : Type ℓ} {B : Type κ} (m : Outcome A) (n : Outcome B)
    → is_ok (m >>= λ _. n) ≡ (is_ok m && is_ok n)
is_ok-bind (ok a) n = refl
is_ok-bind (raised e) n = refl

pub is_ok-raise_if : (c : Bool) (e : Error) → is_ok (raise_if c e) ≡ not c
is_ok-raise_if true e = refl
is_ok-raise_if false e = refl
