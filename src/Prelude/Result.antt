-- ===== src/Prelude/Result.antt =====
-- The exceptions of errors.py, with their messages, and pure code that may raise one.
use Prim.Native.String.{String}
use mathlib.Core.Bool.{Bool}
use mathlib.Core.Path.{◌≡◌, refl}
use northgate_rmm.Prelude.Tests.{if◌then◌else◌}

pub data Error : Type 0 where
  validation_error : String → Error
  authorization_error : String → Error
  service_unavailable_error : String → Error
  replay_error : String → Error
  not_found_error : String → Error

pub data Result {ℓ} (A : Type ℓ) : Type ℓ where
  ok : A → Result A
  err : Error → Result A

infixl 5 ◌>>=◌ ◌>>◌
abbrev pub ◌>>=◌ {ℓ κ} : {A : Type ℓ} {B : Type κ} → Result A → (A → Result B) → Result B
ok a >>= f = f a
err e >>= f = err e

abbrev pub ◌>>◌ {ℓ κ} : {A : Type ℓ} {B : Type κ} → Result A → Result B → Result B
m >> k = m >>= λ _. k

-- `if c: raise e`
abbrev pub raise_if : Bool → Error → Result (Unit {0})
raise_if c e = if c then err e else ok tt

-- A block that returns ran its first part to a value, and a test before it was false.
pub bind-inverts {ℓ κ} :
    {A : Type ℓ} {B : Type κ} (r : Result A) (f : A → Result B) {b : B}
    → (r >>= f) ≡ ok b
    → (a : A) × (r ≡ ok a) × (f a ≡ ok b)
bind-inverts (ok a) f h = (a, refl, h)
bind-inverts (err e) f h = cc
