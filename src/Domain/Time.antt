-- ===== src/Domain/Time.antt =====
-- Timestamps and limits of src/northgate_rmm/domain.py. An aware `datetime` is its instant, in
-- microseconds from a fixed origin that is earlier than every representable time, so that it is a
-- natural number; comparison and subtraction of aware values go by the instant. `invalid` is a
-- value whose `utcoffset()` raises.
use Prim.Native.String.{◌++◌ as append}
use northgate_rmm.Prelude.{
  ◌≡◌, refl, ◌⊎◌, inl, inr, arith, ℕ, ◌*◌, ◌-◌, ◌^◌, ℤ, pos, String, ltb, if◌then◌else◌,
}
use northgate_rmm.Prelude.Int.{sub_ℕ}
use northgate_rmm.Prelude.Result.{Error, Result, ok, err, validation_error}

pub data Datetime : Type 0 where
  aware : ℕ → Datetime
  naive : Datetime
  invalid : Datetime

abbrev pub seconds : ℕ → ℕ
seconds n = n * 1000000

abbrev pub minutes : ℕ → ℕ
minutes n = seconds (n * 60)

abbrev pub protocol_version : ℤ
protocol_version = pos 1

abbrev pub max_message_ttl : ℕ
max_message_ttl = minutes 5

abbrev pub max_clock_skew : ℕ
max_clock_skew = minutes 5

abbrev pub max_enrollment_grant_ttl : ℕ
max_enrollment_grant_ttl = minutes 15

abbrev pub max_sequence : ℕ
max_sequence = 2 ^ 63 - 1

abbrev pub max_display_name_length : ℕ
max_display_name_length = 128

abbrev pub max_agent_version_length : ℕ
max_agent_version_length = 64

abbrev pub max_capabilities : ℕ
max_capabilities = 32

abbrev pub max_inventory_fields : ℕ
max_inventory_fields = 128

abbrev pub max_inventory_key_length : ℕ
max_inventory_key_length = 64

abbrev pub max_inventory_value_length : ℕ
max_inventory_value_length = 512

unfoldable pub require_aware : Datetime → String → Result (Unit {0})
require_aware (aware t) field_name = ok tt
require_aware naive field_name =
    err (validation_error (append field_name " must include a timezone"))
require_aware invalid field_name =
    err (validation_error (append field_name " must include a valid timezone"))

-- The instant of a value that `require_aware` has passed; no other value is compared.
abbrev pub instant : Datetime → ℕ
instant (aware t) = t
instant naive = 0
instant invalid = 0

abbrev pub IsAware : Datetime → Type 0
IsAware (aware t) = Unit
IsAware naive = ⊥
IsAware invalid = ⊥

-- `a - b`, a timedelta in microseconds
abbrev pub between : Datetime → Datetime → ℤ
between a b = sub_ℕ (instant a) (instant b)

-- `max(a, b)` of two aware values: the first where they are equal
abbrev pub latest : Datetime → Datetime → Datetime
latest a b = if ltb (instant a) (instant b) then b else a

-- `require_aware` passes exactly the aware values.
pub require_aware-cases :
    (t : Datetime) (name : String)
    → (IsAware t × (require_aware t name ≡ ok tt))
      ⊎ (¬ IsAware t × (e : Error) × (require_aware t name ≡ err e))
unfolding require_aware
require_aware-cases (aware n) name = inl (tt, refl)
require_aware-cases naive name = inr ((λ h. h), _, refl)
require_aware-cases invalid name = inr ((λ h. h), _, refl)

pub require_aware-IsAware :
    (t : Datetime) (name : String) → IsAware t → require_aware t name ≡ ok tt
unfolding require_aware
require_aware-IsAware (aware n) name h = refl
require_aware-IsAware naive name h = absurd h
require_aware-IsAware invalid name h = absurd h

pub latest-IsAware : (a b : Datetime) → IsAware a → IsAware b → IsAware (latest a b)
latest-IsAware a b h k = ground arith

pub IsAware-require_aware :
    (t : Datetime) (name : String) → require_aware t name ≡ ok tt → IsAware t
unfolding require_aware
IsAware-require_aware (aware n) name h = tt
IsAware-require_aware naive name h = cc
IsAware-require_aware invalid name h = cc
