-- ===== src/Domain/Grant.antt =====
-- Enrollment grants of src/northgate_rmm/domain.py.
use northgate_rmm.Prelude.{
  not, ◌||◌, Option, none, some, String, pos, ltb, leb, is_some, ◌==◌, string_eq, ◌&&◌,
}
use mathlib.Core.Bool.{xor}
use northgate_rmm.Prelude.Int.{leb_ℤ, ltb_ℤ}
use northgate_rmm.Prelude.Text.{codes, is_empty, len, is_hex64}
use northgate_rmm.Prelude.Result.{Result, ok, validation_error, raise_if, ◌>>◌}
use northgate_rmm.Domain.Time.{
  Datetime, require_aware, instant, between, max_display_name_length, max_enrollment_grant_ttl,
}
use northgate_rmm.Domain.Identity.{Uuid, Platform, linux, same_platform}

pub record EnrollmentGrant : Type 0 where
  pub grant_id : Uuid
  pub token_sha256 : String
  pub display_name : String
  pub platform : Platform
  pub architecture : String
  pub created_at : Datetime
  pub expires_at : Datetime
  pub created_by : String
  pub consumed_at : Option Datetime
  pub consumed_identity_id : Option Uuid

-- `created_utc <= consumed_utc < expires_utc`
consumption_time : EnrollmentGrant → Option Datetime → Result (Unit {0})
consumption_time g none = ok tt
consumption_time g (some at) = do
  require_aware at "consumed_at"
  raise_if
      (not (leb (instant g.created_at) (instant at) && ltb (instant at) (instant g.expires_at)))
      (validation_error "enrollment grant consumption time is invalid")

-- `EnrollmentGrant.__post_init__`
unfoldable pub enrollment_grant : EnrollmentGrant → Result EnrollmentGrant
unfolding consumption_time require_aware
enrollment_grant g = do
  require_aware g.created_at "created_at"
  require_aware g.expires_at "expires_at"
  raise_if (not (is_hex64 (codes g.token_sha256)))
      (validation_error "token_sha256 must be a lowercase SHA-256 value")
  raise_if (is_empty g.display_name || ltb max_display_name_length (len g.display_name))
      (validation_error "display_name is empty or too long")
  raise_if (not (same_platform g.platform linux))
      (validation_error "v1 enrollment grants support Linux only")
  raise_if (not (g.architecture == "amd64"))
      (validation_error "v1 enrollment grants support amd64 only")
  raise_if (is_empty g.created_by || ltb 256 (len g.created_by))
      (validation_error "created_by is empty or too long")
  raise_if
      (leb_ℤ (between g.expires_at g.created_at) (pos 0)
        || ltb_ℤ (pos max_enrollment_grant_ttl) (between g.expires_at g.created_at))
      (validation_error "enrollment grant lifetime is invalid")
  raise_if (xor (is_some g.consumed_at) (is_some g.consumed_identity_id))
      (validation_error "enrollment grant consumption state is incomplete")
  consumption_time g g.consumed_at
  ok g
