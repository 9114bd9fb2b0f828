-- ===== src/Domain/Identity.antt =====
-- Platforms, lifecycles, endpoint identities, endpoints and freshness policies of
-- src/northgate_rmm/domain.py. A dataclass is a record of the values that its constructor was
-- given; its `__post_init__` is the check that returns the record or raises.
use northgate_rmm.Prelude.{
  ◌≡◌, arith, ℕ, Bool, true, false, not, ◌||◌, Option, none, some, String, ℤ, pos, ltb, is_some,
  if◌then◌else◌,
}
use northgate_rmm.Prelude.Int.{leb_ℤ}
use northgate_rmm.Prelude.Text.{codes, is_empty, len, is_hex64, fullmatch_after}
use northgate_rmm.Prelude.Result.{Result, ok, validation_error, raise_if, ◌>>◌}
use northgate_rmm.Domain.Time.{
  Datetime, require_aware, instant, seconds, minutes, max_display_name_length,
}

-- A UUID is its 128-bit integer: equality and order of UUIDs are those of the integers.
abbrev pub Uuid : Type 0
Uuid = ℕ

pub data Platform : Type 0 where
  linux windows : Platform

abbrev pub platform_value : Platform → String
platform_value linux = "linux"
platform_value windows = "windows"

abbrev pub same_platform : Platform → Platform → Bool
same_platform linux linux = true
same_platform linux windows = false
same_platform windows linux = false
same_platform windows windows = true

pub data EndpointLifecycle : Type 0 where
  pending issued active retired revoked : EndpointLifecycle

pub data EndpointHealth : Type 0 where
  online stale offline : EndpointHealth

abbrev pub lifecycle_value : EndpointLifecycle → String
lifecycle_value pending = "pending"
lifecycle_value issued = "issued"
lifecycle_value active = "active"
lifecycle_value retired = "retired"
lifecycle_value revoked = "revoked"

abbrev pub health_value : EndpointHealth → String
health_value online = "online"
health_value stale = "stale"
health_value offline = "offline"

pub record FreshnessPolicy : Type 0 where
  pub online_for : ℤ
  pub stale_for : ℤ

abbrev pub default_freshness_policy : FreshnessPolicy
default_freshness_policy = record { online_for = pos (seconds 90); stale_for = pos (minutes 5) }

-- `FreshnessPolicy.__post_init__`
unfoldable pub freshness_policy : FreshnessPolicy → Result FreshnessPolicy
freshness_policy p = do
  raise_if (leb_ℤ p.online_for (pos 0)) (validation_error "online_for must be positive")
  raise_if (leb_ℤ p.stale_for p.online_for) (validation_error "stale_for must exceed online_for")
  ok p

-- `re.fullmatch(r"sha256:[0-9a-f]{64}", s) is not None`
unfoldable pub is_fingerprint : String → Bool
unfolding fullmatch_after is_hex64
is_fingerprint s = fullmatch_after (codes "sha256:") is_hex64 (codes s)

pub record EndpointIdentity : Type 0 where
  pub identity_id : Uuid
  pub endpoint_id : Uuid
  pub public_key_fingerprint : String
  pub created_at : Datetime
  pub status : EndpointLifecycle
  pub revoked_at : Option Datetime
  pub revocation_reason : Option String

abbrev pub is_revoked : EndpointLifecycle → Bool
is_revoked revoked = true
is_revoked _ = false

-- `not reason` of an optional text: it is None or empty
abbrev pub is_blank : Option String → Bool
is_blank none = true
is_blank (some s) = is_empty s

-- the test on the revocation facts
revocation_facts : EndpointIdentity → Result (Unit {0})
revocation_facts i =
    if is_revoked i.status
    then raise_if (not (is_some i.revoked_at) || is_blank i.revocation_reason)
        (validation_error "revoked identity requires time and reason")
    else raise_if (is_some i.revoked_at || is_some i.revocation_reason)
        (validation_error "only a revoked identity may have revocation facts")

-- the test on the time of revocation
revocation_time : EndpointIdentity → Option Datetime → Result (Unit {0})
revocation_time i none = ok tt
revocation_time i (some at) = do
  require_aware at "revoked_at"
  raise_if (ltb (instant at) (instant i.created_at))
      (validation_error "revocation cannot predate identity creation")

-- `EndpointIdentity.__post_init__`
unfoldable pub endpoint_identity : EndpointIdentity → Result EndpointIdentity
unfolding revocation_facts revocation_time
endpoint_identity i = do
  require_aware i.created_at "created_at"
  raise_if (not (is_fingerprint i.public_key_fingerprint))
      (validation_error "fingerprint must be a lowercase SHA-256 value")
  revocation_facts i
  revocation_time i i.revoked_at
  ok i

pub record Endpoint : Type 0 where
  pub endpoint_id : Uuid
  pub display_name : String
  pub platform : Platform
  pub architecture : String
  pub identity_id : Uuid
  pub enrolled_at : Datetime
  pub last_receipt_at : Option Datetime
  pub last_heartbeat_at : Option Datetime

-- `if value is not None: require_aware(value, name)`
unfoldable pub require_aware_if : Option Datetime → String → Result (Unit {0})
require_aware_if none name = ok tt
require_aware_if (some t) name = require_aware t name

-- `Endpoint.__post_init__`
unfoldable pub endpoint : Endpoint → Result Endpoint
endpoint e = do
  require_aware e.enrolled_at "enrolled_at"
  raise_if (is_empty e.display_name || ltb max_display_name_length (len e.display_name))
      (validation_error "display_name is empty or too long")
  raise_if (is_empty e.architecture || ltb 32 (len e.architecture))
      (validation_error "architecture is empty or too long")
  require_aware_if e.last_receipt_at "last_receipt_at"
  require_aware_if e.last_heartbeat_at "last_heartbeat_at"
  ok e

-- The checks return the record that they were given.
pub endpoint_identity-eq : (i j : EndpointIdentity) → endpoint_identity i ≡ ok j → j ≡ i
unfolding endpoint_identity
endpoint_identity-eq i j h = ground arith

pub endpoint-eq : (e f : Endpoint) → endpoint e ≡ ok f → f ≡ e
unfolding endpoint
endpoint-eq e f h = ground arith

-- The times of an endpoint that passed the checks are aware, and it passes again with other times
-- that are.
module _ (e : Endpoint) (valid : endpoint e ≡ ok e) where
  pub receipt-passes : require_aware_if e.last_receipt_at "last_receipt_at" ≡ ok tt
  unfolding endpoint
  receipt-passes = ground arith

  pub heartbeat-passes : require_aware_if e.last_heartbeat_at "last_heartbeat_at" ≡ ok tt
  unfolding endpoint
  heartbeat-passes = ground arith

  pub endpoint-touch :
      (r h : Option Datetime)
      → require_aware_if r "last_receipt_at" ≡ ok tt
      → require_aware_if h "last_heartbeat_at" ≡ ok tt
      → endpoint (record e { last_receipt_at = r; last_heartbeat_at = h })
        ≡ ok (record e { last_receipt_at = r; last_heartbeat_at = h })
  unfolding endpoint
  endpoint-touch r h pr ph = ground arith

pub record EndpointStatus : Type 0 where
  pub endpoint_id : Uuid
  pub lifecycle : EndpointLifecycle
  pub health : EndpointHealth
  pub last_heartbeat_at : Option Datetime
