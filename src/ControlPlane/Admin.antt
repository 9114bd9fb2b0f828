-- ===== src/ControlPlane/Admin.antt =====
-- Enrollment, revocation, operator audit, listing and status of `ControlPlane` of
-- src/northgate_rmm/control_plane.py.
use northgate_rmm.Prelude.{
  ℕ, Bool, ◌&&◌, ◌||◌, not, Option, none, some, true, List, [], ◌∷◌, String, ℤ, pos, ltb, leb, ◌==◌,
  nat_eq, string_eq, is_some, get_or, if◌then◌else◌,
}
use northgate_rmm.Prelude.Int.{leb_ℤ, max_ℤ, pos_part}
use northgate_rmm.Prelude.Lists.{length, any, take, keep_if}
use northgate_rmm.Prelude.Dict.{lookup, insert, values}
use northgate_rmm.Prelude.Text.{uuid_str, str_leb, is_empty, len}
use northgate_rmm.Prelude.Result.{validation_error}
use northgate_rmm.Prelude.Sort.{sort_by}
use northgate_rmm.Prelude.Exec.{Exec, pure, raise, lift, gets, modify, when, ◌>>=◌, ◌>>◌}
use northgate_rmm.Domain.{
  Uuid, Datetime, between, require_aware, Platform, Endpoint, endpoint, EndpointIdentity,
  endpoint_identity, EndpointStatus, EndpointHealth, online, stale, offline, active, revoked,
  FreshnessPolicy, default_freshness_policy,
}
use northgate_rmm.ControlPlane.State.{ControlPlane, Runtime, draw, audit}
use northgate_rmm.ControlPlane.Messages.{get_endpoint, get_identity}
use Prim.Native.String.{◌++◌ as append}

-- `ControlPlane.list_endpoints`
unfoldable pub list_endpoints : ControlPlane → List Endpoint
list_endpoints s =
    sort_by (λ a b. str_leb (uuid_str a.endpoint_id) (uuid_str b.endpoint_id)) (values s.endpoints)

abbrev pub id_leb : Endpoint → Endpoint → Bool
id_leb a b = leb a.endpoint_id b.endpoint_id

-- `after is None or endpoint.endpoint_id > after`
abbrev pub is_after : Option Uuid → Endpoint → Bool
is_after none e = true
is_after (some cursor) e = ltb cursor e.endpoint_id

-- `ControlPlane.list_endpoint_page`: `nsmallest(n, it, key)` is `sorted(it, key=key)[:n]`
unfoldable pub list_endpoint_page : Option Uuid → ℤ → Exec ControlPlane (List Endpoint)
list_endpoint_page after limit = do
  when (not (leb_ℤ (pos 1) limit && leb_ℤ limit (pos 1000)))
      (raise (validation_error "endpoint page limit is invalid"))
  candidates ← gets (λ s. keep_if (is_after after) (values s.endpoints))
  pure (take (pos_part limit) (sort_by id_leb candidates))

-- `not value or len(value) > n`
abbrev pub is_unfit : ℕ → String → Bool
is_unfit n value = is_empty value || ltb n (len value)

-- The health that `endpoint_status` derives from the last heartbeat.
unfoldable pub derive_health : FreshnessPolicy → Datetime → Option Datetime → EndpointHealth
derive_health freshness now none = offline
derive_health freshness now (some last) =
    let age = max_ℤ (between now last) (pos 0) in
    if leb_ℤ age freshness.online_for
    then online
    else if leb_ℤ age freshness.stale_for
    then stale
    else offline

-- `ControlPlane.endpoint_status`
unfoldable pub endpoint_status :
    Uuid → Datetime → Option FreshnessPolicy → Exec ControlPlane EndpointStatus
endpoint_status endpoint_id now policy = do
  lift (require_aware now "now")
  e ← get_endpoint endpoint_id
  identity ← get_identity e.identity_id
  pure (record {
    endpoint_id = endpoint_id;
    lifecycle = identity.status;
    health = derive_health (get_or policy default_freshness_policy) now e.last_heartbeat_at;
    last_heartbeat_at = e.last_heartbeat_at;
  })

module _ (rt : Runtime) where
  -- `ControlPlane.record_operator_access`
  unfoldable pub record_operator_access :
      String
      → String
      → String
      → String
      → String
      → Uuid
      → Datetime
      → List (String × String)
      → Exec ControlPlane (Unit {0})
  record_operator_access actor_id subject action decision reason correlation_id now metadata = do
    lift (require_aware now "now")
    when (is_unfit 512 actor_id) (raise (validation_error "operator audit actor is invalid"))
    when (is_unfit 512 subject) (raise (validation_error "operator audit subject is invalid"))
    when (is_unfit 128 action) (raise (validation_error "operator audit action is invalid"))
    when (not (decision == "accepted" || decision == "rejected"))
        (raise (validation_error "operator audit decision is invalid"))
    when (is_unfit 512 reason) (raise (validation_error "operator audit reason is invalid"))
    when
        (ltb 8 (length metadata)
          || any (λ item. is_unfit 64 item.0 || ltb 512 (len item.1)) metadata)
        (raise (validation_error "operator audit metadata is invalid"))
    audit rt now "human_operator" actor_id subject action decision reason correlation_id metadata

  -- `ControlPlane.enroll_synthetic_endpoint`
  unfoldable pub enroll_synthetic_endpoint :
      String
      → Platform
      → String
      → String
      → Datetime
      → String
      → Exec ControlPlane (Endpoint × EndpointIdentity)
  enroll_synthetic_endpoint display_name platform architecture fingerprint now actor_id = do
    lift (require_aware now "now")
    taken ← gets (λ s. is_some (lookup fingerprint s.fingerprints))
    when taken (raise (validation_error "fingerprint is already enrolled"))
    endpoint_id ← draw rt
    identity_id ← draw rt
    identity ← lift (
        endpoint_identity (record {
          identity_id = identity_id;
          endpoint_id = endpoint_id;
          public_key_fingerprint = fingerprint;
          created_at = now;
          status = active;
          revoked_at = none;
          revocation_reason = none;
        }))
    e ← lift (
        endpoint (record {
          endpoint_id = endpoint_id;
          display_name = display_name;
          platform = platform;
          architecture = architecture;
          identity_id = identity_id;
          enrolled_at = now;
          last_receipt_at = none;
          last_heartbeat_at = none;
        }))
    modify λ s. record s {
      identities = insert identity_id identity s.identities;
      endpoints = insert endpoint_id e s.endpoints;
      fingerprints = insert fingerprint identity_id s.fingerprints;
    }
    correlation_id ← draw rt
    audit rt now "operator" actor_id (append "endpoint:" (uuid_str endpoint_id)) "endpoint.enroll"
        "accepted" "synthetic Phase 1 enrollment" correlation_id
        (("identity_id", uuid_str identity_id) ∷ [])
    pure (e, identity)

  -- `correlation_id or uuid4()`
  unfoldable pub correlation_or_draw : Option Uuid → Exec ControlPlane Uuid
  correlation_or_draw none = draw rt
  correlation_or_draw (some id) = pure id

  -- the branch of `revoke_identity` on an identity that has a time of revocation
  unfoldable pub note_revoked :
      EndpointIdentity → Uuid → String → Datetime → Uuid → Exec ControlPlane EndpointIdentity
  note_revoked identity identity_id actor_id now correlation_id = do
    audit rt now "operator" actor_id (append "identity:" (uuid_str identity_id)) "identity.revoke"
        "no_change" "identity already revoked" correlation_id []
    pure identity

  -- the rest of `revoke_identity`, on an identity that is not revoked
  unfoldable pub revoke_now :
      EndpointIdentity
      → Uuid
      → String
      → String
      → Datetime
      → Uuid
      → Exec ControlPlane EndpointIdentity
  revoke_now identity identity_id reason actor_id now correlation_id = do
    updated ← lift (
        endpoint_identity (record identity {
          status = revoked;
          revoked_at = some now;
          revocation_reason = some reason;
        }))
    modify (λ s. record s { identities = insert identity_id updated s.identities })
    audit rt now "operator" actor_id (append "identity:" (uuid_str identity_id)) "identity.revoke"
        "accepted" reason correlation_id []
    pure updated

  -- `ControlPlane.revoke_identity`
  unfoldable pub revoke_identity :
      Uuid → String → String → Datetime → Option Uuid → Exec ControlPlane EndpointIdentity
  revoke_identity identity_id reason actor_id now correlation_id = do
    lift (require_aware now "now")
    when (is_unfit 256 reason) (raise (validation_error "revocation reason is empty or too long"))
    identity ← get_identity identity_id
    event_correlation_id ← correlation_or_draw correlation_id
    if is_some identity.revoked_at
        then note_revoked identity identity_id actor_id now event_correlation_id
        else revoke_now identity identity_id reason actor_id now event_correlation_id
