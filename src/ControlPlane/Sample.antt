-- ===== src/ControlPlane/Sample.antt =====
-- A run of the control plane of src/northgate_rmm/control_plane.py at concrete inputs.
use northgate_rmm.Prelude.{
  ◌≡◌, refl, ℕ, none, some, true, List, [], ◌∷◌, String, pos, nat_eq, string_eq,
}
use northgate_rmm.Prelude.Lists.{All, length, member, add}
use northgate_rmm.Prelude.Dict.{lookup, insert, erase}
use northgate_rmm.Prelude.Text.{is_hex64, fullmatch_after}
use northgate_rmm.Prelude.Result.{ok}
use northgate_rmm.Prelude.Exec.{◌>>=◌, when}
use northgate_rmm.Domain.{
  Endpoint, of_heartbeat, Datetime, aware, revoked, require_aware, endpoint, endpoint_identity,
  require_aware_if, is_fingerprint, observation, heartbeat_digest, inventory_digest, linux,
  EndpointIdentity, active, MessageEnvelope, message_envelope, HeartbeatMessage, InventoryMessage,
  Observation,
}
use northgate_rmm.ControlPlane.{
  ControlPlane, Runtime, init, ingest_heartbeat, ingest_inventory, authorize_message,
  enroll_synthetic_endpoint, revoke_identity, revoke_now, get_identity, draw, audit,
  correlation_or_draw, get_endpoint, authorize_found, accept_message, previous_sequence,
  audit_acceptance, reject,
}
use northgate_rmm.ControlPlane.Ingest.Facts.{IsHexDigest}
use northgate_rmm.ControlPlane.Change.{
  Operation, enroll, heartbeat, inventory, revoke, perform, perform_all, IsWellFormed,
}
use northgate_rmm.ControlPlane.Consistency.{IsConsistent, IsInjective}
use northgate_rmm.ControlPlane.Runs.{reachable-IsConsistent}
use northgate_rmm.ControlPlane.Permanence.{ingest}

-- UUIDs are drawn in turn, and every digest is one text.
abbrev pub runtime : Runtime
runtime = record {
  uuid4 = λ n. n;
  sha256_hex = λ bytes. "aaaaaaaaaaaaaaaaaaaaaaaaaaaaaaaaaaaaaaaaaaaaaaaaaaaaaaaaaaaaaaaa";
}

pub digests : IsHexDigest runtime
unfolding is_hex64
digests bytes = refl

pub distinct : IsInjective runtime
distinct m n same = same

abbrev pub fingerprint : String
fingerprint = "sha256:bbbbbbbbbbbbbbbbbbbbbbbbbbbbbbbbbbbbbbbbbbbbbbbbbbbbbbbbbbbbbbbb"

-- The first enrollment draws endpoint 0 and identity 1.
abbrev pub start : Datetime
start = aware 1000000000

abbrev pub envelope : ℕ → ℕ → MessageEnvelope
envelope message_id sequence = record {
  message_id = message_id;
  endpoint_id = 0;
  boot_id = 70;
  sequence = pos sequence;
  created_at = start;
  expires_at = aware 1060000000;
  correlation_id = 80;
  version = pos 1;
}

abbrev pub beat : ℕ → ℕ → HeartbeatMessage
beat message_id sequence = record {
  envelope = envelope message_id sequence;
  payload = record { agent_version = "1.0"; capabilities = "inventory" ∷ [] };
}

abbrev pub listing : ℕ → ℕ → InventoryMessage
listing message_id sequence = record {
  envelope = envelope message_id sequence;
  payload = record {
    platform = linux;
    architecture = "x86_64";
    fields = ("kernel", "6.1") ∷ [];
    collector_complete = true;
    schema_version = pos 1;
  };
}

abbrev pub enrollment : Operation
enrollment = enroll "web-1" linux "x86_64" fingerprint start "operator-1"

abbrev pub calls : List Operation
calls =
    enrollment
    ∷ heartbeat 1 (beat 50 1) start
    ∷ inventory 1 (listing 51 2) start
    ∷ heartbeat 1 (beat 50 3) start
    ∷ revoke 1 "lost" "operator-1" start none
    ∷ heartbeat 1 (beat 52 4) start
    ∷ []

pub well_formed :
    (m : ℕ) → All (λ n. message_envelope (envelope m n) ≡ ok (envelope m n)) (1 ∷ 2 ∷ 3 ∷ 4 ∷ [])
unfolding message_envelope require_aware
well_formed m = (refl, (refl, (refl, (refl, tt))))

pub calls-IsWellFormed : All IsWellFormed calls
calls-IsWellFormed = (
  tt,
  (
    (well_formed 50).0,
    ((well_formed 51).1.0, ((well_formed 50).1.1.0, (tt, ((well_formed 52).1.1.1.0, tt)))),
  ),
)

abbrev pub after_enrollment : ControlPlane
after_enrollment = perform_all runtime (enrollment ∷ []) init

abbrev pub after_revocation : ControlPlane
after_revocation =
    perform_all runtime (enrollment ∷ revoke 1 "lost" "operator-1" start none ∷ []) init

abbrev pub live : EndpointIdentity
live = record {
  identity_id = 1;
  endpoint_id = 0;
  public_key_fingerprint = fingerprint;
  created_at = start;
  status = active;
  revoked_at = none;
  revocation_reason = none;
}

abbrev pub dead : EndpointIdentity
dead = record live { status = revoked; revoked_at = some start; revocation_reason = some "lost" }

pub enrolled_found : lookup 1 after_enrollment.identities ≡ some live
unfolding perform_all perform enroll_synthetic_endpoint revoke_identity revoke_now get_identity
    lookup insert erase draw audit when ◌>>=◌ endpoint endpoint_identity require_aware
    require_aware_if is_fingerprint is_hex64 fullmatch_after correlation_or_draw
enrolled_found = refl

pub revoked_found : lookup 1 after_revocation.identities ≡ some dead
unfolding perform_all perform enroll_synthetic_endpoint revoke_identity revoke_now get_identity
    lookup insert erase draw audit when ◌>>=◌ endpoint endpoint_identity require_aware
    require_aware_if is_fingerprint is_hex64 fullmatch_after correlation_or_draw
revoked_found = refl

-- The second heartbeat repeats a message ID and the last comes from a revoked identity: two messages
-- are accepted, and every call leaves one audit event.
calls_run :
    (length (perform_all runtime calls init).observations ≡ 2)
    × (length (perform_all runtime calls init).audit_events ≡ 6)
    × ((perform_all runtime calls init).seen_message_ids ≡ 51 ∷ 50 ∷ [])
unfolding perform_all perform enroll_synthetic_endpoint revoke_identity revoke_now get_identity
    lookup insert erase draw audit when ◌>>=◌ endpoint endpoint_identity require_aware
    require_aware_if is_fingerprint is_hex64 fullmatch_after correlation_or_draw ingest_heartbeat
    ingest_inventory authorize_message authorize_found accept_message previous_sequence
    audit_acceptance reject get_endpoint add member observation heartbeat_digest inventory_digest
calls_run = (refl, refl, refl)

pub after_enrollment-IsConsistent : IsConsistent runtime after_enrollment
after_enrollment-IsConsistent =
    reachable-IsConsistent runtime digests distinct (enrollment ∷ []) (tt, tt)

pub after_revocation-IsConsistent : IsConsistent runtime after_revocation
after_revocation-IsConsistent =
    reachable-IsConsistent runtime digests distinct
      (enrollment ∷ revoke 1 "lost" "operator-1" start none ∷ []) (tt, (tt, tt))

abbrev pub recorded : Observation
recorded = record {
  observation_id = 4;
  endpoint_id = 0;
  message_id = 50;
  observation_type = "heartbeat";
  schema_version = pos 1;
  source_time = start;
  received_at = start;
  boot_id = 70;
  sequence = pos 1;
  payload_digest = runtime.sha256_hex [];
  encoded_message_digest = none;
}

abbrev pub after_heartbeat : ControlPlane
after_heartbeat = (ingest runtime 1 (of_heartbeat (beat 50 1)) start after_enrollment).1

pub heartbeat_run :
    ingest runtime 1 (of_heartbeat (beat 50 1)) start after_enrollment
    ≡ (ok recorded, after_heartbeat)
unfolding perform_all perform enroll_synthetic_endpoint lookup insert erase draw audit when ◌>>=◌
    endpoint endpoint_identity require_aware require_aware_if is_fingerprint is_hex64
    fullmatch_after ingest_heartbeat authorize_message authorize_found accept_message
    previous_sequence audit_acceptance reject get_endpoint add member observation heartbeat_digest
heartbeat_run = refl

abbrev pub web : Endpoint
web = record {
  endpoint_id = 0;
  display_name = "web-1";
  platform = linux;
  architecture = "x86_64";
  identity_id = 1;
  enrolled_at = start;
  last_receipt_at = none;
  last_heartbeat_at = none;
}

pub endpoint_found : lookup 0 after_enrollment.endpoints ≡ some web
unfolding perform_all perform enroll_synthetic_endpoint lookup insert draw audit when ◌>>=◌ endpoint
    endpoint_identity require_aware require_aware_if is_fingerprint is_hex64 fullmatch_after
endpoint_found = refl
