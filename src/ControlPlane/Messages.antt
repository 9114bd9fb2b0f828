-- ===== src/ControlPlane/Messages.antt =====
-- Ingestion of `ControlPlane` of src/northgate_rmm/control_plane.py: authorization of a message,
-- acceptance, heartbeats and inventories.
use northgate_rmm.Prelude.{
  ◌≡◌, ap, ◌+◌, ◌||◌, not, Option, none, some, [], ◌∷◌, ◌++◌, String, ℤ, pos, ltb, leb, ◌==◌,
  nat_eq, string_eq, pair_eq, is_some, get_or,
}
use northgate_rmm.Prelude.Int.{leb_ℤ}
use northgate_rmm.Prelude.Lists.{member, add}
use northgate_rmm.Prelude.Dict.{lookup, insert}
use northgate_rmm.Prelude.Text.{uuid_str, int_str}
use northgate_rmm.Prelude.Result.{
  ok, err, validation_error, authorization_error, replay_error, not_found_error,
}
use northgate_rmm.Prelude.Exec.{Exec, pure, raise, lift, gets, modify, when, ◌>>=◌, ◌>>◌}
use northgate_rmm.Domain.{
  Uuid, Datetime, instant, latest, require_aware, max_clock_skew, same_platform, Endpoint, endpoint,
  EndpointIdentity, MessageEnvelope, HeartbeatMessage, InventoryMessage, heartbeat_digest,
  inventory_digest, Observation, observation,
}
use northgate_rmm.ControlPlane.State.{ControlPlane, Runtime, draw, audit, reject}
use Prim.Native.String.{◌++◌ as append}

or_not_found : {A : Type 0} → Option A → String → Exec ControlPlane A
or_not_found none message = raise (not_found_error message)
or_not_found (some a) message = pure a

-- `ControlPlane.get_endpoint`
unfoldable pub get_endpoint : Uuid → Exec ControlPlane Endpoint
unfolding or_not_found
get_endpoint endpoint_id = do
  found ← gets (λ s. lookup endpoint_id s.endpoints)
  or_not_found found "endpoint does not exist"

pub get_endpoint-ok :
    (id : Uuid) (s : ControlPlane) {e : Endpoint}
    → lookup id s.endpoints ≡ some e
    → get_endpoint id s ≡ (ok e, s)
unfolding get_endpoint ◌>>=◌
get_endpoint-ok id s found = ap (λ o. or_not_found o "endpoint does not exist" s) found

pub get_endpoint-err :
    (id : Uuid) (s : ControlPlane)
    → lookup id s.endpoints ≡ none
    → get_endpoint id s ≡ (err (not_found_error "endpoint does not exist"), s)
unfolding get_endpoint ◌>>=◌
get_endpoint-err id s found = ap (λ o. or_not_found o "endpoint does not exist" s) found

-- `ControlPlane.get_identity`
unfoldable pub get_identity : Uuid → Exec ControlPlane EndpointIdentity
unfolding or_not_found
get_identity identity_id = do
  found ← gets (λ s. lookup identity_id s.identities)
  or_not_found found "identity does not exist"

pub get_identity-ok :
    (id : Uuid) (s : ControlPlane) {i : EndpointIdentity}
    → lookup id s.identities ≡ some i
    → get_identity id s ≡ (ok i, s)
unfolding get_identity ◌>>=◌
get_identity-ok id s found = ap (λ o. or_not_found o "identity does not exist" s) found

pub get_identity-err :
    (id : Uuid) (s : ControlPlane)
    → lookup id s.identities ≡ none
    → get_identity id s ≡ (err (not_found_error "identity does not exist"), s)
unfolding get_identity ◌>>=◌
get_identity-err id s found = ap (λ o. or_not_found o "identity does not exist" s) found

-- `ControlPlane._accept_message`
unfoldable pub accept_message : Uuid → Uuid → Observation → Exec ControlPlane (Unit {0})
accept_message identity_id boot_id o = modify λ s. record s {
  seen_message_ids = add o.message_id s.seen_message_ids;
  last_sequences = insert (identity_id, boot_id) o.sequence s.last_sequences;
  observations = s.observations ++ o ∷ [];
}

-- `self._last_sequences.get((identity, boot), 0)`
unfoldable pub previous_sequence : ControlPlane → Uuid → Uuid → ℤ
previous_sequence s identity_id boot_id =
    get_or (lookup (identity_id, boot_id) s.last_sequences) (pos 0)

module _ (rt : Runtime) where
  -- The tests of `_authorize_message` on an identity that was found. The arguments of the method
  -- that are fields of the message's envelope are read from it.
  unfoldable pub authorize_found :
      Uuid
      → MessageEnvelope
      → Datetime
      → String
      → Option EndpointIdentity
      → Exec ControlPlane EndpointIdentity
  authorize_found id env received_at action none =
      reject rt id env.endpoint_id action "unknown authenticated identity" env.correlation_id
        received_at authorization_error
  authorize_found id env received_at action (some identity) = do
    when (is_some identity.revoked_at) (
        reject rt id identity.endpoint_id action "authenticated identity is revoked"
          env.correlation_id received_at authorization_error)
    when (not (env.endpoint_id == identity.endpoint_id)) (
        reject rt id env.endpoint_id action "message endpoint does not match transport identity"
          env.correlation_id received_at authorization_error)
    when (ltb (instant received_at + max_clock_skew) (instant env.created_at)) (
        reject rt id identity.endpoint_id action "message creation time exceeds allowed clock skew"
          env.correlation_id received_at validation_error)
    when (leb (instant env.expires_at) (instant received_at)) (
        reject rt id identity.endpoint_id action "message expired before receipt" env.correlation_id
          received_at validation_error)
    seen ← gets (λ s. member env.message_id s.seen_message_ids)
    when seen (
        reject rt id identity.endpoint_id action "message ID replayed" env.correlation_id
          received_at replay_error)
    previous ← gets (λ s. previous_sequence s id env.boot_id)
    when (leb_ℤ env.sequence previous) (
        reject rt id identity.endpoint_id action "boot sequence replayed or out of order"
          env.correlation_id received_at replay_error)
    pure identity

  -- `ControlPlane._authorize_message`
  unfoldable pub authorize_message :
      Uuid → MessageEnvelope → Datetime → String → Exec ControlPlane EndpointIdentity
  authorize_message id env received_at action = do
    lift (require_aware received_at "received_at")
    found ← gets (λ s. lookup id s.identities)
    authorize_found id env received_at action found

  -- `ControlPlane._audit_acceptance`
  unfoldable pub audit_acceptance :
      EndpointIdentity → Observation → Uuid → Exec ControlPlane (Unit {0})
  audit_acceptance identity o correlation_id =
      audit rt o.received_at "endpoint_identity" (uuid_str identity.identity_id)
        (append "endpoint:" (uuid_str identity.endpoint_id)) (append o.observation_type ".ingest")
        "accepted" "message contract and authorization checks passed" correlation_id
        (("message_id", uuid_str o.message_id)
          ∷ ("payload_digest", o.payload_digest)
          ∷ ("sequence", int_str o.sequence)
          ∷ [])

  -- `ControlPlane.ingest_heartbeat`
  unfoldable pub ingest_heartbeat :
      Uuid → HeartbeatMessage → Datetime → Exec ControlPlane Observation
  ingest_heartbeat id message received_at = do
    identity ← authorize_message id message.envelope received_at "heartbeat.ingest"
    observation_id ← draw rt
    o ← lift (
        observation (record {
          observation_id = observation_id;
          endpoint_id = identity.endpoint_id;
          message_id = message.envelope.message_id;
          observation_type = "heartbeat";
          schema_version = pos 1;
          source_time = message.envelope.created_at;
          received_at = received_at;
          boot_id = message.envelope.boot_id;
          sequence = message.envelope.sequence;
          payload_digest = heartbeat_digest rt.sha256_hex message.payload;
          encoded_message_digest = none;
        }))
    accept_message id message.envelope.boot_id o
    e ← get_endpoint identity.endpoint_id
    updated ← lift (
        endpoint (record e {
          last_receipt_at = some (latest received_at (get_or e.last_receipt_at received_at));
          last_heartbeat_at = some (latest received_at (get_or e.last_heartbeat_at received_at));
        }))
    modify (λ s. record s { endpoints = insert e.endpoint_id updated s.endpoints })
    audit_acceptance identity o message.envelope.correlation_id
    pure o

  -- `ControlPlane.ingest_inventory`
  unfoldable pub ingest_inventory :
      Uuid → InventoryMessage → Datetime → Exec ControlPlane Observation
  ingest_inventory id message received_at = do
    identity ← authorize_message id message.envelope received_at "inventory.ingest"
    e ← get_endpoint identity.endpoint_id
    when
        (not (same_platform message.payload.platform e.platform)
          || not (message.payload.architecture == e.architecture))
        (reject rt id identity.endpoint_id "inventory.ingest"
          "inventory binding does not match enrolled endpoint" message.envelope.correlation_id
          received_at validation_error)
    observation_id ← draw rt
    o ← lift (
        observation (record {
          observation_id = observation_id;
          endpoint_id = identity.endpoint_id;
          message_id = message.envelope.message_id;
          observation_type = "inventory";
          schema_version = message.payload.schema_version;
          source_time = message.envelope.created_at;
          received_at = received_at;
          boot_id = message.envelope.boot_id;
          sequence = message.envelope.sequence;
          payload_digest = inventory_digest rt.sha256_hex message.payload;
          encoded_message_digest = none;
        }))
    accept_message id message.envelope.boot_id o
    updated ← lift (
        endpoint (record e {
          last_receipt_at = some (latest received_at (get_or e.last_receipt_at received_at));
        }))
    modify (λ s. record s { endpoints = insert e.endpoint_id updated s.endpoints })
    audit_acceptance identity o message.envelope.correlation_id
    pure o
