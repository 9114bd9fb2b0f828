-- ===== src/ControlPlane/Ingest/Facts.antt =====
-- What an ingestion of src/northgate_rmm/control_plane.py may do, independently of its code.
use northgate_rmm.Prelude.{
  ℕ, ◌+◌, ◌≡◌, some, List, [], ◌∷◌, ◌++◌, String, nat_eq, pair_eq, get_or, true, string_eq,
}
use northgate_rmm.Prelude.Lists.{add}
use northgate_rmm.Prelude.Dict.{lookup, insert}
use northgate_rmm.Prelude.Text.{codes, is_hex64}
use northgate_rmm.Prelude.Result.{Result, ok, err, Error}
use northgate_rmm.Domain.{
  Uuid, Datetime, IsAware, latest, Endpoint, endpoint, EndpointIdentity, MessageEnvelope,
  InventoryPayload, Observation, AuditEvent, same_platform,
}
use northgate_rmm.ControlPlane.{ControlPlane, Runtime}
use northgate_rmm.ControlPlane.Authorization.{IsAdmissible, Rejected}

-- `s'` is `s` after the acceptance of `o` under the identity `id`: the endpoint `e` has become `e'`,
-- and the identities are as they were.
pub record Accepted (s s' : ControlPlane) (id : Uuid) (o : Observation) (e' : Endpoint)
    : Type 0 where
  pub observations : s'.observations ≡ s.observations ++ o ∷ []
  pub seen : s'.seen_message_ids ≡ add o.message_id s.seen_message_ids
  pub sequences : s'.last_sequences ≡ insert (id, o.boot_id) o.sequence s.last_sequences
  pub endpoints : s'.endpoints ≡ insert e'.endpoint_id e' s.endpoints
  pub identities : s'.identities ≡ s.identities
  pub fingerprints : s'.fingerprints ≡ s.fingerprints
  pub event : AuditEvent
  pub audited : s'.audit_events ≡ s.audit_events ++ event ∷ []
  pub decision : event.decision ≡ "accepted"
  pub drawn : s'.draws ≡ s.draws + 1 + 1

-- The fields of an observation that repeat the message.
pub record Records (o : Observation) (i : EndpointIdentity) (env : MessageEnvelope) (at : Datetime)
    : Type 0 where
  pub endpoint_of : o.endpoint_id ≡ i.endpoint_id
  pub message_of : o.message_id ≡ env.message_id
  pub boot_of : o.boot_id ≡ env.boot_id
  pub sequence_of : o.sequence ≡ env.sequence
  pub received : o.received_at ≡ at

-- The result of an ingestion whose endpoint update is `touch`, on a payload that fits the endpoints
-- that `Fits` says: accepted exactly when the message is admissible and the payload fits.
pub data Ingested (s : ControlPlane) (id : Uuid) (env : MessageEnvelope) (at : Datetime)
    (action : String) (touch : Endpoint → Endpoint) (Fits : Endpoint → Type 0)
    : Result Observation × ControlPlane → Type 0 where
  accepted :
      {o : Observation} {s' : ControlPlane} (i : EndpointIdentity) (e : Endpoint)
      → IsAdmissible s id env at i
      → lookup i.endpoint_id s.endpoints ≡ some e
      → Fits e
      → Accepted s s' id o (touch e)
      → Records o i env at
      → Ingested s id env at action touch Fits (ok o, s')
  rejected :
      {e : Error} {s' : ControlPlane}
      → ((i : EndpointIdentity) (e : Endpoint)
          → IsAdmissible s id env at i
          → lookup i.endpoint_id s.endpoints ≡ some e
          → ¬ Fits e)
      → (IsAware at → Rejected s s' at action)
      → (¬ IsAware at → s' ≡ s)
      → Ingested s id env at action touch Fits (err e, s')

-- A digest is 64 lower-case hexadecimal digits, whatever was digested.
abbrev pub IsHexDigest : Runtime → Type 0
IsHexDigest rt = (b : List ℕ) → is_hex64 (codes (rt.sha256_hex b)) ≡ true

-- The endpoint of every identity is there and passes the checks of its class.
pub record HasEndpoints (s : ControlPlane) : Type 0 where
  pub owner :
      (id : Uuid) (i : EndpointIdentity)
      → lookup id s.identities ≡ some i
      → (e : Endpoint) × (lookup i.endpoint_id s.endpoints ≡ some e) × (endpoint e ≡ ok e)

abbrev pub touch_receipt : Datetime → Endpoint → Endpoint
touch_receipt at e = record e { last_receipt_at = some (latest at (get_or e.last_receipt_at at)) }

abbrev pub touch_heartbeat : Datetime → Endpoint → Endpoint
touch_heartbeat at e = record e {
  last_receipt_at = some (latest at (get_or e.last_receipt_at at));
  last_heartbeat_at = some (latest at (get_or e.last_heartbeat_at at));
}

-- The payload's platform and architecture are those of the endpoint.
pub record IsBound (p : InventoryPayload) (e : Endpoint) : Type 0 where
  pub same_platform_of : same_platform p.platform e.platform ≡ true
  pub same_architecture : p.architecture ≡ e.architecture
