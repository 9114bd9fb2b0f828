-- ===== src/ControlPlane/Change.antt =====
-- What one call of a public method of `ControlPlane` may change: a step relation with four kinds of
-- steps, independent of the order of the method's tests.
pub mod Methods
use northgate_rmm.Prelude.{
  ℕ, ◌+◌, ◌≤◌, ◌≡◌, refl, false, Option, none, some, List, [], ◌∷◌, ◌++◌, String, arith, nat_eq,
  string_eq,
}
use northgate_rmm.Prelude.Lists.{Extends, Extends-append, member}
use northgate_rmm.Prelude.Int.{◌≤ℤ◌}
use northgate_rmm.Prelude.Dict.{lookup, insert}
use northgate_rmm.Prelude.Result.{Result, ok, err}
use northgate_rmm.Domain.{
  Uuid, Datetime, Platform, Endpoint, endpoint, EndpointIdentity, endpoint_identity, revoked,
  active, HeartbeatMessage, InventoryMessage, MessageEnvelope, message_envelope, Observation,
  AuditEvent, IsAware,
}
use northgate_rmm.ControlPlane.{
  ControlPlane, Runtime, ingest_heartbeat, ingest_inventory, revoke_identity,
  enroll_synthetic_endpoint, record_operator_access, previous_sequence,
}
use northgate_rmm.ControlPlane.Ingest.Facts.{Accepted}

-- The audit log only grows, and so does the count of drawn UUIDs.
pub record Grows (s s' : ControlPlane) : Type 0 where
  pub audit : Extends s.audit_events s'.audit_events
  pub draws : s.draws ≤ s'.draws

-- Nothing but the audit log and the count of draws has changed.
pub record SameTables (s s' : ControlPlane) : Type 0 where
  pub endpoints : s'.endpoints ≡ s.endpoints
  pub identities : s'.identities ≡ s.identities
  pub fingerprints : s'.fingerprints ≡ s.fingerprints
  pub observations : s'.observations ≡ s.observations
  pub seen : s'.seen_message_ids ≡ s.seen_message_ids
  pub sequences : s'.last_sequences ≡ s.last_sequences

-- The message history is as it was.
pub record SameHistory (s s' : ControlPlane) : Type 0 where
  pub observations : s'.observations ≡ s.observations
  pub seen : s'.seen_message_ids ≡ s.seen_message_ids
  pub sequences : s'.last_sequences ≡ s.last_sequences

-- An observation of a message of the live identity `i`, with a new ID and a sequence above the last.
pub record Ingestion (s s' : ControlPlane) (id : Uuid) (i : EndpointIdentity) (e e' : Endpoint)
    (o : Observation) : Type 0 where
  pub known : lookup id s.identities ≡ some i
  pub not_revoked : i.revoked_at ≡ none
  pub owned : lookup i.endpoint_id s.endpoints ≡ some e
  pub valid : endpoint e' ≡ ok e'
  pub same_identity : e'.identity_id ≡ e.identity_id
  pub same_endpoint : e'.endpoint_id ≡ e.endpoint_id
  pub accepted : Accepted s s' id o e'
  pub endpoint_of : o.endpoint_id ≡ i.endpoint_id
  pub fresh : member o.message_id s.seen_message_ids ≡ false
  pub ahead : ¬ (o.sequence ≤ℤ previous_sequence s id o.boot_id)

-- The identity `i` has become `i'`, which is revoked.
pub record Revocation (s s' : ControlPlane) (id : Uuid) (i i' : EndpointIdentity) : Type 0 where
  pub known : lookup id s.identities ≡ some i
  pub live : i.revoked_at ≡ none
  pub at : Datetime
  pub revoked_then : i'.revoked_at ≡ some at
  pub same_identity : i'.identity_id ≡ i.identity_id
  pub same_endpoint : i'.endpoint_id ≡ i.endpoint_id
  pub same_key : i'.public_key_fingerprint ≡ i.public_key_fingerprint
  pub identities : s'.identities ≡ insert id i' s.identities
  pub endpoints : s'.endpoints ≡ s.endpoints
  pub fingerprints : s'.fingerprints ≡ s.fingerprints
  pub history : SameHistory s s'

-- A new endpoint and its identity, under two fresh IDs and a new fingerprint.
pub record Enrollment (rt : Runtime) (s s' : ControlPlane) (e : Endpoint) (i : EndpointIdentity)
    : Type 0 where
  pub endpoint_drawn : e.endpoint_id ≡ rt.uuid4 s.draws
  pub identity_drawn : i.identity_id ≡ rt.uuid4 (s.draws + 1)
  pub linked_identity : e.identity_id ≡ i.identity_id
  pub linked_endpoint : i.endpoint_id ≡ e.endpoint_id
  pub valid : endpoint e ≡ ok e
  pub live : i.revoked_at ≡ none
  pub new_key : lookup i.public_key_fingerprint s.fingerprints ≡ none
  pub identities : s'.identities ≡ insert i.identity_id i s.identities
  pub endpoints : s'.endpoints ≡ insert e.endpoint_id e s.endpoints
  pub fingerprints : s'.fingerprints ≡ insert i.public_key_fingerprint i.identity_id s.fingerprints
  pub history : SameHistory s s'
  pub drew : s.draws + 2 ≤ s'.draws

pub data Change (rt : Runtime) (s s' : ControlPlane) : Type 0 where
  nothing : Grows s s' → SameTables s s' → Change rt s s'
  ingested :
      {id : Uuid} {i : EndpointIdentity} {e e' : Endpoint} {o : Observation}
      → Grows s s'
      → Ingestion s s' id i e e' o
      → Change rt s s'
  identity_revoked :
      {id : Uuid} {i i' : EndpointIdentity} → Grows s s' → Revocation s s' id i i' → Change rt s s'
  enrolled :
      {e : Endpoint} {i : EndpointIdentity} → Grows s s' → Enrollment rt s s' e i → Change rt s s'

-- A call of a public method that may change the state.
pub data Operation : Type 0 where
  access :
      String
      → String
      → String
      → String
      → String
      → Uuid
      → Datetime
      → List (String × String)
      → Operation
  enroll : String → Platform → String → String → Datetime → String → Operation
  heartbeat : Uuid → HeartbeatMessage → Datetime → Operation
  inventory : Uuid → InventoryMessage → Datetime → Operation
  revoke : Uuid → String → String → Datetime → Option Uuid → Operation

-- The state that a call leaves, whether it returns or raises.
unfoldable pub perform : Runtime → Operation → ControlPlane → ControlPlane
perform rt (access actor subject action decision reason correlation now metadata) s =
    (record_operator_access rt actor subject action decision reason correlation now metadata s).1
perform rt (enroll name platform architecture fingerprint now actor) s =
    (enroll_synthetic_endpoint rt name platform architecture fingerprint now actor s).1
perform rt (heartbeat id message at) s = (ingest_heartbeat rt id message at s).1
perform rt (inventory id message at) s = (ingest_inventory rt id message at s).1
perform rt (revoke id reason actor now correlation) s =
    (revoke_identity rt id reason actor now correlation s).1

-- The envelope of a message has passed the checks of its class.
abbrev pub IsWellFormed : Operation → Type 0
IsWellFormed (heartbeat id message at) = message_envelope message.envelope ≡ ok message.envelope
IsWellFormed (inventory id message at) = message_envelope message.envelope ≡ ok message.envelope
IsWellFormed _ = Unit

-- The state after a sequence of calls.
unfoldable pub perform_all : Runtime → List Operation → ControlPlane → ControlPlane
unfolding perform
perform_all rt [] s = s
perform_all rt (op ∷ ops) s = perform_all rt ops (perform rt op s)
