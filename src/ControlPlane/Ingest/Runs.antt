-- ===== src/ControlPlane/Ingest/Runs.antt =====
-- The single runs of the two ingestions, once the message is authorized.
use northgate_rmm.Prelude.{
  ◌≡◌, refl, ◌⊎◌, Bool-cases, Option, none, some, String, arith, inl, inr, nat_eq, pair_eq, get_or,
  true, not, ◌||◌, ◌==◌, string_eq,
}
use text.Mathlib.TextEquality.{eq_iff}
use northgate_rmm.Prelude.Dict.{lookup}
use northgate_rmm.Prelude.Text.{codes, is_hex64}
use northgate_rmm.Prelude.Result.{ok, err, Error}
use northgate_rmm.Prelude.Exec.{bind-ok, bind-err, when-hit, when-miss, lift-ok}
use northgate_rmm.Domain.{
  Uuid, Datetime, IsAware, latest, latest-IsAware, IsAware-require_aware, require_aware_if,
  endpoint-touch, receipt-passes, heartbeat-passes, require_aware-IsAware, Endpoint, endpoint,
  EndpointIdentity, HeartbeatMessage, InventoryMessage, InventoryPayload, Observation, observation,
  heartbeat_digest, inventory_digest, canonical_digest, same_platform,
}
use northgate_rmm.ControlPlane.{
  ControlPlane, Runtime, draw, authorize_message, accept_message, get_endpoint-ok, audit_acceptance,
  audit_lem, ingest_heartbeat, ingest_inventory, reject,
}
use northgate_rmm.ControlPlane.Authorization.{Rejected}
use northgate_rmm.ControlPlane.Ingest.Facts.{
  Accepted, Records, IsHexDigest, touch_receipt, touch_heartbeat, IsBound,
}

observation-ok :
    (o : Observation)
    → IsAware o.source_time
    → IsAware o.received_at
    → is_hex64 (codes o.payload_digest) ≡ true
    → o.encoded_message_digest ≡ none
    → observation o ≡ ok o
unfolding observation
observation-ok o s r d n =
    rw (require_aware-IsAware o.source_time "source_time" s)
      (rw (require_aware-IsAware o.received_at "received_at" r) (rw d (rw n refl)))

latest-passes :
    (at : Datetime) (o : Option Datetime) (name : String)
    → IsAware at
    → require_aware_if o name ≡ ok tt
    → require_aware_if (some (latest at (get_or o at))) name ≡ ok tt
unfolding require_aware_if
latest-passes at none name a h = require_aware-IsAware _ name (latest-IsAware at at a a)
latest-passes at (some t) name a h =
    require_aware-IsAware _ name (latest-IsAware at t a (IsAware-require_aware t name h))

module _ (at : Datetime) (a : IsAware at) (e : Endpoint) (valid : endpoint e ≡ ok e) where
  pub touch_receipt-valid : endpoint (touch_receipt at e) ≡ ok (touch_receipt at e)
  touch_receipt-valid =
      endpoint-touch e valid _ _ (latest-passes at _ _ a (receipt-passes e valid))
        (heartbeat-passes e valid)

  pub touch_heartbeat-valid : endpoint (touch_heartbeat at e) ≡ ok (touch_heartbeat at e)
  touch_heartbeat-valid =
      endpoint-touch e valid _ _ (latest-passes at _ _ a (receipt-passes e valid))
        (latest-passes at _ _ a (heartbeat-passes e valid))

mismatch :
    (p : InventoryPayload) (e : Endpoint)
    → ¬ IsBound p e
    → (not (same_platform p.platform e.platform) || not (p.architecture == e.architecture)) ≡ true
mismatch p e unbound = elim (Bool-cases (same_platform p.platform e.platform)) [
  | inr other ↦ rw other refl
  | inl same ↦ elim (Bool-cases (p.architecture == e.architecture)) [
    | inr other ↦ rw (same, other) refl
    | inl equal ↦ absurd (
        unbound (record {
          same_platform_of = same;
          same_architecture = (eq_iff p.architecture e.architecture).0 equal;
        }))
  ]
]

pub IsBound-cases : (p : InventoryPayload) (e : Endpoint) → IsBound p e ⊎ ¬ IsBound p e
IsBound-cases p e = elim (Bool-cases (same_platform p.platform e.platform)) [
  | inr other ↦ inr (λ b. cc (b.same_platform_of, other))
  | inl same ↦ elim (Bool-cases (p.architecture == e.architecture)) [
    | inr other ↦
        inr (λ b. cc (other, (eq_iff p.architecture e.architecture).1 b.same_architecture))
    | inl equal ↦ inl (record {
      same_platform_of = same;
      same_architecture = (eq_iff p.architecture e.architecture).0 equal;
    })
  ]
]

module _ (rt : Runtime) (id : Uuid) (at : Datetime) (s : ControlPlane) (digests : IsHexDigest rt)
    (i : EndpointIdentity) (e : Endpoint) (present : lookup i.endpoint_id s.endpoints ≡ some e)
    (valid : endpoint e ≡ ok e) (a : IsAware at) where
  pub heartbeat-Accepted :
      (message : HeartbeatMessage)
      → IsAware message.envelope.created_at
      → authorize_message rt id message.envelope at "heartbeat.ingest" s ≡ (ok i, s)
      → (o : Observation) × (s' : ControlPlane) × (ingest_heartbeat rt id message at s ≡ (ok o, s'))
        × Accepted s s' id o (touch_heartbeat at e)
        × Records o i message.envelope at
  unfolding ingest_heartbeat heartbeat_digest canonical_digest draw accept_message audit_acceptance
  heartbeat-Accepted message c authorized = (
    _,
    _,
    bind-ok _ _ _ authorized (
        bind-ok _ _ _ refl (
          lift-ok _ _ _ (observation-ok _ c a (digests _) refl) (
            bind-ok _ _ _ refl (
              bind-ok _ _ _ (get_endpoint-ok _ _ present) (
                lift-ok _ _ _ (touch_heartbeat-valid at a e valid)
                  (bind-ok _ _ _ refl (bind-ok _ _ _ (audit_lem rt _ _ _ _ _ _ _ _ _ _) refl))))))),
    record {
      observations = refl;
      seen = refl;
      sequences = refl;
      endpoints = refl;
      identities = refl;
      fingerprints = refl;
      event = _;
      audited = refl;
      decision = refl;
      drawn = refl;
    },
    record {
      endpoint_of = refl;
      message_of = refl;
      boot_of = refl;
      sequence_of = refl;
      received = refl;
    },
  )

  pub inventory-Accepted :
      (message : InventoryMessage)
      → IsAware message.envelope.created_at
      → IsBound message.payload e
      → authorize_message rt id message.envelope at "inventory.ingest" s ≡ (ok i, s)
      → (o : Observation) × (s' : ControlPlane) × (ingest_inventory rt id message at s ≡ (ok o, s'))
        × Accepted s s' id o (touch_receipt at e)
        × Records o i message.envelope at
  unfolding ingest_inventory inventory_digest canonical_digest draw accept_message audit_acceptance
  inventory-Accepted message c bound authorized = (
    _,
    _,
    bind-ok _ _ _ authorized (
        bind-ok _ _ _ (get_endpoint-ok _ _ present) (
          when-miss _ _ _
            (ground
              (arith, bound.same_platform_of, eq_iff message.payload.architecture e.architecture))
            (bind-ok _ _ _ refl (
              lift-ok _ _ _ (observation-ok _ c a (digests _) refl) (
                bind-ok _ _ _ refl (
                  lift-ok _ _ _ (touch_receipt-valid at a e valid) (
                    bind-ok _ _ _ refl
                      (bind-ok _ _ _ (audit_lem rt _ _ _ _ _ _ _ _ _ _) refl)))))))),
    record {
      observations = refl;
      seen = refl;
      sequences = refl;
      endpoints = refl;
      identities = refl;
      fingerprints = refl;
      event = _;
      audited = refl;
      decision = refl;
      drawn = refl;
    },
    record {
      endpoint_of = refl;
      message_of = refl;
      boot_of = refl;
      sequence_of = refl;
      received = refl;
    },
  )

  -- an inventory of another platform or architecture
  pub inventory_mismatch :
      (message : InventoryMessage)
      → ¬ IsBound message.payload e
      → authorize_message rt id message.envelope at "inventory.ingest" s ≡ (ok i, s)
      → (x : Error) × (s' : ControlPlane) × (ingest_inventory rt id message at s ≡ (err x, s'))
        × Rejected s s' at "inventory.ingest"
  unfolding ingest_inventory reject
  inventory_mismatch message unbound authorized = (
    _,
    _,
    bind-ok _ _ _ authorized (
        bind-ok _ _ _ (get_endpoint-ok _ _ present) (
          when-hit _ _ _ (mismatch message.payload e unbound)
            (bind-err _ _ _ (bind-ok _ _ _ (audit_lem rt _ _ _ _ _ _ _ _ _ _) refl)))),
    record { event = _; only_audit = refl; decision = refl; action_of = refl; time_of = refl },
  )
