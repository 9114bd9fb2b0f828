-- ===== src/ControlPlane/Ingest.antt =====
-- The whole effect of `ingest_heartbeat` and `ingest_inventory` of
-- src/northgate_rmm/control_plane.py, on acceptance and on every refusal.
pub mod Facts
pub mod Runs
use northgate_rmm.Prelude.{
  ℕ, ◌+◌, ◌≡◌, refl, sym, ◌∙◌, ◌⊎◌, Bool, Bool-cases, same_value, Option, none, some, List, [], ◌∷◌,
  ◌++◌, String, arith, inl, inr, nat_eq, pair_eq, get_or, true, false, not, ◌||◌, ◌==◌, string_eq,
  pos, ℤ,
}
use text.Mathlib.TextEquality.{eq_iff}
use northgate_rmm.Prelude.Lists.{add}
use northgate_rmm.Prelude.Dict.{lookup, insert}
use northgate_rmm.Prelude.Text.{codes, is_hex64}
use northgate_rmm.Prelude.Result.{Result, ok, err, Error}
use northgate_rmm.Prelude.Exec.{
  bind-ok, bind-err, when-hit, when-miss, lift-ok, Exec, lift, modify, pure, ◌>>=◌, ◌>>◌,
}
use northgate_rmm.Domain.{
  Uuid, Datetime, IsAware, latest, latest-IsAware, IsAware-require_aware, require_aware_if,
  endpoint-touch, receipt-passes, heartbeat-passes, require_aware, require_aware-IsAware, Endpoint,
  endpoint, EndpointIdentity, MessageEnvelope, HeartbeatMessage, InventoryMessage, InventoryPayload,
  Observation, observation, AuditEvent, heartbeat_digest, inventory_digest, canonical_digest,
  same_platform,
}
use northgate_rmm.ControlPlane.{
  ControlPlane, Runtime, draw, audit, authorize_message, accept_message, get_endpoint,
  get_endpoint-ok, audit_acceptance, audit_lem, ingest_heartbeat, ingest_inventory, reject,
}
use northgate_rmm.ControlPlane.Authorization.{
  IsAdmissible, Rejected, Outcome, admitted, refused, authorize_message-Outcome,
}
use northgate_rmm.ControlPlane.Ingest.Facts.{
  Accepted, Records, Ingested, accepted, rejected, IsHexDigest, HasEndpoints, touch_receipt,
  touch_heartbeat, IsBound,
}
use northgate_rmm.ControlPlane.Ingest.Runs.{
  heartbeat-Accepted, inventory-Accepted, inventory_mismatch, IsBound-cases,
}

module _ (rt : Runtime) (id : Uuid) (at : Datetime) (s : ControlPlane) (digests : IsHexDigest rt)
    (tables : HasEndpoints s) where
  -- If digests are SHA-256 texts, every identity has its endpoint, and the creation time is
  -- aware, a heartbeat is accepted exactly when its message is admissible, and then recorded, and
  -- its endpoint's two times are advanced; otherwise one rejection is audited, if the time of
  -- receipt is aware, and nothing else changes.
  pub ingest_heartbeat-Ingested :
      (message : HeartbeatMessage)
      → IsAware message.envelope.created_at
      → Ingested s id message.envelope at "heartbeat.ingest"
          (touch_heartbeat at)
          (λ _. Unit)
          (ingest_heartbeat rt id message at s)
  unfolding ingest_heartbeat
  ingest_heartbeat-Ingested message c =
      go refl (authorize_message-Outcome rt id message.envelope at "heartbeat.ingest" s)
    where
      go :
          {r : Result EndpointIdentity × ControlPlane}
          → authorize_message rt id message.envelope at "heartbeat.ingest" s ≡ r
          → Outcome rt id message.envelope at "heartbeat.ingest" s r
          → Ingested s id message.envelope at "heartbeat.ingest"
              (touch_heartbeat at)
              (λ _. Unit)
              (ingest_heartbeat rt id message at s)
      go eq (admitted {i} adm) =
          let (e, present, valid) = tables.owner id i adm.known in
          let (o, s', done, acc, rec) =
            heartbeat-Accepted rt id at s digests i e present valid adm.aware_receipt message c
              eq in
          rw done (accepted i e adm present tt acc rec)
      go eq (refused never wrote silent) =
          rw (bind-err (authorize_message rt id message.envelope at "heartbeat.ingest") _ s eq)
            (rejected (λ i e adm present fits. never i adm) wrote silent)

  -- an admissible message determines its endpoint
  only_owner :
      (message : InventoryMessage) (i j : EndpointIdentity) (e f : Endpoint)
      → IsAdmissible s id message.envelope at i
      → lookup i.endpoint_id s.endpoints ≡ some e
      → ¬ IsBound message.payload e
      → IsAdmissible s id message.envelope at j
      → lookup j.endpoint_id s.endpoints ≡ some f
      → ¬ IsBound message.payload f
  only_owner message i j e f adm present unbound jadm fpresent fits =
      let same : i ≡ j = same_value adm.known jadm.known in
      let present_j : lookup j.endpoint_id s.endpoints ≡ some e = rw (← same) present in
      let same_endpoint : e ≡ f = same_value present_j fpresent in unbound (rw same_endpoint fits)

  -- If digests are SHA-256 texts, every identity has its endpoint, and the creation time is
  -- aware, an inventory is accepted exactly when its message is admissible and its platform and
  -- architecture are those of the endpoint, and then recorded, and the endpoint's receipt time is
  -- advanced; otherwise one rejection is audited, if the time of receipt is aware, and nothing
  -- else changes.
  pub ingest_inventory-Ingested :
      (message : InventoryMessage)
      → IsAware message.envelope.created_at
      → Ingested s id message.envelope at "inventory.ingest"
          (touch_receipt at)
          (IsBound message.payload)
          (ingest_inventory rt id message at s)
  unfolding ingest_inventory
  ingest_inventory-Ingested message c =
      go refl (authorize_message-Outcome rt id message.envelope at "inventory.ingest" s)
    where
      go :
          {r : Result EndpointIdentity × ControlPlane}
          → authorize_message rt id message.envelope at "inventory.ingest" s ≡ r
          → Outcome rt id message.envelope at "inventory.ingest" s r
          → Ingested s id message.envelope at "inventory.ingest"
              (touch_receipt at)
              (IsBound message.payload)
              (ingest_inventory rt id message at s)
      go eq (admitted {i} adm) =
          let (e, present, valid) = tables.owner id i adm.known in
          elim (IsBound-cases message.payload e) [
            | inl bound ↦
                let (o, s', done, acc, rec) =
                  inventory-Accepted rt id at s digests i e present valid adm.aware_receipt message
                    c bound eq in
                rw done (accepted i e adm present bound acc rec)
            | inr unbound ↦
                let (x, s', done, wrote) =
                  inventory_mismatch rt id at s digests i e present valid adm.aware_receipt message
                    unbound eq in
                rw done (
                  rejected
                    (λ j f jadm fpresent.
                      only_owner message i j e f adm present unbound jadm fpresent)
                    (λ _. wrote) (λ n. absurd (n adm.aware_receipt)))
          ]
      go eq (refused never wrote silent) =
          rw (bind-err (authorize_message rt id message.envelope at "inventory.ingest") _ s eq)
            (rejected (λ i e adm present fits. never i adm) wrote silent)
