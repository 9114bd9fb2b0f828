-- ===== src/ControlPlane/Change/Methods.antt =====
-- The public methods of `ControlPlane` of src/northgate_rmm/control_plane.py as steps of `Change`.
use northgate_rmm.Prelude.{
  ℕ, ◌+◌, ◌≤◌, ◌≡◌, refl, ap, ◌∙◌, same_value, Option, Option-cases, none, some, inl, inr, List, [],
  ◌∷◌, ◌++◌, String, arith, nat_eq, string_eq, is_some,
}
use northgate_rmm.Prelude.Lists.{Extends-append, Extends-refl}
use northgate_rmm.Prelude.Dict.{lookup, insert}
use northgate_rmm.Prelude.Result.{Result, ok}
use northgate_rmm.Prelude.Exec.{if_rule, err_rule, raise_rule, lift_rule, gets_rule, ok_rule}
use northgate_rmm.Domain.{
  Uuid, Datetime, Platform, Endpoint, endpoint, EndpointIdentity, endpoint-eq, endpoint_identity,
  endpoint_identity-eq, revoked, active, MessageEnvelope, message_envelope-IsAware, Observation,
  AuditEvent, IsAware, require_aware-cases,
}
use northgate_rmm.ControlPlane.{
  ControlPlane, Runtime, draw, audit_lem, revoke_identity, revoke_now, note_revoked,
  correlation_or_draw, get_identity-ok, get_identity-err, enroll_synthetic_endpoint,
  record_operator_access,
}
use northgate_rmm.ControlPlane.Authorization.{Rejected}
use northgate_rmm.ControlPlane.Ingest.{ingest_heartbeat-Ingested, ingest_inventory-Ingested}
use northgate_rmm.ControlPlane.Ingest.Facts.{
  Ingested, accepted, rejected, HasEndpoints, IsHexDigest,
}
use northgate_rmm.ControlPlane.Ingest.Runs.{touch_receipt-valid, touch_heartbeat-valid}
use northgate_rmm.ControlPlane.Change.{
  Change, nothing, ingested, identity_revoked, enrolled, Operation, access, enroll, heartbeat,
  inventory, revoke, perform, IsWellFormed,
}

module _ (rt : Runtime) (s : ControlPlane) where
  unchanged : Change rt s s
  unchanged =
      nothing (record { audit = Extends-refl _; draws = omega arith })
        (record {
          endpoints = refl;
          identities = refl;
          fingerprints = refl;
          observations = refl;
          seen = refl;
          sequences = refl;
        })

  -- one more audit event, after `n` draws
  audited :
      (n : ℕ) (event : AuditEvent)
      → s.draws ≤ n
      → Change rt s (record s { audit_events = s.audit_events ++ event ∷ []; draws = n })
  audited n event h =
      nothing (record { audit = Extends-append _ _; draws = h })
        (record {
          endpoints = refl;
          identities = refl;
          fingerprints = refl;
          observations = refl;
          seen = refl;
          sequences = refl;
        })

  Rejected-Change :
      (s' : ControlPlane) (at : Datetime) (action : String)
      → Rejected s s' at action
      → Change rt s s'
  Rejected-Change s' at action w = rw w.only_audit (audited (s.draws + 1) w.event (omega arith))

  access-Change :
      (actor subject action decision reason : String) (correlation : Uuid) (now : Datetime)
      (metadata : List (String × String))
      → Change rt s
          (record_operator_access rt actor subject action decision reason correlation now metadata
            s).1
  unfolding record_operator_access
  access-Change actor subject action decision reason correlation now metadata =
      lift_rule (λ r. Change rt s r.1) _ _ s (λ _. unchanged)
        λ _ _.
          raise_rule (λ r. Change rt s r.1) _ _ _ s unchanged
            λ _.
              raise_rule (λ r. Change rt s r.1) _ _ _ s unchanged
                λ _.
                  raise_rule (λ r. Change rt s r.1) _ _ _ s unchanged
                    λ _.
                      raise_rule (λ r. Change rt s r.1) _ _ _ s unchanged
                        λ _.
                          raise_rule (λ r. Change rt s r.1) _ _ _ s unchanged
                            λ _.
                              raise_rule (λ r. Change rt s r.1) _ _ _ s unchanged
                                λ _.
                                  rw
                                    (audit_lem rt now "human_operator" actor subject action decision
                                      reason correlation metadata s)
                                    (audited (s.draws + 1) _ (omega arith))

  module _ (tables : HasEndpoints s) where
    Ingested-Change :
        {id : Uuid} {env : MessageEnvelope} {at : Datetime} {action : String}
        {touch : Endpoint → Endpoint} {Fits : Endpoint → Type 0}
        {r : Result Observation × ControlPlane}
        → (IsAware at → (e : Endpoint) → endpoint e ≡ ok e → endpoint (touch e) ≡ ok (touch e))
        → ((e : Endpoint) → (touch e).identity_id ≡ e.identity_id)
        → ((e : Endpoint) → (touch e).endpoint_id ≡ e.endpoint_id)
        → Ingested s id env at action touch Fits r
        → Change rt s r.1
    Ingested-Change {id} {env} {at} {action} valid same_identity same_endpoint
          (accepted {o} {s'} i e adm owned fits acc rec) =
        let (f, owned_f, valid_f) = tables.owner id i adm.known in
        let same : f ≡ e = same_value owned_f owned in
        ingested {id = id} {i = i} {e = e}
          (record {
            audit = record { added = acc.event ∷ []; eq = acc.audited };
            draws = omega (arith, acc.drawn);
          })
          (record {
            known = adm.known;
            not_revoked = adm.not_revoked;
            owned = owned;
            valid = valid adm.aware_receipt e (rw (← same) valid_f);
            same_identity = same_identity e;
            same_endpoint = same_endpoint e;
            accepted = acc;
            endpoint_of = rec.endpoint_of;
            fresh = rw rec.message_of adm.fresh;
            ahead = rw (rec.sequence_of, rec.boot_of) adm.ahead;
          })
    Ingested-Change {at = at} {action = action} valid si se
          (rejected {s' = s'} never wrote silent) =
        elim (require_aware-cases at "received_at") [
          | inl (aware_at, _) ↦ Rejected-Change s' at action (wrote aware_at)
          | inr (n, _, _) ↦ rw (silent n) unchanged
        ]

  correlation_drawn :
      (c : Option Uuid)
      → (u : Uuid) × (n : ℕ) × (s.draws ≤ n)
        × (correlation_or_draw rt c s ≡ (ok u, record s { draws = n }))
  unfolding correlation_or_draw draw
  correlation_drawn none = (_, _, omega arith, refl)
  correlation_drawn (some u) = (_, _, omega arith, refl)

  -- more draws alone
  drew : (n : ℕ) → s.draws ≤ n → Change rt s (record s { draws = n })
  drew n h =
      nothing (record { audit = Extends-refl _; draws = h })
        (record {
          endpoints = refl;
          identities = refl;
          fingerprints = refl;
          observations = refl;
          seen = refl;
          sequences = refl;
        })

  module _ (id : Uuid) (i : EndpointIdentity) (known : lookup id s.identities ≡ some i)
      (reason actor : String) (now : Datetime) (u : Uuid) (n : ℕ) (h : s.draws ≤ n) where
    note_revoked-Change : Change rt s (note_revoked rt i id actor now u (record s { draws = n })).1
    unfolding note_revoked
    note_revoked-Change =
        ok_rule (λ r. Change rt s r.1) _ _ _ (audit_lem rt _ _ _ _ _ _ _ _ _ _)
          (audited (n + 1) _ (omega arith))

    revoke_now-Change :
        i.revoked_at ≡ none
        → Change rt s (revoke_now rt i id reason actor now u (record s { draws = n })).1
    unfolding revoke_now
    revoke_now-Change live =
        lift_rule (λ r. Change rt s r.1) _ _ _ (λ _. drew n h)
          λ i' checked.
            let same : i' ≡ record i {
              status = revoked;
              revoked_at = some now;
              revocation_reason = some reason;
            } =
              endpoint_identity-eq _ i' checked in
            ok_rule (λ r. Change rt s r.1) _ _ _ refl
              (ok_rule (λ r. Change rt s r.1) _ _ _ (audit_lem rt _ _ _ _ _ _ _ _ _ _)
                (identity_revoked {id = id} {i = i} {i' = i'}
                  (record { audit = Extends-append _ _; draws = omega arith })
                  (record {
                    known = known;
                    live = live;
                    at = now;
                    revoked_then = rw same refl;
                    same_identity = rw same refl;
                    same_endpoint = rw same refl;
                    same_key = rw same refl;
                    identities = refl;
                    endpoints = refl;
                    fingerprints = refl;
                    history = record { observations = refl; seen = refl; sequences = refl };
                  })))

  revoke-Change :
      (id : Uuid) (reason actor : String) (now : Datetime) (c : Option Uuid)
      → Change rt s (revoke_identity rt id reason actor now c s).1
  unfolding revoke_identity
  revoke-Change id reason actor now c =
      lift_rule (λ r. Change rt s r.1) _ _ s (λ _. unchanged)
        λ _ _.
          raise_rule (λ r. Change rt s r.1) _ _ _ s unchanged
            λ _. elim (Option-cases (lookup id s.identities)) [
              | inl missing ↦
                  err_rule (λ r. Change rt s r.1) _ _ s (get_identity-err id s missing) unchanged
              | inr (i, known) ↦
                  ok_rule (λ r. Change rt s r.1) _ _ s (get_identity-ok id s known)
                    (let (u, n, h, drawn) = correlation_drawn c in
                      ok_rule (λ r. Change rt s r.1) _ _ s drawn
                        (if_rule (λ r. Change rt s r.1) (is_some i.revoked_at) _ _ _
                          (λ _. note_revoked-Change id i known reason actor now u n h)
                          (λ live.
                            revoke_now-Change id i known reason actor now u n h (ground arith))))
            ]

  module _ (name : String) (platform : Platform) (architecture fingerprint : String)
      (now : Datetime) where
    abbrev new_identity : EndpointIdentity
    new_identity = record {
      identity_id = rt.uuid4 (s.draws + 1);
      endpoint_id = rt.uuid4 s.draws;
      public_key_fingerprint = fingerprint;
      created_at = now;
      status = active;
      revoked_at = none;
      revocation_reason = none;
    }

    abbrev new_endpoint : Endpoint
    new_endpoint = record {
      endpoint_id = rt.uuid4 s.draws;
      display_name = name;
      platform = platform;
      architecture = architecture;
      identity_id = rt.uuid4 (s.draws + 1);
      enrolled_at = now;
      last_receipt_at = none;
      last_heartbeat_at = none;
    }

    enrolled_step :
        (i : EndpointIdentity) (e : Endpoint) (event : AuditEvent)
        → endpoint_identity new_identity ≡ ok i
        → endpoint new_endpoint ≡ ok e
        → lookup fingerprint s.fingerprints ≡ none
        → Change rt s (record s {
          identities = insert (rt.uuid4 (s.draws + 1)) i s.identities;
          endpoints = insert (rt.uuid4 s.draws) e s.endpoints;
          fingerprints = insert fingerprint (rt.uuid4 (s.draws + 1)) s.fingerprints;
          audit_events = s.audit_events ++ event ∷ [];
          draws = s.draws + 1 + 1 + 1 + 1;
        })
    enrolled_step i e event identity_checked endpoint_checked absent =
        rw (endpoint_identity-eq _ i identity_checked) (
          rw (endpoint-eq _ e endpoint_checked) (
            enrolled {e = new_endpoint} {i = new_identity}
              (record { audit = Extends-append _ _; draws = omega arith })
              (record {
                endpoint_drawn = refl;
                identity_drawn = refl;
                linked_identity = refl;
                linked_endpoint = refl;
                valid = endpoint_checked ∙ ap ok (endpoint-eq _ e endpoint_checked);
                live = refl;
                new_key = absent;
                identities = refl;
                endpoints = refl;
                fingerprints = refl;
                history = record { observations = refl; seen = refl; sequences = refl };
                drew = omega arith;
              })))

  enroll-Change :
      (name : String) (platform : Platform) (architecture fingerprint : String) (now : Datetime)
      (actor : String)
      → Change rt s
          (enroll_synthetic_endpoint rt name platform architecture fingerprint now actor s).1
  unfolding enroll_synthetic_endpoint draw
  enroll-Change name platform architecture fingerprint now actor =
      lift_rule (λ r. Change rt s r.1) _ _ s (λ _. unchanged)
        λ _ _.
          gets_rule (λ r. Change rt s r.1) _ _ s
            (raise_rule (λ r. Change rt s r.1) (is_some (lookup fingerprint s.fingerprints)) _ _ s
              unchanged
              λ absent.
                ok_rule (λ r. Change rt s r.1) _ _ s refl
                  (ok_rule (λ r. Change rt s r.1) _ _ _ refl
                    (lift_rule (λ r. Change rt s r.1) _ _ _
                      (λ _. drew (s.draws + 1 + 1) (omega arith))
                      λ i identity_checked.
                        lift_rule (λ r. Change rt s r.1) _ _ _
                          (λ _. drew (s.draws + 1 + 1) (omega arith))
                          λ e endpoint_checked.
                            ok_rule (λ r. Change rt s r.1) _ _ _ refl
                              (ok_rule (λ r. Change rt s r.1) _ _ _ refl
                                (ok_rule (λ r. Change rt s r.1) _ _ _
                                  (audit_lem rt _ _ _ _ _ _ _ _ _ _)
                                  (enrolled_step name platform architecture fingerprint now i e _
                                    identity_checked endpoint_checked (ground arith)))))))

-- If digests are SHA-256 texts, every identity has its endpoint, and the message has passed the
-- checks of its class, every call, whether it returns or raises, makes one of the four steps of
-- `Change`: nothing but the audit log changes, or one message is ingested, one identity revoked,
-- or one endpoint enrolled.
pub perform-Change :
    (rt : Runtime) (op : Operation) (s : ControlPlane)
    → IsHexDigest rt
    → HasEndpoints s
    → IsWellFormed op
    → Change rt s (perform rt op s)
unfolding perform
perform-Change rt (access a b c d r u now m) s digests tables w =
    access-Change rt s a b c d r u now m
perform-Change rt (enroll n p a f now actor) s digests tables w =
    enroll-Change rt s n p a f now actor
perform-Change rt (heartbeat id message at) s digests tables w =
    Ingested-Change rt s tables (touch_heartbeat-valid at) (λ e. refl) (λ e. refl)
      (ingest_heartbeat-Ingested rt id at s digests tables message
        (message_envelope-IsAware message.envelope w).0)
perform-Change rt (inventory id message at) s digests tables w =
    Ingested-Change rt s tables (touch_receipt-valid at) (λ e. refl) (λ e. refl)
      (ingest_inventory-Ingested rt id at s digests tables message
        (message_envelope-IsAware message.envelope w).0)
perform-Change rt (revoke id reason actor now c) s digests tables w =
    revoke-Change rt s id reason actor now c
