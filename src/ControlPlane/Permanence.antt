-- ===== src/ControlPlane/Permanence.antt =====
-- Later calls of `ControlPlane` of src/northgate_rmm/control_plane.py: revocations and message IDs.
use northgate_rmm.Prelude.{
  ◌≡◌, ◌≢◌, refl, sym, ap, ◌∙◌, same_value, true, some, none, inl, inr, List, String, arith, nat_eq,
  string_eq, ◌+◌,
}
use northgate_rmm.Prelude.Lists.{member, member-add_self, member-add_mono, All}
use northgate_rmm.Prelude.Dict.{lookup, lookup-insert_ne}
use northgate_rmm.Prelude.Result.{Result, ok, err, Error}
use northgate_rmm.Prelude.Exec.{Exec}
use northgate_rmm.Domain.{
  Uuid, Datetime, require_aware-cases, Endpoint, EndpointIdentity, MessageEnvelope,
  message_envelope, message_envelope-IsAware, Observation, Message, of_heartbeat, of_inventory,
  envelope_of,
}
use northgate_rmm.ControlPlane.{ControlPlane, Runtime, ingest_heartbeat, ingest_inventory}
use northgate_rmm.ControlPlane.Authorization.{IsAdmissible}
use northgate_rmm.ControlPlane.Ingest.{ingest_heartbeat-Ingested, ingest_inventory-Ingested}
use northgate_rmm.ControlPlane.Ingest.Facts.{IsHexDigest, Ingested, accepted, rejected}
use northgate_rmm.ControlPlane.Change.{
  Change, nothing, ingested, identity_revoked, enrolled, Operation, heartbeat, inventory, perform,
  perform_all, IsWellFormed,
}
use northgate_rmm.ControlPlane.Change.Methods.{perform-Change}
use northgate_rmm.ControlPlane.Consistency.{
  IsConsistent, IsInjective, IsConsistent-HasEndpoints, not-IsDrawn,
}
use northgate_rmm.ControlPlane.Consistency.Kept.{perform-IsConsistent}
use northgate_rmm.ControlPlane.Runs.{perform_all_induction}

-- The method that takes a message of this class.
abbrev pub ingest : Runtime → Uuid → Message → Datetime → Exec ControlPlane Observation
ingest rt id (of_heartbeat m) at = ingest_heartbeat rt id m at
ingest rt id (of_inventory m) at = ingest_inventory rt id m at

-- The call raises, and the accepted messages are as they were.
pub record Refuses (s : ControlPlane) (r : Result Observation × ControlPlane) : Type 0 where
  pub error : Error
  pub raised : r.0 ≡ err error
  pub observations : r.1.observations ≡ s.observations

module _ {s : ControlPlane} {id : Uuid} {env : MessageEnvelope} {at : Datetime} {action : String}
    {touch : Endpoint → Endpoint} {Fits : Endpoint → Type 0} where
  -- A message that is admissible under no identity is refused.
  Ingested-Refuses :
      {r : Result Observation × ControlPlane}
      → ((i : EndpointIdentity) → ¬ IsAdmissible s id env at i)
      → Ingested s id env at action touch Fits r
      → Refuses s r
  Ingested-Refuses never (accepted i e adm owned fits acc rec) = absurd (never i adm)
  Ingested-Refuses never (rejected {e} impossible audited same) = record {
    error = e;
    raised = refl;
    observations = elim (require_aware-cases at "") [
      | inl (a, passed) ↦ let x = (audited a).only_audit in rw x refl
      | inr (n, e, failed) ↦ let x = same n in rw x refl
    ];
  }

  -- The ID of an accepted message is new before, and seen afterwards.
  Ingested-seen :
      {r : Result Observation × ControlPlane} {o : Observation} {s' : ControlPlane}
      → Ingested s id env at action touch Fits r
      → r ≡ (ok o, s')
      → member env.message_id s'.seen_message_ids ≡ true
  Ingested-seen {s'} (accepted i e adm owned fits acc rec) eq =
      let state = ap (λ p. p.1.seen_message_ids) eq in
      rw (← state, acc.seen, rec.message_of) (member-add_self env.message_id s.seen_message_ids)
  Ingested-seen (rejected impossible audited same) eq = let clash = ap (λ p. p.0) eq in cc (clash)

module _ (rt : Runtime) (digests : IsHexDigest rt) where
  -- A message that is admissible under no identity is refused.
  inadmissible-Refuses :
      (id : Uuid) (m : Message) (at : Datetime) (s : ControlPlane)
      → IsConsistent rt s
      → message_envelope (envelope_of m) ≡ ok (envelope_of m)
      → ((i : EndpointIdentity) → ¬ IsAdmissible s id (envelope_of m) at i)
      → Refuses s (ingest rt id m at s)
  inadmissible-Refuses id m at s c w never =
      elim m
          as (λ m.
            message_envelope (envelope_of m) ≡ ok (envelope_of m)
            → ((i : EndpointIdentity) → ¬ IsAdmissible s id (envelope_of m) at i)
            → Refuses s (ingest rt id m at s)) [
              | of_heartbeat h ↦ λ w never. Ingested-Refuses never (
                  ingest_heartbeat-Ingested rt id at s digests (IsConsistent-HasEndpoints c) h
                    (message_envelope-IsAware h.envelope w).0)
              | of_inventory h ↦ λ w never. Ingested-Refuses never (
                  ingest_inventory-Ingested rt id at s digests (IsConsistent-HasEndpoints c) h
                    (message_envelope-IsAware h.envelope w).0)
            ]
        w never

  -- An accepted message was not seen before and is seen afterwards.
  accepted_seen :
      (id : Uuid) (m : Message) (at : Datetime) (s s' : ControlPlane) (o : Observation)
      → IsConsistent rt s
      → message_envelope (envelope_of m) ≡ ok (envelope_of m)
      → ingest rt id m at s ≡ (ok o, s')
      → member (envelope_of m).message_id s'.seen_message_ids ≡ true
  accepted_seen id m at s s' o c w run =
      elim m
          as (λ m.
            message_envelope (envelope_of m) ≡ ok (envelope_of m)
            → ingest rt id m at s ≡ (ok o, s')
            → member (envelope_of m).message_id s'.seen_message_ids ≡ true) [
              | of_heartbeat h ↦ λ w run.
                  Ingested-seen
                    (ingest_heartbeat-Ingested rt id at s digests (IsConsistent-HasEndpoints c) h
                      (message_envelope-IsAware h.envelope w).0)
                    run
              | of_inventory h ↦ λ w run.
                  Ingested-seen
                    (ingest_inventory-Ingested rt id at s digests (IsConsistent-HasEndpoints c) h
                      (message_envelope-IsAware h.envelope w).0)
                    run
            ]
        w run

  -- A call keeps every message ID that was seen.
  Change-seen :
      (s s' : ControlPlane) (x : Uuid)
      → Change rt s s'
      → member x s.seen_message_ids ≡ true
      → member x s'.seen_message_ids ≡ true
  Change-seen s s' x (nothing g t) h = rw t.seen h
  Change-seen s s' x (ingested {o} g n) h =
      rw n.accepted.seen (member-add_mono o.message_id x s.seen_message_ids h)
  Change-seen s s' x (identity_revoked g r) h = rw r.history.seen h
  Change-seen s s' x (enrolled g n) h = rw n.history.seen h

  -- A call keeps the record of a revoked identity.
  Change-revoked :
      (s s' : ControlPlane) (id : Uuid) (i : EndpointIdentity) (at : Datetime)
      → IsInjective rt
      → IsConsistent rt s
      → i.revoked_at ≡ some at
      → Change rt s s'
      → lookup id s.identities ≡ some i
      → lookup id s'.identities ≡ some i
  Change-revoked s s' id i at inj c dead (nothing g t) h = rw t.identities h
  Change-revoked s s' id i at inj c dead (ingested g n) h = rw n.accepted.identities h
  Change-revoked s s' id i at inj c dead (identity_revoked {id = j} {i = x} {i' = y} g r) h =
      rw r.identities (lookup-insert_ne j id y s.identities other ∙ h)
    where
      other : j ≢ id
      other same =
          let is : x ≡ i = same_value (rw same at r.known) h in
          let live : i.revoked_at ≡ none = sym (ap (λ x. x.revoked_at) is) ∙ r.live in
          cc (live, dead)
  Change-revoked s s' id i at inj c dead (enrolled {i = x} g n) h =
      rw n.identities (lookup-insert_ne x.identity_id id x s.identities other ∙ h)
    where
      other : x.identity_id ≢ id
      other same =
          not-IsDrawn rt s inj (s.draws + 1) (omega arith)
            (rw (← n.identity_drawn, same) (c.identity_drawn id i h))

module _ (rt : Runtime) (digests : IsHexDigest rt) (inj : IsInjective rt) where
  -- The record of a revoked identity is the same after any later calls.
  pub revoked-perform_all :
      (ops : List Operation) (s : ControlPlane) (id : Uuid) (i : EndpointIdentity) (at : Datetime)
      → All IsWellFormed ops
      → IsConsistent rt s
      → i.revoked_at ≡ some at
      → lookup id s.identities ≡ some i
      → lookup id (perform_all rt ops s).identities ≡ some i
  revoked-perform_all ops s id i at w c dead found =
      perform_all_induction rt digests inj (λ t. lookup id t.identities ≡ some i)
        (λ op t wf ct h.
          Change-revoked rt digests t _ id i at inj ct dead
            (perform-Change rt op t digests (IsConsistent-HasEndpoints ct) wf) h)
        ops s w c found

  -- A seen message ID is seen after any later calls.
  seen-perform_all :
      (ops : List Operation) (s : ControlPlane) (x : Uuid)
      → All IsWellFormed ops
      → IsConsistent rt s
      → member x s.seen_message_ids ≡ true
      → member x (perform_all rt ops s).seen_message_ids ≡ true
  seen-perform_all ops s x w c found =
      perform_all_induction rt digests inj (λ t. member x t.seen_message_ids ≡ true)
        (λ op t wf ct h.
          Change-seen rt digests t _ x
            (perform-Change rt op t digests (IsConsistent-HasEndpoints ct) wf) h)
        ops s w c found

  perform_all-IsConsistent :
      (ops : List Operation) (s : ControlPlane)
      → All IsWellFormed ops
      → IsConsistent rt s
      → IsConsistent rt (perform_all rt ops s)
  perform_all-IsConsistent ops s w c =
      perform_all_induction rt digests inj (IsConsistent rt)
        (λ op t wf ct h. perform-IsConsistent rt op t digests inj wf ct) ops s w c c

  ingest-IsConsistent :
      (id : Uuid) (m : Message) (at : Datetime) (s : ControlPlane)
      → message_envelope (envelope_of m) ≡ ok (envelope_of m)
      → IsConsistent rt s
      → IsConsistent rt (ingest rt id m at s).1
  unfolding perform
  ingest-IsConsistent id (of_heartbeat h) at s w c =
      perform-IsConsistent rt (heartbeat id h at) s digests inj w c
  ingest-IsConsistent id (of_inventory h) at s w c =
      perform-IsConsistent rt (inventory id h at) s digests inj w c

  -- If UUIDs do not repeat, digests are SHA-256 texts and messages have passed the checks of
  -- their class: once an identity is revoked in consistent tables, every later message under it
  -- is refused, whatever is called in between, and the accepted messages stay as they are.
  pub revoked_refused :
      (ops : List Operation) (s : ControlPlane) (id : Uuid) (i : EndpointIdentity)
      (revoked_at : Datetime) (m : Message) (at : Datetime)
      → All IsWellFormed ops
      → IsConsistent rt s
      → i.revoked_at ≡ some revoked_at
      → lookup id s.identities ≡ some i
      → message_envelope (envelope_of m) ≡ ok (envelope_of m)
      → Refuses (perform_all rt ops s) (ingest rt id m at (perform_all rt ops s))
  revoked_refused ops s id i revoked_at m at w c dead found wm =
      let still = revoked-perform_all ops s id i revoked_at w c dead found in
      inadmissible-Refuses rt digests id m at (perform_all rt ops s)
        (perform_all-IsConsistent ops s w c) wm
        λ x adm.
          let is : i ≡ x = same_value still adm.known in
          let live : i.revoked_at ≡ none = ap (λ x. x.revoked_at) is ∙ adm.not_revoked in
          cc (live, dead)

  -- If UUIDs do not repeat, digests are SHA-256 texts and messages have passed the checks of
  -- their class: once a message is accepted in consistent tables, every later message with its ID
  -- is refused, under whatever identity and of whatever class, whatever is called in between.
  pub replay_refused :
      (id j : Uuid) (m n : Message) (at later : Datetime) (s t : ControlPlane) (o : Observation)
      (ops : List Operation)
      → All IsWellFormed ops
      → IsConsistent rt s
      → message_envelope (envelope_of m) ≡ ok (envelope_of m)
      → message_envelope (envelope_of n) ≡ ok (envelope_of n)
      → ingest rt id m at s ≡ (ok o, t)
      → (envelope_of n).message_id ≡ (envelope_of m).message_id
      → Refuses (perform_all rt ops t) (ingest rt j n later (perform_all rt ops t))
  replay_refused id j m n at later s t o ops w c wm wn run same =
      let ct : IsConsistent rt t = rw (ap (λ p. p.1) run) at (ingest-IsConsistent id m at s wm c) in
      let seen = accepted_seen rt digests id m at s t o c wm run in
      let still = seen-perform_all ops t (envelope_of m).message_id w ct seen in
      inadmissible-Refuses rt digests j n later (perform_all rt ops t)
        (perform_all-IsConsistent ops t w ct) wn
        λ x adm. let new = rw same at adm.fresh in cc (new, still)
