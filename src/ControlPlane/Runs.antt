-- ===== src/ControlPlane/Runs.antt =====
-- Whole runs of `ControlPlane` of src/northgate_rmm/control_plane.py: any calls of its public
-- methods, in any order, each of which may return or raise.
use northgate_rmm.Prelude.{◌≡◌, same_value, some, List, [], ◌∷◌, nat_eq, string_eq}
use northgate_rmm.Prelude.Lists.{Extends, Extends-refl, Extends-trans, Extends-eq, All, AllPairs}
use northgate_rmm.Prelude.Dict.{lookup}
use northgate_rmm.Domain.{Uuid, EndpointIdentity}
use northgate_rmm.ControlPlane.{ControlPlane, Runtime, init}
use northgate_rmm.ControlPlane.Ingest.Facts.{IsHexDigest}
use northgate_rmm.ControlPlane.Change.{
  Change, nothing, ingested, identity_revoked, enrolled, Operation, perform, perform_all,
  IsWellFormed,
}
use northgate_rmm.ControlPlane.Change.Methods.{perform-Change}
use northgate_rmm.ControlPlane.Consistency.{
  IsConsistent, IsInjective, IsConsistent-HasEndpoints, init-IsConsistent,
}
use northgate_rmm.ControlPlane.Consistency.Kept.{perform-IsConsistent}
use northgate_rmm.ControlPlane.History.{Before, IsHistory, perform-IsHistory, init-IsHistory}

module _ (rt : Runtime) (digests : IsHexDigest rt) (inj : IsInjective rt) where
  -- What holds at the start of a run and is kept by every call holds at its end.
  pub perform_all_induction :
      (P : ControlPlane → Type 0)
      → ((op : Operation) (s : ControlPlane)
          → IsWellFormed op
          → IsConsistent rt s
          → P s
          → P (perform rt op s))
      → (ops : List Operation) (s : ControlPlane) → All IsWellFormed ops
      → IsConsistent rt s
      → P s
      → P (perform_all rt ops s)
  unfolding perform_all
  perform_all_induction P keep [] s w c p = p
  perform_all_induction P keep (op ∷ ops) s w c p =
      perform_all_induction P keep ops (perform rt op s) w.1
        (perform-IsConsistent rt op s digests inj w.0 c) (keep op s w.0 c p)

  -- If UUIDs do not repeat, digests are SHA-256 texts and messages have passed the checks of
  -- their class: in every state that a run from the empty control plane reaches, the tables are
  -- consistent.
  pub reachable-IsConsistent :
      (ops : List Operation) → All IsWellFormed ops → IsConsistent rt (perform_all rt ops init)
  reachable-IsConsistent ops w =
      perform_all_induction (IsConsistent rt)
        (λ op s wf c _. perform-IsConsistent rt op s digests inj wf c) ops init w
        (init-IsConsistent rt) (init-IsConsistent rt)

  -- If UUIDs do not repeat, digests are SHA-256 texts and messages have passed the checks of
  -- their class: no run from the empty control plane accepts one message ID twice, and for each
  -- endpoint and boot the sequences of the accepted messages rise in the order of acceptance.
  pub reachable_ordered :
      (ops : List Operation)
      → All IsWellFormed ops
      → AllPairs Before (perform_all rt ops init).observations
  reachable_ordered ops w =
      (perform_all_induction IsHistory (λ op s wf c h. perform-IsHistory rt op s digests inj wf c h)
        ops init w (init-IsConsistent rt) init-IsHistory).ordered

  -- If UUIDs do not repeat, digests are SHA-256 texts and messages have passed the checks of
  -- their class: no two identities of a reachable state have one fingerprint.
  pub reachable_fingerprints :
      (ops : List Operation) (id j : Uuid) (i x : EndpointIdentity)
      → All IsWellFormed ops
      → lookup id (perform_all rt ops init).identities ≡ some i
      → lookup j (perform_all rt ops init).identities ≡ some x
      → i.public_key_fingerprint ≡ x.public_key_fingerprint
      → id ≡ j
  reachable_fingerprints ops id j i x w p q same =
      let c = reachable-IsConsistent ops w in
      same_value (c.key_of id i p) (rw same (c.key_of j x q))

  -- If UUIDs do not repeat, digests are SHA-256 texts and messages have passed the checks of
  -- their class: a run from consistent tables only appends to the audit log and to the
  -- observations.
  pub perform_all-Extends :
      (ops : List Operation) (s : ControlPlane)
      → All IsWellFormed ops
      → IsConsistent rt s
      → Extends s.audit_events (perform_all rt ops s).audit_events
        × Extends s.observations (perform_all rt ops s).observations
  perform_all-Extends ops s w c =
      perform_all_induction
        (λ t. Extends s.audit_events t.audit_events × Extends s.observations t.observations)
        (λ op t wf ct (a, o).
          let (a', o') =
            grown t _ (perform-Change rt op t digests (IsConsistent-HasEndpoints ct) wf) in
          (Extends-trans a a', Extends-trans o o'))
        ops s w c (Extends-refl _, Extends-refl _)
    where
      grown :
          (t t' : ControlPlane)
          → Change rt t t'
          → Extends t.audit_events t'.audit_events × Extends t.observations t'.observations
      grown t t' (nothing g n) = (g.audit, Extends-eq _ n.observations)
      grown t t' (ingested g n) = (g.audit, record { added = _; eq = n.accepted.observations })
      grown t t' (identity_revoked g r) = (g.audit, Extends-eq _ r.history.observations)
      grown t t' (enrolled g n) = (g.audit, Extends-eq _ n.history.observations)
