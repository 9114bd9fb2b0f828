-- ===== src/ControlPlane/Distinct.antt =====
-- The IDs of the endpoints of `ControlPlane` of src/northgate_rmm/control_plane.py.
use northgate_rmm.Prelude.{
  ◌≡◌, ◌≢◌, refl, sym, ◌∙◌, Bool-cases, false, Option, some, inl, inr, List, [], ◌∷◌, ◌++◌, arith,
  nat_eq, string_eq, ◌==◌, ℤ,
}
use northgate_rmm.Prelude.Lists.{All, AllPairs, All-map, All-zip}
use northgate_rmm.Prelude.Dict.{Dict, lookup, insert, values}
use northgate_rmm.Prelude.Result.{ok}
use northgate_rmm.Domain.{Uuid, Endpoint}
use northgate_rmm.ControlPlane.{ControlPlane, Runtime, init, list_endpoint_page}
use northgate_rmm.ControlPlane.Ingest.Facts.{IsHexDigest}
use northgate_rmm.ControlPlane.Change.{
  Change, nothing, ingested, identity_revoked, enrolled, Operation, perform_all, IsWellFormed,
}
use northgate_rmm.ControlPlane.Change.Methods.{perform-Change}
use northgate_rmm.ControlPlane.Consistency.{
  IsInjective, IsConsistent-HasEndpoints, init-IsConsistent,
}
use northgate_rmm.ControlPlane.Runs.{perform_all_induction, reachable-IsConsistent}
use northgate_rmm.ControlPlane.Listing.{HasDistinctIds, remaining, list_endpoint_page-remaining}

-- No key stands twice in the items of a dictionary.
abbrev IsKeyed : Dict Uuid Endpoint → Type 0
IsKeyed d = AllPairs (λ p q. p.0 ≢ q.0) d

All-insert :
    (j k : Uuid) (e : Endpoint) (d : Dict Uuid Endpoint)
    → j ≢ k
    → All (λ q. j ≢ q.0) d
    → All (λ q. j ≢ q.0) (insert k e d)
unfolding insert
All-insert j k e [] ne h = (ne, tt)
All-insert j k e ((i, w) ∷ d) ne h = elim (Bool-cases (i == k)) [
  | inl t ↦ rw t h
  | inr f ↦ rw f (h.0, All-insert j k e d ne h.1)
]

insert-IsKeyed :
    (k : Uuid) (e : Endpoint) (d : Dict Uuid Endpoint) → IsKeyed d → IsKeyed (insert k e d)
unfolding insert
insert-IsKeyed k e [] h = (tt, tt)
insert-IsKeyed k e ((i, w) ∷ d) h = elim (Bool-cases (i == k)) [
  | inl t ↦ rw t h
  | inr f ↦
      let other : i ≢ k = ground (arith, nat_eq.agrees i k) in
      rw f (All-insert i k e d other h.0, insert-IsKeyed k e d h.1)
]

-- Each item is what a lookup of its key finds.
IsKeyed-lookup : (d : Dict Uuid Endpoint) → IsKeyed d → All (λ p. lookup p.0 d ≡ some p.1) d
unfolding lookup
IsKeyed-lookup [] h = tt
IsKeyed-lookup ((i, w) ∷ d) h = (
  rw ((nat_eq.agrees i i).1 refl) refl,
  All-map _ _ d
      (λ p (ne, found).
        let other : (i == p.0) ≡ false = ground (arith, nat_eq.agrees i p.0) in rw other found)
      (All-zip (λ q. i ≢ q.0) (λ p. lookup p.0 d ≡ some p.1) d h.0 (IsKeyed-lookup d h.1)),
)

values-distinct :
    (d : Dict Uuid Endpoint)
    → IsKeyed d
    → All (λ p. p.1.endpoint_id ≡ p.0) d
    → AllPairs (λ a b. a.endpoint_id ≢ b.endpoint_id) (values d)
unfolding values
values-distinct [] h k = tt
values-distinct ((i, w) ∷ d) h k = (others d h.0 k.1, values-distinct d h.1 k.1)
  where
    others :
        (d : Dict Uuid Endpoint)
        → All (λ q. i ≢ q.0) d
        → All (λ p. p.1.endpoint_id ≡ p.0) d
        → All (λ b. w.endpoint_id ≢ b.endpoint_id) (values d)
    others [] h' k' = tt
    others ((j, x) ∷ d) h' k' = ((λ e. h'.0 (sym k.0 ∙ e ∙ k'.0)), others d h'.1 k'.1)

Change-IsKeyed :
    {rt : Runtime} (s s' : ControlPlane)
    → Change rt s s'
    → IsKeyed s.endpoints
    → IsKeyed s'.endpoints
Change-IsKeyed s s' (nothing g t) h = rw t.endpoints h
Change-IsKeyed s s' (ingested {e'} g n) h =
    rw n.accepted.endpoints (insert-IsKeyed e'.endpoint_id e' s.endpoints h)
Change-IsKeyed s s' (identity_revoked g r) h = rw r.endpoints h
Change-IsKeyed s s' (enrolled {e} g n) h =
    rw n.endpoints (insert-IsKeyed e.endpoint_id e s.endpoints h)

module _ (rt : Runtime) (digests : IsHexDigest rt) (inj : IsInjective rt) (ops : List Operation)
    (w : All IsWellFormed ops) where
  -- The endpoints of every reachable state have different IDs.
  reachable-HasDistinctIds : HasDistinctIds (perform_all rt ops init)
  reachable-HasDistinctIds =
      let s = perform_all rt ops init in
      let keyed =
        perform_all_induction rt digests inj (λ t. IsKeyed t.endpoints)
          (λ op t wf ct h.
            Change-IsKeyed t _ (perform-Change rt op t digests (IsConsistent-HasEndpoints ct) wf) h)
          ops init w (init-IsConsistent rt) tt in
      let c = reachable-IsConsistent rt digests inj ops w in
      values-distinct s.endpoints keyed (
        All-map _ _ s.endpoints (λ p found. c.endpoint_id p.0 p.1 found)
          (IsKeyed-lookup s.endpoints keyed))

  -- If UUIDs do not repeat, digests are SHA-256 texts and messages have passed the checks of
  -- their class: in every state that a run from the empty control plane reaches, the endpoints
  -- behind a cursor are those of its page, followed by those behind the page's last endpoint.
  pub reachable_pages :
      (after : Option Uuid) (limit : ℤ) (ps : List Endpoint) (l : Endpoint)
      → list_endpoint_page after limit (perform_all rt ops init)
        ≡ (ok (ps ++ l ∷ []), perform_all rt ops init)
      → remaining after (perform_all rt ops init)
        ≡ (ps ++ l ∷ []) ++ remaining (some l.endpoint_id) (perform_all rt ops init)
  reachable_pages after limit ps l h =
      list_endpoint_page-remaining after limit (perform_all rt ops init) ps l
        reachable-HasDistinctIds h
