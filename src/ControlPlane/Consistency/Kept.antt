-- ===== src/ControlPlane/Consistency/Kept.antt =====
-- The steps of `Change` of src/northgate_rmm/control_plane.py and the references between the tables.
use northgate_rmm.Prelude.{
  ◌+◌, ◌≡◌, ◌≢◌, sym, ap, ◌∙◌, same_value, eq_cases, some, inl, inr, ◌⊎◌, arith, nat_eq, string_eq,
}
use northgate_rmm.Prelude.Dict.{lookup, lookup-insert_self, lookup-insert_ne, insert-cases}
use northgate_rmm.Prelude.Result.{ok}
use northgate_rmm.Domain.{Uuid, Endpoint, endpoint, EndpointIdentity, Observation}
use northgate_rmm.ControlPlane.{ControlPlane, Runtime}
use northgate_rmm.ControlPlane.Ingest.Facts.{IsHexDigest}
use northgate_rmm.ControlPlane.Change.{
  Grows, SameTables, Ingestion, Revocation, Enrollment, nothing, ingested, identity_revoked,
  enrolled, Operation, perform, IsWellFormed,
}
use northgate_rmm.ControlPlane.Change.Methods.{perform-Change}
use northgate_rmm.ControlPlane.Consistency.{
  IsInjective, IsConsistent, IsConsistent-HasEndpoints, IsDrawn-mono, not-IsDrawn,
}

module _ (rt : Runtime) (s s' : ControlPlane) (c : IsConsistent rt s) (g : Grows s s') where
  SameTables-IsConsistent : SameTables s s' → IsConsistent rt s'
  SameTables-IsConsistent t = record {
    identity_id = λ id i. rw t.identities (c.identity_id id i);
    endpoint_id = λ k e. rw t.endpoints (c.endpoint_id k e);
    owner = λ id i. rw (t.identities, t.endpoints) (c.owner id i);
    holder = λ k e. rw (t.identities, t.endpoints) (c.holder k e);
    key_of = λ id i. rw (t.identities, t.fingerprints) (c.key_of id i);
    identity_drawn =
        λ id i h. IsDrawn-mono rt s s' id g.draws (c.identity_drawn id i (rw t.identities at h));
    endpoint_drawn =
        λ k e h. IsDrawn-mono rt s s' k g.draws (c.endpoint_drawn k e (rw t.endpoints at h));
  }

  Revocation-IsConsistent :
      (id : Uuid) (i i' : EndpointIdentity) → Revocation s s' id i i' → IsConsistent rt s'
  Revocation-IsConsistent id i i' r = record {
    identity_id = λ j x h. elim (found j x h) [
      | inl (same, is) ↦ rw (← is, ← same) (r.same_identity ∙ c.identity_id id i r.known)
      | inr (ne, old) ↦ c.identity_id j x old
    ];
    endpoint_id = λ k e. rw r.endpoints (c.endpoint_id k e);
    owner = λ j x h. elim (found j x h) [
      | inl (same, is) ↦ rw (← is, ← same, r.same_endpoint, r.endpoints) (c.owner id i r.known)
      | inr (ne, old) ↦ rw r.endpoints (c.owner j x old)
    ];
    holder = λ k e h. let (x, p, q) = c.holder k e (rw r.endpoints at h) in kept k e x p q;
    key_of = λ j x h. elim (found j x h) [
      | inl (same, is) ↦ rw (← is, ← same, r.same_key, r.fingerprints) (c.key_of id i r.known)
      | inr (ne, old) ↦ rw r.fingerprints (c.key_of j x old)
    ];
    identity_drawn = λ j x h. elim (found j x h) [
      | inl (same, is) ↦
          IsDrawn-mono rt s s' j g.draws (rw (← same) (c.identity_drawn id i r.known))
      | inr (ne, old) ↦ IsDrawn-mono rt s s' j g.draws (c.identity_drawn j x old)
    ];
    endpoint_drawn =
        λ k e h. IsDrawn-mono rt s s' k g.draws (c.endpoint_drawn k e (rw r.endpoints at h));
  }
    where
      found :
          (j : Uuid) (x : EndpointIdentity)
          → lookup j s'.identities ≡ some x
          → ((id ≡ j) × (i' ≡ x)) ⊎ ((id ≢ j) × (lookup j s.identities ≡ some x))
      found j x h = insert-cases id j i' s.identities (rw r.identities at h)

      kept :
          (k : Uuid) (e : Endpoint) (x : EndpointIdentity)
          → lookup e.identity_id s.identities ≡ some x
          → x.endpoint_id ≡ k
          → (y : EndpointIdentity) × (lookup e.identity_id s'.identities ≡ some y)
            × (y.endpoint_id ≡ k)
      kept k e x p q = elim (eq_cases id e.identity_id) [
        | inl same ↦
            let is : i ≡ x = same_value (rw same at r.known) p in
            (
              i',
              rw (r.identities, same) (lookup-insert_self _ i' s.identities),
              rw r.same_endpoint (rw is q),
            )
        | inr ne ↦ (x, rw r.identities (lookup-insert_ne id _ i' s.identities ne ∙ p), q)
      ]

  Ingestion-IsConsistent :
      (id : Uuid) (i : EndpointIdentity) (e e' : Endpoint) (o : Observation)
      → Ingestion s s' id i e e' o
      → IsConsistent rt s'
  Ingestion-IsConsistent id i e e' o n = record {
    identity_id = λ j x. rw n.accepted.identities (c.identity_id j x);
    endpoint_id = λ k f h. elim (found k f h) [
      | inl (same, is) ↦ rw (← is) same
      | inr (ne, old) ↦ c.endpoint_id k f old
    ];
    owner =
        λ j x h. let (f, p, v, q) = c.owner j x (rw n.accepted.identities at h) in kept j x f p v q;
    holder = λ k f h. elim (found k f h) [
      | inl (same, is) ↦
          rw (← is, n.accepted.identities, n.same_identity, ← same, key)
            (c.holder i.endpoint_id e n.owned)
      | inr (ne, old) ↦ rw n.accepted.identities (c.holder k f old)
    ];
    key_of = λ j x. rw (n.accepted.identities, n.accepted.fingerprints) (c.key_of j x);
    identity_drawn = λ j x h.
        IsDrawn-mono rt s s' j g.draws (c.identity_drawn j x (rw n.accepted.identities at h));
    endpoint_drawn = λ k f h. elim (found k f h) [
      | inl (same, is) ↦
          IsDrawn-mono rt s s' k g.draws
            (rw (← same, key) (c.endpoint_drawn i.endpoint_id e n.owned))
      | inr (ne, old) ↦ IsDrawn-mono rt s s' k g.draws (c.endpoint_drawn k f old)
    ];
  }
    where
      key : e'.endpoint_id ≡ i.endpoint_id
      key = n.same_endpoint ∙ c.endpoint_id i.endpoint_id e n.owned

      found :
          (k : Uuid) (f : Endpoint)
          → lookup k s'.endpoints ≡ some f
          → ((e'.endpoint_id ≡ k) × (e' ≡ f))
            ⊎ ((e'.endpoint_id ≢ k) × (lookup k s.endpoints ≡ some f))
      found k f h = insert-cases e'.endpoint_id k e' s.endpoints (rw n.accepted.endpoints at h)

      kept :
          (j : Uuid) (x : EndpointIdentity) (f : Endpoint)
          → lookup x.endpoint_id s.endpoints ≡ some f
          → endpoint f ≡ ok f
          → f.identity_id ≡ j
          → (y : Endpoint) × (lookup x.endpoint_id s'.endpoints ≡ some y)
            × (endpoint y ≡ ok y)
            × (y.identity_id ≡ j)
      kept j x f p v q = elim (eq_cases e'.endpoint_id x.endpoint_id) [
        | inl same ↦
            let is : e ≡ f = same_value n.owned (rw (← same, key) at p) in
            (
              e',
              rw (n.accepted.endpoints, ← same) (lookup-insert_self e'.endpoint_id e' s.endpoints),
              n.valid,
              n.same_identity ∙ rw is q,
            )
        | inr ne ↦ (
          f,
          rw n.accepted.endpoints (lookup-insert_ne e'.endpoint_id _ e' s.endpoints ne ∙ p),
          v,
          q,
        )
      ]

  Enrollment-IsConsistent :
      IsInjective rt
      → (e : Endpoint) (i : EndpointIdentity) → Enrollment rt s s' e i
      → IsConsistent rt s'
  Enrollment-IsConsistent inj e i n = record {
    identity_id = λ j x h. elim (identity_found j x h) [
      | inl (same, is) ↦ rw (← is) same
      | inr (ne, old) ↦ c.identity_id j x old
    ];
    endpoint_id = λ k f h. elim (endpoint_found k f h) [
      | inl (same, is) ↦ rw (← is) same
      | inr (ne, old) ↦ c.endpoint_id k f old
    ];
    owner = λ j x h. elim (identity_found j x h) [
      | inl (same, is) ↦ (e, rw (← is) own_endpoint, n.valid, n.linked_identity ∙ same)
      | inr (ne, old) ↦
          let (f, p, v, q) = c.owner j x old in
          (
            f,
            rw n.endpoints
                (lookup-insert_ne _ _ e s.endpoints (new_endpoint x.endpoint_id f p) ∙ p),
            v,
            q,
          )
    ];
    holder = λ k f h. elim (endpoint_found k f h) [
      | inl (same, is) ↦ (i, rw (← is) own_identity, n.linked_endpoint ∙ same)
      | inr (ne, old) ↦
          let (x, p, q) = c.holder k f old in
          (
            x,
            rw n.identities
                (lookup-insert_ne _ _ i s.identities (new_identity f.identity_id x p) ∙ p),
            q,
          )
    ];
    key_of = λ j x h. elim (identity_found j x h) [
      | inl (same, is) ↦
          rw (← is, n.fingerprints) (lookup-insert_self _ _ s.fingerprints ∙ ap some same)
      | inr (ne, old) ↦ rw n.fingerprints (
          lookup-insert_ne _ _ _ s.fingerprints (new_key x j (c.key_of j x old)) ∙ c.key_of j x old)
    ];
    identity_drawn = λ j x h. elim (identity_found j x h) [
      | inl (same, is) ↦ (s.draws + 1, omega (arith, n.drew), sym n.identity_drawn ∙ same)
      | inr (ne, old) ↦ IsDrawn-mono rt s s' j g.draws (c.identity_drawn j x old)
    ];
    endpoint_drawn = λ k f h. elim (endpoint_found k f h) [
      | inl (same, is) ↦ (s.draws, omega (arith, n.drew), sym n.endpoint_drawn ∙ same)
      | inr (ne, old) ↦ IsDrawn-mono rt s s' k g.draws (c.endpoint_drawn k f old)
    ];
  }
    where
      identity_found :
          (j : Uuid) (x : EndpointIdentity)
          → lookup j s'.identities ≡ some x
          → ((i.identity_id ≡ j) × (i ≡ x))
            ⊎ ((i.identity_id ≢ j) × (lookup j s.identities ≡ some x))
      identity_found j x h = insert-cases i.identity_id j i s.identities (rw n.identities at h)

      endpoint_found :
          (k : Uuid) (f : Endpoint)
          → lookup k s'.endpoints ≡ some f
          → ((e.endpoint_id ≡ k) × (e ≡ f))
            ⊎ ((e.endpoint_id ≢ k) × (lookup k s.endpoints ≡ some f))
      endpoint_found k f h = insert-cases e.endpoint_id k e s.endpoints (rw n.endpoints at h)

      new_endpoint : (k : Uuid) (f : Endpoint) → lookup k s.endpoints ≡ some f → e.endpoint_id ≢ k
      new_endpoint k f p same =
          not-IsDrawn rt s inj s.draws (omega arith)
            (rw (← n.endpoint_drawn, same) (c.endpoint_drawn k f p))

      new_identity :
          (j : Uuid) (x : EndpointIdentity) → lookup j s.identities ≡ some x → i.identity_id ≢ j
      new_identity j x p same =
          not-IsDrawn rt s inj (s.draws + 1) (omega arith)
            (rw (← n.identity_drawn, same) (c.identity_drawn j x p))

      new_key :
          (x : EndpointIdentity) (j : Uuid)
          → lookup x.public_key_fingerprint s.fingerprints ≡ some j
          → i.public_key_fingerprint ≢ x.public_key_fingerprint
      new_key x j p same = let absent = rw same at n.new_key in cc (absent, p)

      own_endpoint : lookup i.endpoint_id s'.endpoints ≡ some e
      own_endpoint =
          rw (n.endpoints, n.linked_endpoint) (lookup-insert_self e.endpoint_id e s.endpoints)

      own_identity : lookup e.identity_id s'.identities ≡ some i
      own_identity =
          rw (n.identities, n.linked_identity) (lookup-insert_self i.identity_id i s.identities)

-- If UUIDs do not repeat, digests are SHA-256 texts and messages have passed the checks of their
-- class: every call keeps the tables consistent.
pub perform-IsConsistent :
    (rt : Runtime) (op : Operation) (s : ControlPlane)
    → IsHexDigest rt
    → IsInjective rt
    → IsWellFormed op
    → IsConsistent rt s
    → IsConsistent rt (perform rt op s)
perform-IsConsistent rt op s digests inj w c =
    elim (perform-Change rt op s digests (IsConsistent-HasEndpoints c) w) [
      | nothing g t ↦ SameTables-IsConsistent rt s _ c g t
      | ingested {id} {i} {e} {e'} {o} g n ↦ Ingestion-IsConsistent rt s _ c g id i e e' o n
      | identity_revoked {id} {i} {i'} g r ↦ Revocation-IsConsistent rt s _ c g id i i' r
      | enrolled {e} {i} g n ↦ Enrollment-IsConsistent rt s _ c g inj e i n
    ]
