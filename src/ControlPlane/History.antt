-- ===== src/ControlPlane/History.antt =====
-- The accepted messages of `ControlPlane` of src/northgate_rmm/control_plane.py and their order.
use northgate_rmm.Prelude.{
  ◌≡◌, ◌≢◌, refl, sym, ap, ◌∙◌, same_value, eq_cases, true, some, inl, inr, arith, nat_eq, pair_eq,
  ℤ, string_eq,
}
use northgate_rmm.Prelude.Int.{◌≤ℤ◌}
use northgate_rmm.Prelude.Lists.{
  member, member-add, All, AllPairs, All-append, AllPairs-append, All-map, All-zip, All-eq,
  AllPairs-eq,
}
use northgate_rmm.Prelude.Dict.{lookup, insert, lookup-insert_self, lookup-insert_ne, insert-cases}
use northgate_rmm.Domain.{Uuid, Endpoint, EndpointIdentity, Observation}
use northgate_rmm.ControlPlane.{ControlPlane, Runtime, init, previous_sequence}
use northgate_rmm.ControlPlane.Ingest.Facts.{IsHexDigest}
use northgate_rmm.ControlPlane.Change.{
  SameTables, SameHistory, Ingestion, Revocation, Enrollment, nothing, ingested, identity_revoked,
  enrolled, Operation, perform, IsWellFormed,
}
use northgate_rmm.ControlPlane.Change.Methods.{perform-Change}
use northgate_rmm.ControlPlane.Consistency.{
  IsConsistent, IsInjective, IsConsistent-HasEndpoints, not-IsDrawn,
}

-- `o` was accepted before `p`: their message IDs differ, and if endpoint and boot are the same, the
-- sequence has risen.
pub record Before (o p : Observation) : Type 0 where
  pub other_message : o.message_id ≢ p.message_id
  pub rising : o.endpoint_id ≡ p.endpoint_id → o.boot_id ≡ p.boot_id → ¬ (p.sequence ≤ℤ o.sequence)

-- `o` is from the endpoint of `i`, and then the last sequence of `id` for its boot is no lower.
abbrev pub IsCounted : ControlPlane → Uuid → EndpointIdentity → Observation → Type 0
IsCounted s id i o = o.endpoint_id ≡ i.endpoint_id → o.sequence ≤ℤ previous_sequence s id o.boot_id

abbrev pub IsSeen : ControlPlane → Observation → Type 0
IsSeen s o = member o.message_id s.seen_message_ids ≡ true

abbrev pub IsPlaced : ControlPlane → Observation → Type 0
IsPlaced s o = (e : Endpoint) × (lookup o.endpoint_id s.endpoints ≡ some e)

pub record IsHistory (s : ControlPlane) : Type 0 where
  pub seen : All (IsSeen s) s.observations
  pub placed : All (IsPlaced s) s.observations
  pub counted :
      (id : Uuid) (i : EndpointIdentity)
      → lookup id s.identities ≡ some i
      → All (IsCounted s id i) s.observations
  pub ordered : AllPairs Before s.observations

module _ (s s' : ControlPlane) (id b : Uuid) (q : ℤ)
    (written : s'.last_sequences ≡ insert (id, b) q s.last_sequences) where
  previous_self : previous_sequence s' id b ≡ q
  unfolding previous_sequence
  previous_self = rw (written, lookup-insert_self (id, b) q s.last_sequences) refl

  previous_ne :
      (j c : Uuid)
      → ◌≢◌ {A = Uuid × Uuid} (id, b) (j, c)
      → previous_sequence s' j c ≡ previous_sequence s j c
  unfolding previous_sequence
  previous_ne j c ne = rw (written, lookup-insert_ne (id, b) (j, c) q s.last_sequences ne) refl

  -- The last sequences do not fall.
  previous_grows :
      ¬ (q ≤ℤ previous_sequence s id b)
      → (j c : Uuid) → previous_sequence s j c ≤ℤ previous_sequence s' j c
  previous_grows ahead j c = elim (eq_cases {A = Uuid × Uuid} (id, b) (j, c)) [
    | inr ne ↦ rw (previous_ne j c ne) (omega arith)
    | inl same ↦
        let at_key : previous_sequence s j c ≡ previous_sequence s id b =
          ap (λ k. previous_sequence s k.0 k.1) (sym same) in
        let at_key' : previous_sequence s' j c ≡ q =
          ap (λ k. previous_sequence s' k.0 k.1) (sym same) ∙ previous_self in
        rw (at_key, at_key') (omega arith)
  ]

previous_same :
    (s s' : ControlPlane) (id b : Uuid)
    → s'.last_sequences ≡ s.last_sequences
    → previous_sequence s' id b ≡ previous_sequence s id b
unfolding previous_sequence
previous_same s s' id b same = rw same refl

module _ (rt : Runtime) (s s' : ControlPlane) (c : IsConsistent rt s) (h : IsHistory s) where
  -- the history itself has not changed, and no endpoint is lost
  kept-IsHistory :
      SameHistory s s'
      → ((k : Uuid) (e : Endpoint)
          → lookup k s.endpoints ≡ some e
          → (f : Endpoint) × (lookup k s'.endpoints ≡ some f))
      → ((id : Uuid) (i : EndpointIdentity)
          → lookup id s'.identities ≡ some i
          → All (IsCounted s id i) s.observations)
      → IsHistory s'
  kept-IsHistory t places counts = record {
    seen =
        All-eq (IsSeen s') t.observations
          (All-map (IsSeen s) (IsSeen s') s.observations (λ o p. rw t.seen p) h.seen);
    placed = All-eq (IsPlaced s') t.observations (
        All-map (IsPlaced s) (IsPlaced s') s.observations (λ o p. places o.endpoint_id p.0 p.1)
          h.placed);
    counted = λ id i known. All-eq (IsCounted s' id i) t.observations (
        All-map (IsCounted s id i) (IsCounted s' id i) s.observations
          (λ o n same. same_previous id o (n same)) (counts id i known));
    ordered = AllPairs-eq Before t.observations h.ordered;
  }
    where
      same_previous :
          (id : Uuid) (o : Observation)
          → o.sequence ≤ℤ previous_sequence s id o.boot_id
          → o.sequence ≤ℤ previous_sequence s' id o.boot_id
      same_previous id o n = rw (previous_same s s' id o.boot_id t.sequences) n

  SameTables-IsHistory : SameTables s s' → IsHistory s'
  SameTables-IsHistory t =
      kept-IsHistory
        (record { observations = t.observations; seen = t.seen; sequences = t.sequences })
        (λ k e p. (e, rw t.endpoints p)) (λ id i known. h.counted id i (rw t.identities at known))

  Revocation-IsHistory :
      (id : Uuid) (i i' : EndpointIdentity) → Revocation s s' id i i' → IsHistory s'
  Revocation-IsHistory id i i' r =
      kept-IsHistory r.history (λ k e p. (e, rw r.endpoints p))
        λ j x known. elim (insert-cases id j i' s.identities (rw r.identities at known)) [
          | inl (same, is) ↦ rw (← same, ← is, r.same_endpoint) (h.counted id i r.known)
          | inr (ne, old) ↦ h.counted j x old
        ]

  Enrollment-IsHistory :
      IsInjective rt → (e : Endpoint) (i : EndpointIdentity) → Enrollment rt s s' e i → IsHistory s'
  Enrollment-IsHistory inj e i n = kept-IsHistory n.history places λ j x known.
      elim (insert-cases i.identity_id j i s.identities (rw n.identities at known)) [
        | inl (same, is) ↦
            All-map (IsPlaced s) (IsCounted s j x) s.observations
              (λ o p. rw (← is) (λ at_new.
                absurd (new_endpoint o.endpoint_id p.0 p.1 (at_new ∙ n.linked_endpoint))))
              h.placed
        | inr (ne, old) ↦ h.counted j x old
      ]
    where
      new_endpoint : (k : Uuid) (f : Endpoint) → lookup k s.endpoints ≡ some f → k ≢ e.endpoint_id
      new_endpoint k f p same =
          not-IsDrawn rt s inj s.draws (omega arith)
            (rw (← n.endpoint_drawn, ← same) (c.endpoint_drawn k f p))

      places :
          (k : Uuid) (f : Endpoint)
          → lookup k s.endpoints ≡ some f
          → (g : Endpoint) × (lookup k s'.endpoints ≡ some g)
      places k f p = (
        f,
        rw n.endpoints (
            lookup-insert_ne e.endpoint_id k e s.endpoints (λ same. new_endpoint k f p (sym same))
            ∙ p),
      )

  Ingestion-IsHistory :
      (id : Uuid) (i : EndpointIdentity) (e e' : Endpoint) (o : Observation)
      → Ingestion s s' id i e e' o
      → IsHistory s'
  Ingestion-IsHistory id i e e' o n = record {
    seen = All-eq (IsSeen s') n.accepted.observations (
        All-append (IsSeen s') s.observations _
          (All-map (IsSeen s) (IsSeen s') s.observations still_seen h.seen) (seen_now, tt));
    placed = All-eq (IsPlaced s') n.accepted.observations (
        All-append (IsPlaced s') s.observations _
          (All-map (IsPlaced s) (IsPlaced s') s.observations
            (λ p at_p. places p.endpoint_id at_p.0 at_p.1) h.placed)
          (rw n.endpoint_of (places i.endpoint_id e n.owned), tt));
    counted = λ j x known.
        let old : lookup j s.identities ≡ some x = rw n.accepted.identities at known in
        All-eq (IsCounted s' j x) n.accepted.observations (
          All-append (IsCounted s' j x) s.observations _
            (All-map (IsCounted s j x) (IsCounted s' j x) s.observations
              (λ p counted_p same. omega (arith, counted_p same, grows j p.boot_id))
              (h.counted j x old))
            (counted_now j x old, tt));
    ordered = AllPairs-eq Before n.accepted.observations (
        AllPairs-append Before s.observations o h.ordered (
          All-map (λ p. IsSeen s p × IsCounted s id i p) (λ p. Before p o) s.observations
            (λ p known_p. before p known_p.0 known_p.1)
            (All-zip (IsSeen s) (IsCounted s id i) s.observations h.seen
              (h.counted id i n.known))));
  }
    where
      grows : (j b : Uuid) → previous_sequence s j b ≤ℤ previous_sequence s' j b
      grows = previous_grows s s' id o.boot_id o.sequence n.accepted.sequences n.ahead

      counted_now :
          (j : Uuid) (x : EndpointIdentity) → lookup j s.identities ≡ some x → IsCounted s' j x o
      counted_now j x old same =
          let (f, owned_f, _, named_f) = c.owner j x old in
          let (f', owned_f', _, named_f') = c.owner id i n.known in
          let meet : f ≡ f' = same_value (rw (← same, n.endpoint_of) at owned_f) owned_f' in
          let same_id : id ≡ j =
            sym named_f' ∙ ap (λ (y : Endpoint). y.identity_id) (sym meet) ∙ named_f in
          rw (← same_id, previous_self s s' id o.boot_id o.sequence n.accepted.sequences)
            (omega arith)

      seen_now : IsSeen s' o
      seen_now = rw (n.accepted.seen, member-add) (ground arith)

      still_seen : (p : Observation) → IsSeen s p → IsSeen s' p
      still_seen p seen_p = rw (n.accepted.seen, member-add) (ground arith)

      places :
          (k : Uuid) (f : Endpoint)
          → lookup k s.endpoints ≡ some f
          → (g : Endpoint) × (lookup k s'.endpoints ≡ some g)
      places k f p = elim (eq_cases e'.endpoint_id k) [
        | inl same ↦ (
          e',
          rw (n.accepted.endpoints, ← same) (lookup-insert_self e'.endpoint_id e' s.endpoints),
        )
        | inr ne ↦
            (f, rw n.accepted.endpoints (lookup-insert_ne e'.endpoint_id k e' s.endpoints ne ∙ p))
      ]

      before : (p : Observation) → IsSeen s p → IsCounted s id i p → Before p o
      before p seen_p counted_p = record {
        other_message = λ same. let seen_o = rw same at seen_p in cc (seen_o, n.fresh);
        rising = λ same_endpoint same_boot le. n.ahead (
            let counted_then = counted_p (same_endpoint ∙ n.endpoint_of) in
            let counted_now = rw same_boot at counted_then in omega (arith, le, counted_now));
      }

-- If UUIDs do not repeat, digests are SHA-256 texts and messages have passed the checks of their
-- class: in consistent tables every call keeps the history: every accepted message is among the
-- seen IDs, its endpoint exists, its sequence is not above the last of its identity and boot, and
-- the accepted messages are in order.
pub perform-IsHistory :
    (rt : Runtime) (op : Operation) (s : ControlPlane)
    → IsHexDigest rt
    → IsInjective rt
    → IsWellFormed op
    → IsConsistent rt s
    → IsHistory s
    → IsHistory (perform rt op s)
perform-IsHistory rt op s digests inj w c h =
    elim (perform-Change rt op s digests (IsConsistent-HasEndpoints c) w) [
      | nothing g t ↦ SameTables-IsHistory rt s _ c h t
      | ingested {id} {i} {e} {e'} {o} g n ↦ Ingestion-IsHistory rt s _ c h id i e e' o n
      | identity_revoked {id} {i} {i'} g r ↦ Revocation-IsHistory rt s _ c h id i i' r
      | enrolled {e} {i} g n ↦ Enrollment-IsHistory rt s _ c h inj e i n
    ]

pub init-IsHistory : IsHistory init
unfolding lookup
init-IsHistory = record { seen = tt; placed = tt; counted = λ id i h. tt; ordered = tt }
