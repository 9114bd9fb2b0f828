-- ===== src/ControlPlane/Consistency.antt =====
-- How the tables of `ControlPlane` of src/northgate_rmm/control_plane.py refer to one another.
pub mod Kept
use northgate_rmm.Prelude.{
  ℕ, ◌+◌, ◌≤◌, ◌<◌, ◌≡◌, ◌≢◌, sym, ap, ◌∙◌, same_value, eq_cases, some, inl, inr, ◌⊎◌, arith,
  nat_eq, string_eq,
}
use northgate_rmm.Prelude.Dict.{lookup, lookup-insert_self, lookup-insert_ne, insert-cases}
use northgate_rmm.Prelude.Result.{ok}
use northgate_rmm.Domain.{Uuid, Endpoint, endpoint, EndpointIdentity, Observation}
use northgate_rmm.ControlPlane.{ControlPlane, Runtime, init}
use northgate_rmm.ControlPlane.Ingest.Facts.{HasEndpoints, IsHexDigest}
use northgate_rmm.ControlPlane.Change.{
  Grows, SameTables, Ingestion, Revocation, Enrollment, nothing, ingested, identity_revoked,
  enrolled, Operation, perform, IsWellFormed,
}
use northgate_rmm.ControlPlane.Change.Methods.{perform-Change}

-- Two calls of `uuid4()` never return the same value.
abbrev pub IsInjective : Runtime → Type 0
IsInjective rt = (m n : ℕ) → rt.uuid4 m ≡ rt.uuid4 n → m ≡ n

-- `id` is a UUID that has been drawn.
abbrev pub IsDrawn : Runtime → ControlPlane → Uuid → Type 0
IsDrawn rt s id = (n : ℕ) × (n < s.draws) × (rt.uuid4 n ≡ id)

pub record IsConsistent (rt : Runtime) (s : ControlPlane) : Type 0 where
  pub identity_id :
      (id : Uuid) (i : EndpointIdentity) → lookup id s.identities ≡ some i → i.identity_id ≡ id
  pub endpoint_id : (k : Uuid) (e : Endpoint) → lookup k s.endpoints ≡ some e → e.endpoint_id ≡ k
  -- an identity's endpoint is there, passes its checks and names the identity
  pub owner :
      (id : Uuid) (i : EndpointIdentity)
      → lookup id s.identities ≡ some i
      → (e : Endpoint) × (lookup i.endpoint_id s.endpoints ≡ some e)
        × (endpoint e ≡ ok e)
        × (e.identity_id ≡ id)
  -- an endpoint's identity is there and names the endpoint
  pub holder :
      (k : Uuid) (e : Endpoint)
      → lookup k s.endpoints ≡ some e
      → (i : EndpointIdentity) × (lookup e.identity_id s.identities ≡ some i) × (i.endpoint_id ≡ k)
  -- the fingerprint of an identity leads back to it
  pub key_of :
      (id : Uuid) (i : EndpointIdentity)
      → lookup id s.identities ≡ some i
      → lookup i.public_key_fingerprint s.fingerprints ≡ some id
  pub identity_drawn :
      (id : Uuid) (i : EndpointIdentity) → lookup id s.identities ≡ some i → IsDrawn rt s id
  pub endpoint_drawn : (k : Uuid) (e : Endpoint) → lookup k s.endpoints ≡ some e → IsDrawn rt s k

pub IsConsistent-HasEndpoints :
    {rt : Runtime} {s : ControlPlane} → IsConsistent rt s → HasEndpoints s
IsConsistent-HasEndpoints c = record {
  owner = λ id i h. let (e, p, v, n) = c.owner id i h in (e, p, v);
}

-- A drawn UUID stays drawn, and one that is not drawn yet names nothing.
pub IsDrawn-mono :
    (rt : Runtime) (s s' : ControlPlane) (id : Uuid)
    → s.draws ≤ s'.draws
    → IsDrawn rt s id
    → IsDrawn rt s' id
IsDrawn-mono rt s s' id le (n, lt, eq) = (n, omega arith, eq)

pub not-IsDrawn :
    (rt : Runtime) (s : ControlPlane)
    → IsInjective rt
    → (n : ℕ) → s.draws ≤ n
    → ¬ IsDrawn rt s (rt.uuid4 n)
not-IsDrawn rt s inj n le (m, lt, eq) = let same = inj m n eq in omega arith

pub init-IsConsistent : (rt : Runtime) → IsConsistent rt init
unfolding lookup
init-IsConsistent rt = record {
  identity_id = λ id i h. cc;
  endpoint_id = λ k e h. cc;
  owner = λ id i h. cc;
  holder = λ k e h. cc;
  key_of = λ id i h. cc;
  identity_drawn = λ id i h. cc;
  endpoint_drawn = λ k e h. cc;
}
