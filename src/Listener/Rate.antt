-- ===== src/Listener/Rate.antt =====
-- `_AgentRateLimiter` of src/northgate_rmm/listener.py. A reading of the clock is a whole number of
-- microseconds, so `v <= now - w` is `v + w <= now`.
pub mod Window
use northgate_rmm.Prelude.{
  ℕ, suc, ◌+◌, ◌≤◌, ◌≡◌, refl, ap, sym, ◌∙◌, ◌||◌, Bool, Bool-cases, true, false, Option,
  Option-cases, none, some, List, [], ◌∷◌, ◌++◌, arith, ltb, leb, nat_eq, string_eq, pair_eq, ◌==◌,
  inl, inr, if◌then◌else◌,
}
use northgate_rmm.Prelude.Lists.{
  length, length-append, keep_if, All, AllPairs, All-append, AllPairs-append, All-map,
}
use northgate_rmm.Prelude.Dict.{Dict, lookup, erase}
use northgate_rmm.Domain.{seconds}
use northgate_rmm.Listener.Admission.{IdentityQuotaKey}

abbrev pub rate_limit_window : ℕ
rate_limit_window = seconds 10

abbrev pub max_requests_per_identity_window : ℕ
max_requests_per_identity_window = 32

abbrev pub max_global_requests_per_window : ℕ
max_global_requests_per_window = 160

abbrev pub max_tracked_identities : ℕ
max_tracked_identities = 4096

pub record AgentRateLimiter : Type 0 where
  pub all_requests : List ℕ
  pub identities : Dict IdentityQuotaKey (List ℕ)

-- `_AgentRateLimiter.__init__`
abbrev pub no_request : AgentRateLimiter
no_request = record { all_requests = []; identities = [] }

-- `_discard_before`, with the cutoff `now - rate_limit_window`
unfoldable pub discard_before : ℕ → List ℕ → List ℕ
discard_before now [] = []
discard_before now (v ∷ vs) =
    let rest = discard_before now vs in if leb (v + rate_limit_window) now then rest else v ∷ vs

-- `popitem(last=False)`
abbrev pub drop_first : Dict IdentityQuotaKey (List ℕ) → Dict IdentityQuotaKey (List ℕ)
drop_first [] = []
drop_first (item ∷ items) = items

-- The entries before that of the identity, which is moved or added at the end, and its requests.
abbrev pub others :
    IdentityQuotaKey
    → Dict IdentityQuotaKey (List ℕ)
    → Option (List ℕ)
    → Dict IdentityQuotaKey (List ℕ) × List ℕ
others key d none = (if leb max_tracked_identities (length d) then drop_first d else d, [])
others key d (some requests) = (erase key d, requests)

-- The rest of `allow`, on the requests of the window.
unfoldable pub decide :
    IdentityQuotaKey
    → ℕ
    → List ℕ
    → Dict IdentityQuotaKey (List ℕ)
    → List ℕ
    → Bool × AgentRateLimiter
decide key now requests rest identity =
    if leb max_global_requests_per_window (length requests)
      || leb max_requests_per_identity_window (length identity)
    then (false, record { all_requests = requests; identities = rest ++ (key, identity) ∷ [] })
    else (
      true,
      record {
        all_requests = requests ++ now ∷ [];
        identities = rest ++ (key, identity ++ now ∷ []) ∷ [];
      },
    )

-- `_AgentRateLimiter.allow`
unfoldable pub allow : IdentityQuotaKey → ℕ → AgentRateLimiter → Bool × AgentRateLimiter
unfolding discard_before
allow key now s =
    let entry = others key s.identities (lookup key s.identities) in
    decide key now (discard_before now s.all_requests) entry.0 (discard_before now entry.1)
