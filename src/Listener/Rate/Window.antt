-- ===== src/Listener/Rate/Window.antt =====
-- The rate limiter of src/northgate_rmm/listener.py against the list of all requests that it has
-- allowed.
use northgate_rmm.Prelude.{
  ℕ, suc, ◌+◌, ◌≤◌, ◌≡◌, refl, ap, sym, ◌∙◌, ◌||◌, Bool, Bool-cases, true, false, Option-cases,
  some, List, [], ◌∷◌, ◌++◌, arith, ltb, leb, nat_eq, string_eq, pair_eq, ◌==◌, inl, inr,
  if◌then◌else◌,
}
use northgate_rmm.Prelude.Lists.{
  length, length-append, keep_if, All, AllPairs, All-append, AllPairs-append, All-map,
}
use northgate_rmm.Prelude.Dict.{Dict, lookup, erase}
use northgate_rmm.Listener.Admission.{IdentityQuotaKey}
use northgate_rmm.Listener.Rate.{
  rate_limit_window, AgentRateLimiter, discard_before, drop_first, decide, allow,
}

-- A request at `t` lies in the window that ends at `now`.
abbrev pub is_recent : ℕ → ℕ → Bool
is_recent now t = ltb now (t + rate_limit_window)

-- `s` keeps the requests of the window that ends at `last` among all that were allowed, which came in
-- order, and these are at most 160.
pub record IsWindow (s : AgentRateLimiter) (allowed : List ℕ) (last : ℕ) : Type 0 where
  pub recent : s.all_requests ≡ keep_if (is_recent last) allowed
  pub ordered : AllPairs ◌≤◌ allowed
  pub past : All (λ t. t ≤ last) allowed
  pub few : length (keep_if (is_recent last) allowed) ≤ 160

-- Every identity has at most 32 requests on record, and at most 4096 identities are tracked.
pub record IsBounded (s : AgentRateLimiter) : Type 0 where
  pub tracked : length s.identities ≤ 4096
  pub each : All (λ item. length item.1 ≤ 32) s.identities

keep_recent :
    (now : ℕ) (x : ℕ) (xs : List ℕ)
    → is_recent now x ≡ true
    → All (◌≤◌ x) xs
    → keep_if (is_recent now) xs ≡ xs
keep_recent now x [] r h = refl
keep_recent now x (y ∷ ys) r (le, h) =
    let recent : is_recent now y ≡ true = ground arith in
    rw recent (ap (λ zs. y ∷ zs) (keep_recent now x ys r h))

-- On requests in order, dropping the old ones from the front leaves the recent ones.
discard-keep :
    (now : ℕ) (xs : List ℕ) → AllPairs ◌≤◌ xs → discard_before now xs ≡ keep_if (is_recent now) xs
unfolding discard_before
discard-keep now [] o = refl
discard-keep now (x ∷ xs) (le, o) = elim (Bool-cases (is_recent now x)) [
  | inl r ↦
      let stays : leb (x + rate_limit_window) now ≡ false = ground arith in
      rw (r, stays) (ap (λ zs. x ∷ zs) (sym (keep_recent now x xs r le)))
  | inr f ↦
      let goes : leb (x + rate_limit_window) now ≡ true = ground arith in
      rw (f, goes) (discard-keep now xs o)
]

keep-keep :
    (last now : ℕ) (xs : List ℕ)
    → last ≤ now
    → keep_if (is_recent now) (keep_if (is_recent last) xs) ≡ keep_if (is_recent now) xs
keep-keep last now [] le = refl
keep-keep last now (x ∷ xs) le = ground (arith, keep-keep last now xs le)

length-discard : (now : ℕ) (xs : List ℕ) → length (discard_before now xs) ≤ length xs
unfolding discard_before
length-discard now [] = omega arith
length-discard now (x ∷ xs) = ground (arith, length-discard now xs)

length-erase :
    (k : IdentityQuotaKey) (d : Dict IdentityQuotaKey (List ℕ)) → length (erase k d) ≤ length d
unfolding erase
length-erase k [] = omega arith
length-erase k ((j, v) ∷ d) = ground (arith, length-erase k d)

length-erase_found :
    (k : IdentityQuotaKey) (d : Dict IdentityQuotaKey (List ℕ)) {v : List ℕ}
    → lookup k d ≡ some v
    → length (erase k d) + 1 ≤ length d
unfolding erase lookup
length-erase_found k [] h = cc (h)
length-erase_found k ((j, w) ∷ d) h = elim (Bool-cases (j == k)) [
  | inl same ↦ rw same (let rest = length-erase k d in omega arith)
  | inr other ↦ rw other (let rest = length-erase_found k d (rw other at h) in omega arith)
]

abbrev IsShort : IdentityQuotaKey × List ℕ → Type 0
IsShort item = length item.1 ≤ 32

All-erase :
    (k : IdentityQuotaKey) (d : Dict IdentityQuotaKey (List ℕ))
    → All IsShort d
    → All IsShort (erase k d)
unfolding erase
All-erase k [] h = tt
All-erase k ((j, v) ∷ d) h = elim (Bool-cases (j == k)) [
  | inl same ↦ rw same (All-erase k d h.1)
  | inr other ↦ rw other (h.0, All-erase k d h.1)
]

lookup-short :
    (k : IdentityQuotaKey) (d : Dict IdentityQuotaKey (List ℕ)) {v : List ℕ}
    → All IsShort d
    → lookup k d ≡ some v
    → length v ≤ 32
unfolding lookup
lookup-short k [] h found = cc (found)
lookup-short k ((j, w) ∷ d) {v} h found = elim (Bool-cases (j == k)) [
  | inl same ↦
      let is : some w ≡ some v = rw same at found in let eq : w ≡ v = cc (is) in rw (← eq) h.0
  | inr other ↦ lookup-short k d h.1 (rw other at found)
]

All-keep : (P : ℕ → Type 0) (p : ℕ → Bool) (xs : List ℕ) → All P xs → All P (keep_if p xs)
All-keep P p [] h = tt
All-keep P p (x ∷ xs) h = elim (Bool-cases (p x)) [
  | inl t ↦ rw t (h.0, All-keep P p xs h.1)
  | inr f ↦ rw f (All-keep P p xs h.1)
]

AllPairs-keep : (p : ℕ → Bool) (xs : List ℕ) → AllPairs ◌≤◌ xs → AllPairs ◌≤◌ (keep_if p xs)
AllPairs-keep p [] h = tt
AllPairs-keep p (x ∷ xs) h = elim (Bool-cases (p x)) [
  | inl t ↦ rw t (All-keep (◌≤◌ x) p xs h.0, AllPairs-keep p xs h.1)
  | inr f ↦ rw f (AllPairs-keep p xs h.1)
]

keep-append :
    (p : ℕ → Bool) (xs : List ℕ) (x : ℕ)
    → p x ≡ true
    → keep_if p (xs ++ x ∷ []) ≡ keep_if p xs ++ x ∷ []
keep-append p [] x h = rw h refl
keep-append p (y ∷ ys) x h = elim (Bool-cases (p y)) [
  | inl t ↦ rw t (ap (λ zs. y ∷ zs) (keep-append p ys x h))
  | inr f ↦ rw f (keep-append p ys x h)
]

module _ (key : IdentityQuotaKey) (now : ℕ) (requests : List ℕ)
    (rest : Dict IdentityQuotaKey (List ℕ)) (identity : List ℕ) where
  decide-IsBounded :
      length rest + 1 ≤ 4096
      → All IsShort rest
      → length identity ≤ 32
      → IsBounded (decide key now requests rest identity).1
  unfolding decide
  decide-IsBounded room short fits =
      elim (Bool-cases (leb 160 (length requests) || leb 32 (length identity))) [
        | inl full ↦ rw full (record {
          tracked = omega (arith, length-append rest ((key, identity) ∷ []));
          each = All-append IsShort rest ((key, identity) ∷ []) short (fits, tt);
        })
        | inr free ↦ rw free (record {
          tracked = omega (arith, length-append rest ((key, identity ++ now ∷ []) ∷ []));
          each =
              All-append IsShort rest ((key, identity ++ now ∷ []) ∷ []) short
                (let longer = length-append identity (now ∷ []) in ground arith, tt);
        })
      ]

  decide-IsWindow :
      (allowed : List ℕ)
      → requests ≡ keep_if (is_recent now) allowed
      → length requests ≤ 160
      → AllPairs ◌≤◌ allowed
      → All (λ t. t ≤ now) allowed
      → IsWindow
          (decide key now requests rest identity).1
          (if (decide key now requests rest identity).0 then allowed ++ now ∷ [] else allowed)
          now
  unfolding decide
  decide-IsWindow allowed same few ordered past =
      elim (Bool-cases (leb 160 (length requests) || leb 32 (length identity))) [
        | inl full ↦
            rw full
              (record { recent = same; ordered = ordered; past = past; few = rw (← same) few })
        | inr free ↦
            let counted : requests ++ now ∷ [] ≡ keep_if (is_recent now) (allowed ++ now ∷ []) =
              ap (λ xs. xs ++ now ∷ []) same
              ∙ sym (keep-append (is_recent now) allowed now (ground arith)) in
            rw free (record {
              recent = counted;
              ordered = AllPairs-append ◌≤◌ allowed now ordered past;
              past = All-append (λ t. t ≤ now) allowed (now ∷ []) past (omega arith, tt);
              few = rw (← counted) (let longer = length-append requests (now ∷ []) in ground arith);
            })
      ]

module _ (key : IdentityQuotaKey) (now : ℕ) (s : AgentRateLimiter) where
  -- A call keeps the bounds: at most 32 requests on record for each identity, and at most 4096
  -- identities.
  pub allow-IsBounded : IsBounded s → IsBounded (allow key now s).1
  unfolding allow
  allow-IsBounded b = elim (Option-cases (lookup key s.identities)) [
    | inl absent ↦ rw absent (
        decide-IsBounded key now (discard_before now s.all_requests) _ _
          (room s.identities b.tracked) (short s.identities b.each) (omega arith))
    | inr (requests, found) ↦ rw found (
        decide-IsBounded key now (discard_before now s.all_requests) _ _
          (let fewer = length-erase_found key s.identities found in
            let tracked = b.tracked in omega arith)
          (All-erase key s.identities b.each)
          (let fits = lookup-short key s.identities b.each found in
            let fewer = length-discard now requests in omega arith))
  ]
    where
      room :
          (d : Dict IdentityQuotaKey (List ℕ))
          → length d ≤ 4096
          → length (if leb 4096 (length d) then drop_first d else d) + 1 ≤ 4096
      room [] h = ground arith
      room (x ∷ xs) h = ground arith

      short :
          (d : Dict IdentityQuotaKey (List ℕ))
          → All IsShort d
          → All IsShort (if leb 4096 (length d) then drop_first d else d)
      short [] h = tt
      short (x ∷ xs) h = elim (Bool-cases (leb 4096 (suc (length xs)))) [
        | inl full ↦ rw full h.1
        | inr free ↦ rw free h
      ]

  -- If the clock does not run backwards, then after a call the limiter again has on record just the
  -- requests that it allowed in the last ten seconds, this one among them if it is allowed, and these
  -- are at most 160.
  pub allow-IsWindow :
      (allowed : List ℕ) (last : ℕ)
      → IsWindow s allowed last
      → last ≤ now
      → IsWindow
          (allow key now s).1
          (if (allow key now s).0 then allowed ++ now ∷ [] else allowed)
          now
  unfolding allow
  allow-IsWindow allowed last h le =
      decide-IsWindow key now (discard_before now s.all_requests) _ _ allowed
        (ap (discard_before now) h.recent
          ∙ discard-keep now (keep_if (is_recent last) allowed)
              (AllPairs-keep (is_recent last) allowed h.ordered)
          ∙ keep-keep last now allowed le)
        (let recent = ap length h.recent in
          let few = h.few in let fewer = length-discard now s.all_requests in omega arith)
        h.ordered (All-map (λ t. t ≤ last) (λ t. t ≤ now) allowed (λ t p. omega arith) h.past)
