-- ===== src/Listener/Admission.antt =====
-- `_ConnectionAdmission` of src/northgate_rmm/listener.py, against the list of the connections that
-- are open.
pub mod Runs
use northgate_rmm.Prelude.{
  ℕ, zero, suc, ◌+◌, ◌-◌, ◌≤◌, ◌<◌, ◌≡◌, refl, ap, ◌∙◌, ◌||◌, Bool, Bool-cases, true, false, Option,
  none, some, List, [], ◌∷◌, String, arith, ltb, leb, eqb, ◌==◌, nat_eq, string_eq, pair_eq, get_or,
  Eq, inl, inr, ◌⊎◌, if◌then◌else◌,
}
use northgate_rmm.Prelude.Lists.{length}
use northgate_rmm.Prelude.Dict.{Dict, lookup, insert, erase, lookup-insert, lookup-erase}
use northgate_rmm.Domain.{Uuid}

-- `_IdentityQuotaKey`
abbrev pub IdentityQuotaKey : Type 0
IdentityQuotaKey = Uuid × String

abbrev pub max_concurrent_requests : ℕ
max_concurrent_requests = 16

abbrev pub max_concurrent_requests_per_identity : ℕ
max_concurrent_requests_per_identity = 4

pub record ConnectionAdmission : Type 0 where
  pub active : ℕ
  pub active_by_identity : Dict IdentityQuotaKey ℕ

abbrev key_eq : Eq IdentityQuotaKey
key_eq = pair_eq

-- `_ConnectionAdmission.__init__`
abbrev pub no_connection : ConnectionAdmission
no_connection = record { active = 0; active_by_identity = [] }

-- `_ConnectionAdmission.acquire`
unfoldable pub acquire : IdentityQuotaKey → ConnectionAdmission → Bool × ConnectionAdmission
acquire key s =
    let active_for_identity = get_or (lookup key s.active_by_identity) 0 in
    if leb max_concurrent_requests s.active
      || leb max_concurrent_requests_per_identity active_for_identity
    then (false, s)
    else (
      true,
      record {
        active = s.active + 1;
        active_by_identity = insert key (active_for_identity + 1) s.active_by_identity;
      },
    )

lower_count : IdentityQuotaKey → ConnectionAdmission → Option ℕ → Option ConnectionAdmission
lower_count key s none = none
lower_count key s (some n) =
    if ltb s.active 1
    then none
    else some (record {
      active = s.active - 1;
      active_by_identity =
          if eqb n 1
          then erase key s.active_by_identity
          else insert key (n - 1) s.active_by_identity;
    })

-- `_ConnectionAdmission.release`; `none` is its AssertionError
unfoldable pub release : IdentityQuotaKey → ConnectionAdmission → Option ConnectionAdmission
unfolding lower_count
release key s = lower_count key s (lookup key s.active_by_identity)

-- How often a key stands in the list of open connections, and the list without one of them.
abbrev pub count : IdentityQuotaKey → List IdentityQuotaKey → ℕ
count k [] = 0
count k (x ∷ xs) = let rest = count k xs in if x == k then suc rest else rest

abbrev pub without : IdentityQuotaKey → List IdentityQuotaKey → List IdentityQuotaKey
without k [] = []
without k (x ∷ xs) = let rest = without k xs in if x == k then xs else x ∷ rest

-- What the dictionary holds for a number of connections: no entry for none.
abbrev pub entry : ℕ → Option ℕ
entry zero = none
entry (suc n) = some (suc n)

-- `s` counts the open connections `held`, which keep the limits.
pub record Counts (s : ConnectionAdmission) (held : List IdentityQuotaKey) : Type 0 where
  pub total : s.active ≡ length held
  pub each : (k : IdentityQuotaKey) → lookup k s.active_by_identity ≡ entry (count k held)
  pub few : length held ≤ 16
  pub few_each : (k : IdentityQuotaKey) → count k held ≤ 4

pub data Acquired (s : ConnectionAdmission) (held : List IdentityQuotaKey) (key : IdentityQuotaKey)
    : Bool × ConnectionAdmission → Type 0 where
  admitted :
      {t : ConnectionAdmission}
      → length held < 16
      → count key held < 4
      → Counts t (key ∷ held)
      → Acquired s held key (true, t)
  full : ((16 ≤ length held) ⊎ (4 ≤ count key held)) → Acquired s held key (false, s)

count-length : (k : IdentityQuotaKey) (xs : List IdentityQuotaKey) → count k xs ≤ length xs
count-length k [] = omega arith
count-length k (x ∷ xs) = ground (arith, count-length k xs)

length-without :
    (k : IdentityQuotaKey) (xs : List IdentityQuotaKey)
    → 0 < count k xs
    → length (without k xs) + 1 ≡ length xs
length-without k [] h = absurd (omega arith)
length-without k (x ∷ xs) h = elim (Bool-cases (x == k)) [
  | inl same ↦ rw same (omega arith)
  | inr other ↦ rw other (let rest = length-without k xs (rw other at h) in omega arith)
]

-- The count of each key, when one connection of `k` has gone.
count-without :
    (k j : IdentityQuotaKey) (xs : List IdentityQuotaKey)
    → count j (without k xs) ≡ (if k == j then count j xs - 1 else count j xs)
count-without k j [] = ground arith
count-without k j (x ∷ xs) =
    ground (arith, key_eq.agrees k j, key_eq.agrees x k, key_eq.agrees x j, count-without k j xs)

get_or-entry : (n : ℕ) → get_or (entry n) 0 ≡ n
get_or-entry zero = refl
get_or-entry (suc n) = refl

module _ (s : ConnectionAdmission) (held : List IdentityQuotaKey) (key : IdentityQuotaKey)
    (c : Counts s held) where
  -- A connection is admitted exactly if fewer than 16 are held, and fewer than 4 of its identity, and
  -- is then counted; otherwise nothing changes.
  pub acquire-Acquired : Acquired s held key (acquire key s)
  unfolding acquire
  acquire-Acquired =
      rw (c.each key, get_or-entry (count key held))
        (elim (Bool-cases (leb 16 s.active || leb 4 (count key held))) [
          | inl hit ↦ rw hit (full (let total = c.total in limits hit total))
          | inr miss ↦ rw miss (
              admitted (let total = c.total in ground arith) (ground arith) (record {
                total = let total = c.total in omega arith;
                each = λ k. written k;
                few = let total = c.total in ground arith;
                few_each = λ k. counted k (ground arith);
              }))
        ])
    where
      written :
          (k : IdentityQuotaKey)
          → lookup k (insert key (count key held + 1) s.active_by_identity)
            ≡ entry (count k (key ∷ held))
      written k = elim (Bool-cases (key == k)) [
        | inl t ↦
            let same : key ≡ k = (key_eq.agrees key k).0 t in
            let equal : count key held ≡ count k held = ap (λ j. count j held) same in
            let next : count key held + 1 ≡ suc (count k held) = omega arith in
            rw (lookup-insert, t) (ap some next)
        | inr f ↦ rw (lookup-insert, f) (c.each k)
      ]

      counted : (k : IdentityQuotaKey) → count key held < 4 → count k (key ∷ held) ≤ 4
      counted k few = elim (Bool-cases (key == k)) [
        | inl t ↦
            let same : count key held ≡ count k held =
              ap (λ j. count j held) ((key_eq.agrees key k).0 t) in
            rw t (omega arith)
        | inr f ↦ rw f (c.few_each k)
      ]

      limits :
          (leb 16 s.active || leb 4 (count key held)) ≡ true
          → s.active ≡ length held
          → (16 ≤ length held) ⊎ (4 ≤ count key held)
      limits h t = ground arith

  -- Where the counters count the open connections, releasing one of them never raises, and it is
  -- counted no longer.
  pub release-Counts :
      0 < count key held
      → (t : ConnectionAdmission) × (release key s ≡ some t) × Counts t (without key held)
  unfolding release
  release-Counts some_open = go (count key held) refl some_open
    where
      same_count : (k : IdentityQuotaKey) → (key == k) ≡ true → count key held ≡ count k held
      same_count k t = ap (λ j. count j held) ((key_eq.agrees key k).0 t)

      left :
          (n : ℕ) (k : IdentityQuotaKey)
          → count key held ≡ suc n
          → lookup k (
              if eqb (suc n) 1
              then erase key s.active_by_identity
              else insert key (suc n - 1) s.active_by_identity)
            ≡ entry (count k (without key held))
      left zero k e = elim (Bool-cases (key == k)) [
        | inl t ↦
            let equal = same_count k t in
            let gone : 0 ≡ count k held - 1 = omega arith in
            rw (lookup-erase, count-without, t) (ap entry gone)
        | inr f ↦ rw (lookup-erase, count-without, f) (c.each k)
      ]
      left (suc m) k e =
          let several : eqb (suc (suc m)) 1 ≡ false = ground arith in
          elim (Bool-cases (key == k)) [
            | inl t ↦
                let equal = same_count k t in
                let fewer : suc m ≡ count k held - 1 = omega arith in
                let one_less : suc (suc m) - 1 ≡ suc m = omega arith in
                rw (several, lookup-insert, count-without, t) (ap some one_less ∙ ap entry fewer)
            | inr f ↦ rw (several, lookup-insert, count-without, f) (c.each k)
          ]

      removed :
          (n : ℕ)
          → count key held ≡ suc n
          → Counts
              (record {
                active = s.active - 1;
                active_by_identity =
                    if eqb (suc n) 1
                    then erase key s.active_by_identity
                    else insert key (suc n - 1) s.active_by_identity;
              })
              (without key held)
      removed n e = record {
        total =
            let total = c.total in let shorter = length-without key held some_open in omega arith;
        each = λ k. left n k e;
        few = let few = c.few in let shorter = length-without key held some_open in omega arith;
        few_each = λ k. let few = c.few_each k in ground (arith, count-without key k held);
      }

      go :
          (m : ℕ)
          → count key held ≡ m
          → 0 < m
          → (t : ConnectionAdmission) × (release key s ≡ some t) × Counts t (without key held)
      go zero e pos = absurd (omega arith)
      go (suc n) e pos =
          let found : lookup key s.active_by_identity ≡ some (suc n) = c.each key ∙ ap entry e in
          let some_active : ltb s.active 1 ≡ false =
            (let total = c.total in let most = count-length key held in ground arith) in
          (_, rw (found, some_active) refl, removed n e)
