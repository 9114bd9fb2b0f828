-- ===== src/Listener/Admission/Runs.antt =====
-- Connections of src/northgate_rmm/listener.py that open and close in any order, against a machine
-- that keeps the list of the open ones.
use northgate_rmm.Prelude.{
  ◌≡◌, refl, ap, ◌∙◌, ◌||◌, Bool, Bool-cases, true, false, Option, none, some, List, [], ◌∷◌, arith,
  leb, ltb, inl, inr, if◌then◌else◌,
}
use northgate_rmm.Prelude.Lists.{length}
use northgate_rmm.Listener.Admission.{
  IdentityQuotaKey, ConnectionAdmission, acquire, release, count, without, Counts, Acquired,
  admitted, full, acquire-Acquired, release-Counts,
}

-- A connection is made under a key, or one that was admitted under a key is lost.
pub data Event : Type 0 where
  made : IdentityQuotaKey → Event
  lost : IdentityQuotaKey → Event

abbrev step : Event → ConnectionAdmission → Option ConnectionAdmission
step (made key) s = some (acquire key s).1
step (lost key) s = release key s

abbrev chain : {A B : Type 0} → Option A → (A → Option B) → Option B
chain none f = none
chain (some a) f = f a

-- The events, one after another; `none` if one of them raises AssertionError.
unfoldable pub run : List Event → ConnectionAdmission → Option ConnectionAdmission
run [] s = some s
run (e ∷ es) s = chain (step e s) (run es)

-- The machine on the list of open connections: a new one is let in below the two limits, and only an
-- open one is lost.
abbrev pub ideal_step : Event → List IdentityQuotaKey → Option (List IdentityQuotaKey)
ideal_step (made key) held =
    some (if leb 16 (length held) || leb 4 (count key held) then held else key ∷ held)
ideal_step (lost key) held = if ltb 0 (count key held) then some (without key held) else none

unfoldable pub ideal_run : List Event → List IdentityQuotaKey → Option (List IdentityQuotaKey)
ideal_run [] held = some held
ideal_run (e ∷ es) held = chain (ideal_step e held) (ideal_run es)

made-Counts :
    (key : IdentityQuotaKey) (s : ConnectionAdmission) (held : List IdentityQuotaKey)
    {r : Bool × ConnectionAdmission}
    → Counts s held
    → Acquired s held key r
    → Counts r.1 (if leb 16 (length held) || leb 4 (count key held) then held else key ∷ held)
made-Counts key s held c (admitted total each counts) =
    let below : (leb 16 (length held) || leb 4 (count key held)) ≡ false = ground arith in
    rw below counts
made-Counts key s held c (full (inl limit)) =
    let hit : (leb 16 (length held) || leb 4 (count key held)) ≡ true = ground arith in rw hit c
made-Counts key s held c (full (inr limit)) =
    let hit : (leb 16 (length held) || leb 4 (count key held)) ≡ true = ground arith in rw hit c

-- Whenever the machine on the open connections goes through a sequence of events, which it does if
-- only open connections are lost, the counters go through it without raising, and count its
-- connections at the end: never more than 16, nor more than 4 of one identity.
pub run-Counts :
    (es : List Event) (s : ConnectionAdmission) (held after : List IdentityQuotaKey)
    → Counts s held
    → ideal_run es held ≡ some after
    → (t : ConnectionAdmission) × (run es s ≡ some t) × Counts t after
unfolding run ideal_run
run-Counts [] s held after c h = let same : held ≡ after = cc (h) in (s, refl, rw (← same) c)
run-Counts (made key ∷ es) s held after c h =
    run-Counts es (acquire key s).1 _ after
      (made-Counts key s held c (acquire-Acquired s held key c)) h
run-Counts (lost key ∷ es) s held after c h = elim (Bool-cases (ltb 0 (count key held))) [
  | inl some_open ↦
      let (t, released, counts) = release-Counts s held key c (ground arith) in
      let (u, rest, final) = run-Counts es t (without key held) after counts (rw some_open at h) in
      (u, ap (λ o. chain o (run es)) released ∙ rest, final)
  | inr none_open ↦ let never = rw none_open at h in absurd (cc (never))
]
