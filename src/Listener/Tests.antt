-- ===== src/Listener/Tests.antt =====
-- Limits of src/northgate_rmm/listener.py at concrete inputs.
use northgate_rmm.Prelude.{
  List, ◌≡◌, refl, ap, Bool, true, some, [], ◌∷◌, arith, if◌then◌else◌, ◌++◌, nat_eq, string_eq,
  pair_eq,
}
use northgate_rmm.Prelude.Dict.{lookup, insert}
use northgate_rmm.Listener.Admission.{
  IdentityQuotaKey, ConnectionAdmission, no_connection, acquire, release, Counts, Acquired,
  admitted, full, acquire-Acquired, release-Counts, without,
}
use northgate_rmm.Listener.Admission.Runs.{Event, made, lost, run, ideal_run, run-Counts}
use northgate_rmm.Listener.Rate.{no_request, allow}
use northgate_rmm.Listener.Rate.Window.{IsWindow, IsBounded, allow-IsWindow, allow-IsBounded}

abbrev key : IdentityQuotaKey
key = (1, "sha256:b")

abbrev one_open : ConnectionAdmission
one_open = record { active = 1; active_by_identity = (key, 1) ∷ [] }

no_connection-Counts : Counts no_connection []
unfolding lookup
no_connection-Counts = record {
  total = refl;
  each = λ k. refl;
  few = omega arith;
  few_each = λ k. omega arith;
}

one_acquired : acquire key no_connection ≡ (true, one_open)
unfolding acquire lookup insert
one_acquired = refl

one_open-Counts : Counts one_open (key ∷ [])
one_open-Counts = go (acquire-Acquired no_connection [] key no_connection-Counts) one_acquired
  where
    go :
        {r : Bool × ConnectionAdmission}
        → Acquired no_connection [] key r
        → r ≡ (true, one_open)
        → Counts one_open (key ∷ [])
    go (admitted total each c) e = rw (ap (λ p. p.1) e) at c
    go (full limit) e = let clash = ap (λ p. p.0) e in absurd (cc (clash))

acquire-Acquired_example : Acquired no_connection [] key (acquire key no_connection)
acquire-Acquired_example = acquire-Acquired no_connection [] key no_connection-Counts

release-Counts_example :
    (t : ConnectionAdmission) × (release key one_open ≡ some t) × Counts t (without key (key ∷ []))
release-Counts_example = release-Counts one_open (key ∷ []) key one_open-Counts (omega arith)

no_request-IsBounded : IsBounded no_request
no_request-IsBounded = record { tracked = omega arith; each = tt }

no_request-IsWindow : IsWindow no_request [] 0
no_request-IsWindow = record { recent = refl; ordered = tt; past = tt; few = omega arith }

allow-IsBounded_example : IsBounded (allow key 5 no_request).1
allow-IsBounded_example = allow-IsBounded key 5 no_request no_request-IsBounded

allow-IsWindow_example :
    IsWindow (allow key 5 no_request).1 (if (allow key 5 no_request).0 then [] ++ 5 ∷ [] else []) 5
allow-IsWindow_example = allow-IsWindow key 5 no_request [] 0 no_request-IsWindow (omega arith)

abbrev events : List Event
events = made key ∷ made key ∷ lost key ∷ []

events_run : ideal_run events [] ≡ some (key ∷ [])
unfolding ideal_run
events_run = refl

run-Counts_example :
    (t : ConnectionAdmission) × (run events no_connection ≡ some t) × Counts t (key ∷ [])
run-Counts_example = run-Counts events no_connection [] (key ∷ []) no_connection-Counts events_run
