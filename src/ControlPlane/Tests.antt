-- ===== src/ControlPlane/Tests.antt =====
-- The control plane of src/northgate_rmm/control_plane.py at concrete inputs.
use northgate_rmm.Prelude.{◌≡◌, refl, none, some, [], ◌∷◌, nat_eq, string_eq}
use northgate_rmm.Prelude.Lists.{AllPairs, Extends}
use northgate_rmm.Prelude.Dict.{lookup}
use northgate_rmm.Prelude.Result.{ok}
use northgate_rmm.Domain.{of_heartbeat, of_inventory, Uuid}
use northgate_rmm.ControlPlane.{init, ingest_heartbeat, ingest_inventory, authorize_message}
use northgate_rmm.Prelude.{◌++◌, pos}
use northgate_rmm.Prelude.Dict.{insert, values}
use northgate_rmm.Prelude.Text.{is_hex64, fullmatch_after}
use northgate_rmm.Prelude.Sort.{sort_by, insert_by}
use northgate_rmm.Prelude.Exec.{when, ◌>>=◌}
use northgate_rmm.Domain.{
  endpoint, endpoint_identity, require_aware, require_aware_if, is_fingerprint,
}
use northgate_rmm.ControlPlane.{list_endpoint_page, enroll_synthetic_endpoint, draw, audit}
use northgate_rmm.ControlPlane.Listing.{remaining}
use northgate_rmm.ControlPlane.Distinct.{reachable_pages}
use northgate_rmm.ControlPlane.Authorization.{Outcome, authorize_message-Outcome}
use northgate_rmm.ControlPlane.Ingest.{ingest_heartbeat-Ingested, ingest_inventory-Ingested}
use northgate_rmm.ControlPlane.Ingest.Facts.{Ingested, touch_heartbeat, touch_receipt, IsBound}
use northgate_rmm.ControlPlane.Change.{Change, perform, perform_all}
use northgate_rmm.ControlPlane.Change.Methods.{perform-Change}
use northgate_rmm.ControlPlane.Consistency.{
  IsConsistent, IsConsistent-HasEndpoints, init-IsConsistent,
}
use northgate_rmm.ControlPlane.Consistency.Kept.{perform-IsConsistent}
use northgate_rmm.ControlPlane.History.{Before, IsHistory, perform-IsHistory, init-IsHistory}
use northgate_rmm.ControlPlane.Runs.{
  reachable-IsConsistent, reachable_ordered, reachable_fingerprints, perform_all-Extends,
}
use northgate_rmm.ControlPlane.Permanence.{ingest, Refuses, revoked_refused, replay_refused}
use northgate_rmm.ControlPlane.Sample.{
  runtime, digests, distinct, start, envelope, beat, listing, enrollment, calls, well_formed,
  calls-IsWellFormed, after_enrollment, after_revocation, live, dead, enrolled_found, revoked_found,
  after_enrollment-IsConsistent, after_revocation-IsConsistent, recorded, after_heartbeat,
  heartbeat_run, web,
}

ingest_heartbeat-Ingested_example :
    Ingested after_enrollment 1
      (envelope 50 1)
      start
      "heartbeat.ingest"
      (touch_heartbeat start)
      (λ _. Unit)
      (ingest_heartbeat runtime 1 (beat 50 1) start after_enrollment)
ingest_heartbeat-Ingested_example =
    ingest_heartbeat-Ingested runtime 1 start after_enrollment digests
      (IsConsistent-HasEndpoints after_enrollment-IsConsistent) (beat 50 1) tt

ingest_inventory-Ingested_example :
    Ingested after_enrollment 1
      (envelope 51 2)
      start
      "inventory.ingest"
      (touch_receipt start)
      (IsBound (listing 51 2).payload)
      (ingest_inventory runtime 1 (listing 51 2) start after_enrollment)
ingest_inventory-Ingested_example =
    ingest_inventory-Ingested runtime 1 start after_enrollment digests
      (IsConsistent-HasEndpoints after_enrollment-IsConsistent) (listing 51 2) tt

authorize_message-Outcome_example :
    Outcome runtime 1
      (envelope 50 1)
      start
      "heartbeat.ingest"
      after_enrollment
      (authorize_message runtime 1 (envelope 50 1) start "heartbeat.ingest" after_enrollment)
authorize_message-Outcome_example =
    authorize_message-Outcome runtime 1 (envelope 50 1) start "heartbeat.ingest" after_enrollment

perform-Change_example : Change runtime init (perform runtime enrollment init)
perform-Change_example =
    perform-Change runtime enrollment init digests
      (IsConsistent-HasEndpoints (init-IsConsistent runtime)) tt

perform-IsConsistent_example : IsConsistent runtime (perform runtime enrollment init)
perform-IsConsistent_example =
    perform-IsConsistent runtime enrollment init digests distinct tt (init-IsConsistent runtime)

perform-IsHistory_example : IsHistory (perform runtime enrollment init)
perform-IsHistory_example =
    perform-IsHistory runtime enrollment init digests distinct tt (init-IsConsistent runtime)
      init-IsHistory

reachable-IsConsistent_example : IsConsistent runtime (perform_all runtime calls init)
reachable-IsConsistent_example =
    reachable-IsConsistent runtime digests distinct calls calls-IsWellFormed

reachable_ordered_example : AllPairs Before (perform_all runtime calls init).observations
reachable_ordered_example = reachable_ordered runtime digests distinct calls calls-IsWellFormed

reachable_fingerprints_example : ◌≡◌ {A = Uuid} 1 1
reachable_fingerprints_example =
    reachable_fingerprints runtime digests distinct (enrollment ∷ []) 1 1 live live (tt, tt)
      enrolled_found enrolled_found refl

perform_all-Extends_example :
    Extends after_enrollment.audit_events (perform_all runtime calls after_enrollment).audit_events
    × Extends after_enrollment.observations
        (perform_all runtime calls after_enrollment).observations
perform_all-Extends_example =
    perform_all-Extends runtime digests distinct calls after_enrollment calls-IsWellFormed
      after_enrollment-IsConsistent

revoked_refused_example :
    Refuses (perform_all runtime calls after_revocation) (
      ingest runtime 1
        (of_heartbeat (beat 52 4))
        start
        (perform_all runtime calls after_revocation))
revoked_refused_example =
    revoked_refused runtime digests distinct calls after_revocation 1 dead start
      (of_heartbeat (beat 52 4)) start calls-IsWellFormed after_revocation-IsConsistent refl
      revoked_found (well_formed 52).1.1.1.0

replay_refused_example : Refuses (perform_all runtime calls after_heartbeat) (
    ingest runtime 1
      (of_inventory (listing 50 2))
      start
      (perform_all runtime calls after_heartbeat))
replay_refused_example =
    replay_refused runtime digests distinct 1 1 (of_heartbeat (beat 50 1))
      (of_inventory (listing 50 2)) start start after_enrollment after_heartbeat recorded calls
      calls-IsWellFormed after_enrollment-IsConsistent (well_formed 50).0 (well_formed 50).1.0
      heartbeat_run refl

only_page :
    list_endpoint_page none (pos 1) after_enrollment ≡ (ok ([] ++ web ∷ []), after_enrollment)
unfolding perform_all perform enroll_synthetic_endpoint lookup insert draw audit when ◌>>=◌ endpoint
    endpoint_identity require_aware require_aware_if is_fingerprint is_hex64 fullmatch_after
    list_endpoint_page values sort_by insert_by
only_page = refl

reachable_pages_example :
    remaining none after_enrollment ≡ ([] ++ web ∷ []) ++ remaining (some 0) after_enrollment
reachable_pages_example =
    reachable_pages runtime digests distinct (enrollment ∷ []) (tt, tt) none (pos 1) [] web
      only_page
