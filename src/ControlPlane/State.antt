-- ===== src/ControlPlane/State.antt =====
-- The state of `ControlPlane` of src/northgate_rmm/control_plane.py, and the private methods that
-- write its audit log. `draws` counts the calls of `uuid4()`.
use northgate_rmm.Prelude.{◌≡◌, refl, ℕ, ◌+◌, List, [], ◌∷◌, ◌++◌, String, ℤ, string_eq}
use northgate_rmm.Prelude.Dict.{Dict}
use northgate_rmm.Prelude.Text.{uuid_str}
use northgate_rmm.Prelude.Result.{Error, ok}
use northgate_rmm.Prelude.Sort.{sort_by, pair_leb}
use northgate_rmm.Prelude.Exec.{Exec, raise, modify, ◌>>=◌, ◌>>◌}
use northgate_rmm.Domain.{Uuid, Datetime, Endpoint, EndpointIdentity, Observation, AuditEvent}
use Prim.Native.String.{◌++◌ as append}

pub record ControlPlane : Type 0 where
  pub endpoints : Dict Uuid Endpoint
  pub identities : Dict Uuid EndpointIdentity
  pub fingerprints : Dict String Uuid
  pub observations : List Observation
  pub audit_events : List AuditEvent
  pub seen_message_ids : List Uuid
  pub last_sequences : Dict (Uuid × Uuid) ℤ
  pub draws : ℕ

-- `ControlPlane.__init__`
abbrev pub init : ControlPlane
init = record {
  endpoints = [];
  identities = [];
  fingerprints = [];
  observations = [];
  audit_events = [];
  seen_message_ids = [];
  last_sequences = [];
  draws = 0;
}

-- What the module takes from outside: the n-th value that `uuid4()` returns, and SHA-256.
pub record Runtime : Type 0 where
  pub uuid4 : ℕ → Uuid
  pub sha256_hex : List ℕ → String

module _ (rt : Runtime) where
  -- `uuid4()`
  unfoldable pub draw : Exec ControlPlane Uuid
  draw s = (ok (rt.uuid4 s.draws), record s { draws = s.draws + 1 })

  -- `ControlPlane._audit`
  unfoldable pub audit :
      Datetime
      → String
      → String
      → String
      → String
      → String
      → String
      → Uuid
      → List (String × String)
      → Exec ControlPlane (Unit {0})
  audit server_time actor_type actor_id subject action decision reason correlation_id metadata = do
    event_id ← draw
    modify λ s. record s {
      audit_events =
          s.audit_events
          ++ record {
            event_id = event_id;
            server_time = server_time;
            actor_type = actor_type;
            actor_id = actor_id;
            subject = subject;
            action = action;
            decision = decision;
            reason = reason;
            correlation_id = correlation_id;
            metadata = sort_by pair_leb metadata;
          }
            ∷ [];
    }

  -- `ControlPlane._reject`; `error_type` is the class that is raised
  unfoldable pub reject :
      {A : Type 0}
      → Uuid
      → Uuid
      → String
      → String
      → Uuid
      → Datetime
      → (String → Error)
      → Exec ControlPlane A
  reject identity_id endpoint_id action reason correlation_id received_at error_type = do
    audit received_at "endpoint_identity" (uuid_str identity_id)
        (append "endpoint:" (uuid_str endpoint_id)) action "rejected" reason correlation_id []
    raise (error_type reason)

  -- `_audit` appends one event, under a fresh ID.
  module _ (server_time : Datetime) (actor_type actor_id subject action decision reason : String)
      (correlation_id : Uuid) (metadata : List (String × String)) (s : ControlPlane) where
    abbrev pub audit_event : AuditEvent
    audit_event = record {
      event_id = rt.uuid4 s.draws;
      server_time = server_time;
      actor_type = actor_type;
      actor_id = actor_id;
      subject = subject;
      action = action;
      decision = decision;
      reason = reason;
      correlation_id = correlation_id;
      metadata = sort_by pair_leb metadata;
    }

    pub audit_lem :
        audit server_time actor_type actor_id subject action decision reason correlation_id metadata
          s
        ≡ (
          ok tt,
          record s { audit_events = s.audit_events ++ audit_event ∷ []; draws = s.draws + 1 },
        )
    unfolding audit draw ◌>>=◌
    audit_lem = refl
