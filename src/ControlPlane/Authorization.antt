-- ===== src/ControlPlane/Authorization.antt =====
-- What `_authorize_message` of src/northgate_rmm/control_plane.py decides, against a description of
-- an admissible message that does not mention the order of the tests.
use northgate_rmm.Prelude.{
  ◌+◌, ◌≤◌, ◌<◌, ◌≡◌, refl, Bool, true, false, some, none, [], ◌∷◌, ◌++◌, String, arith, inl, inr,
  nat_eq, Option,
}
use northgate_rmm.Prelude.Int.{◌≤ℤ◌}
use northgate_rmm.Prelude.Lists.{member}
use northgate_rmm.Prelude.Dict.{lookup}
use northgate_rmm.Prelude.Result.{Result, ok, err, Error, authorization_error}
use northgate_rmm.Prelude.Exec.{gets, ◌>>=◌, Exec, when, ◌>>◌}
use northgate_rmm.Domain.{
  Uuid, Datetime, IsAware, instant, max_clock_skew, EndpointIdentity, MessageEnvelope, AuditEvent,
  require_aware-cases,
}
use northgate_rmm.ControlPlane.{
  ControlPlane, Runtime, authorize_found, authorize_message, previous_sequence, draw, audit, reject,
}

-- The message of `env`, sent under the identity `id` and received at `at`, may be accepted: the
-- identity is known, not revoked and owns the endpoint; the message is neither from the future nor
-- expired; its ID is new, and its sequence is above the last one of this identity and boot.
pub record IsAdmissible (s : ControlPlane) (id : Uuid) (env : MessageEnvelope) (at : Datetime)
    (i : EndpointIdentity) : Type 0 where
  pub aware_receipt : IsAware at
  pub known : lookup id s.identities ≡ some i
  pub not_revoked : i.revoked_at ≡ none
  pub bound : env.endpoint_id ≡ i.endpoint_id
  pub not_early : instant env.created_at ≤ instant at + max_clock_skew
  pub not_late : instant at < instant env.expires_at
  pub fresh : member env.message_id s.seen_message_ids ≡ false
  pub ahead : ¬ (env.sequence ≤ℤ previous_sequence s id env.boot_id)

-- `s'` is `s` with one more audit event, which says that `action` was rejected at `at`.
pub record Rejected (s s' : ControlPlane) (at : Datetime) (action : String) : Type 0 where
  pub event : AuditEvent
  pub only_audit :
      s' ≡ record s { audit_events = s.audit_events ++ event ∷ []; draws = s.draws + 1 }
  pub decision : event.decision ≡ "rejected"
  pub action_of : event.action ≡ action
  pub time_of : event.server_time ≡ at

module _ (rt : Runtime) (id : Uuid) (env : MessageEnvelope) (at : Datetime) (action : String) where
  -- A call that ends well found the message admissible and changed nothing; one that raises had no
  -- identity under which the message is admissible, and wrote one rejection if `at` is aware.
  pub data Outcome (s : ControlPlane) : Result EndpointIdentity × ControlPlane → Type 0 where
    admitted : {i : EndpointIdentity} → IsAdmissible s id env at i → Outcome s (ok i, s)
    refused :
        {e : Error} {s' : ControlPlane}
        → ((i : EndpointIdentity) → ¬ IsAdmissible s id env at i)
        → (IsAware at → Rejected s s' at action)
        → (¬ IsAware at → s' ≡ s)
        → Outcome s (err e, s')

  reject-Outcome :
      (s : ControlPlane)
      → IsAware at
      → (endpoint_id : Uuid) (reason : String) (error_type : String → Error)
      → ((i : EndpointIdentity) → ¬ IsAdmissible s id env at i)
      → Outcome s (reject rt id endpoint_id action reason env.correlation_id at error_type s)
  unfolding reject audit draw ◌>>=◌
  reject-Outcome s a endpoint_id reason error_type never =
      refused never
        (λ _. record {
          event = _;
          only_audit = refl;
          decision = refl;
          action_of = refl;
          time_of = refl;
        })
        (λ n. absurd (n a))

  -- One test of the method: it ends in a rejection, or the tests go on.
  guard-Outcome :
      (s : ControlPlane)
      → IsAware at
      → (b : Bool) (endpoint_id : Uuid) (reason : String) (error_type : String → Error)
        (k : Exec ControlPlane EndpointIdentity)
      → (b ≡ true → (i : EndpointIdentity) → ¬ IsAdmissible s id env at i)
      → (b ≡ false → Outcome s (k s))
      → Outcome s (
          (when b (reject rt id endpoint_id action reason env.correlation_id at error_type) >> k) s)
  unfolding reject audit draw when ◌>>=◌
  guard-Outcome s a true endpoint_id reason error_type k never go =
      reject-Outcome s a endpoint_id reason error_type (never refl)
  guard-Outcome s a false endpoint_id reason error_type k never go = go refl

  read-Outcome :
      {A : Type 0} (s : ControlPlane) (g : ControlPlane → A)
      (k : A → Exec ControlPlane EndpointIdentity)
      → Outcome s (k (g s) s)
      → Outcome s ((gets g >>= k) s)
  unfolding ◌>>=◌
  read-Outcome s g k h = h

  authorize_found-Outcome :
      (s : ControlPlane) (o : Option EndpointIdentity)
      → IsAware at
      → lookup id s.identities ≡ o
      → Outcome s (authorize_found rt id env at action o s)
  unfolding authorize_found
  authorize_found-Outcome s none a l =
      reject-Outcome s a _ _ authorization_error (λ i h. cc (h.known))
  authorize_found-Outcome s (some j) a l =
      guard-Outcome s a _ _ _ _ _ (λ t i h. ground (arith, h.known, h.not_revoked))
        λ active.
          guard-Outcome s a _ _ _ _ _ (λ t i h. ground (arith, h.known, h.bound))
            λ bound.
              guard-Outcome s a _ _ _ _ _ (λ t i h. ground (arith, h.not_early))
                λ soon.
                  guard-Outcome s a _ _ _ _ _ (λ t i h. ground (arith, h.not_late))
                    λ live. read-Outcome s _ _ (
                      guard-Outcome s a _ _ _ _ _ (λ t i h. cc (t, h.fresh))
                        λ fresh. read-Outcome s _ _ (
                          guard-Outcome s a _ _ _ _ _ (λ t i h. h.ahead (ground arith))
                            λ ahead. admitted (record {
                              aware_receipt = a;
                              known = l;
                              not_revoked = ground arith;
                              bound = ground arith;
                              not_early = ground arith;
                              not_late = ground arith;
                              fresh = fresh;
                              ahead = λ le. ground arith;
                            })))

  -- `_authorize_message` returns an identity exactly when the message is admissible under it, and
  -- then changes nothing; otherwise it raises, after writing one rejection to the audit log, or, if
  -- the time of receipt has no timezone, nothing at all.
  pub authorize_message-Outcome :
      (s : ControlPlane) → Outcome s (authorize_message rt id env at action s)
  unfolding authorize_message ◌>>=◌
  authorize_message-Outcome s = elim (require_aware-cases at "received_at") [
    | inl (is_aware, passed) ↦ rw passed (authorize_found-Outcome s _ is_aware refl)
    | inr (not_aware, e, raised) ↦ rw raised (
        refused (λ i h. not_aware h.aware_receipt) (λ is_aware. absurd (not_aware is_aware))
          (λ _. refl))
  ]
