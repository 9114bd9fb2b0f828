-- ===== src/ControlPlane/Freshness.antt =====
-- The health that `endpoint_status` of src/northgate_rmm/control_plane.py derives.
use northgate_rmm.Prelude.{ℕ, ◌+◌, ◌≤◌, ◌<◌, ◌-◌, ◌≡◌, Option, none, some, arith, pos, nat_eq, ◌↔◌}
use northgate_rmm.Prelude.Int.{sub_ℕ, max_ℤ}
use northgate_rmm.Prelude.Result.{ok}
use northgate_rmm.Domain.{
  Datetime, instant, EndpointHealth, online, stale, offline, FreshnessPolicy, freshness_policy,
}
use northgate_rmm.ControlPlane.{ControlPlane, derive_health}

-- Online, stale and offline, from best to worst.
abbrev pub rank : EndpointHealth → ℕ
rank online = 0
rank stale = 1
rank offline = 2

-- The age of a heartbeat, which is none before it was sent.
age_lem : (a b : ℕ) → max_ℤ (sub_ℕ a b) (pos 0) ≡ pos (a - b)
age_lem a b = ground arith

module _ (policy : FreshnessPolicy) (valid : freshness_policy policy ≡ ok policy) where
  -- Under a policy that passed its checks, the health never improves without a new heartbeat.
  pub derive_health-degrades :
      (now later : Datetime) (last : Option Datetime)
      → instant now ≤ instant later
      → rank (derive_health policy now last) ≤ rank (derive_health policy later last)
  unfolding derive_health freshness_policy
  derive_health-degrades now later none le = omega arith
  derive_health-degrades now later (some last) le =
      rw (age_lem (instant now) (instant last), age_lem (instant later) (instant last))
        (ground arith)

  -- Under a policy that passed its checks, an endpoint is online exactly while its last heartbeat
  -- is no older than `online_for`, and offline exactly once it is older than `stale_for`; a
  -- heartbeat from the future counts as new.
  pub derive_health_iff :
      (now last : Datetime) (a b : ℕ)
      → policy.online_for ≡ pos a
      → policy.stale_for ≡ pos b
      → ((derive_health policy now (some last) ≡ online) ↔ (instant now ≤ instant last + a))
        × ((derive_health policy now (some last) ≡ offline) ↔ (instant last + b < instant now))
  unfolding derive_health freshness_policy
  derive_health_iff now last a b pa pb =
      rw (age_lem (instant now) (instant last), pa, pb)
        (let order : a < b = (let v = rw (pa, pb) at valid in ground arith) in
          ((λ h. ground arith, λ h. ground arith), (λ h. ground arith, λ h. ground arith)))
