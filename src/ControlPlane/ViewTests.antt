-- ===== src/ControlPlane/ViewTests.antt =====
-- Pages and statuses of the control plane of src/northgate_rmm/control_plane.py at concrete inputs.
use northgate_rmm.Prelude.{
  ℕ, ◌+◌, ◌≤◌, ◌<◌, ◌≡◌, ◌↔◌, refl, none, some, [], ◌∷◌, List, arith, nat_eq, string_eq,
}
use northgate_rmm.Prelude.Result.{ok}
use northgate_rmm.Domain.{
  aware, linux, Endpoint, online, offline, freshness_policy, default_freshness_policy,
}
use northgate_rmm.ControlPlane.{ControlPlane, init, derive_health}
use northgate_rmm.ControlPlane.Freshness.{rank, derive_health-degrades, derive_health_iff}

abbrev machine : ℕ → Endpoint
machine n = record {
  endpoint_id = n;
  display_name = "web";
  platform = linux;
  architecture = "x86_64";
  identity_id = n + 100;
  enrolled_at = aware 0;
  last_receipt_at = none;
  last_heartbeat_at = none;
}

abbrev three : ControlPlane
three = record init { endpoints = (8, machine 8) ∷ (3, machine 3) ∷ (5, machine 5) ∷ [] }

abbrev first : List Endpoint
first = machine 3 ∷ []

default_valid : freshness_policy default_freshness_policy ≡ ok default_freshness_policy
unfolding freshness_policy
default_valid = refl

derive_health-degrades_example :
    rank (derive_health default_freshness_policy (aware 5) (some (aware 3)))
    ≤ rank (derive_health default_freshness_policy (aware 900000000) (some (aware 3)))
derive_health-degrades_example =
    derive_health-degrades default_freshness_policy default_valid (aware 5) (aware 900000000)
      (some (aware 3)) (omega arith)

derive_health_iff_example :
    ((derive_health default_freshness_policy (aware 5) (some (aware 3)) ≡ online)
      ↔ (5 ≤ 3 + 90000000))
    × ((derive_health default_freshness_policy (aware 5) (some (aware 3)) ≡ offline)
        ↔ (3 + 300000000 < 5))
derive_health_iff_example =
    derive_health_iff default_freshness_policy default_valid (aware 5) (aware 3) 90000000 300000000
      refl refl
