-- ===== src/Agent/Tests.antt =====
-- Requests of src/northgate_rmm/agent_api.py at concrete inputs.
use northgate_rmm.Prelude.{ℕ, suc, ◌≡◌, refl, none, some, [], ◌∷◌}
use northgate_rmm.Prelude.Result.{ok}
use northgate_rmm.Domain.{aware, EndpointIdentity, active}
use northgate_rmm.Agent.{
  AgentMessageRequest, AgentMessageStore, VerifiedClientCertificate, screen, same_lower,
  is_other_type,
}
use northgate_rmm.Agent.Handled.{Handled}

abbrev identity : EndpointIdentity
identity = record {
  identity_id = 1;
  endpoint_id = 0;
  public_key_fingerprint =
      "sha256:bbbbbbbbbbbbbbbbbbbbbbbbbbbbbbbbbbbbbbbbbbbbbbbbbbbbbbbbbbbbbbbb";
  created_at = aware 0;
  status = active;
  revoked_at = none;
  revocation_reason = none;
}

-- A store that accepts every message and counts them.
abbrev counting : AgentMessageStore ℕ
counting = record {
  authenticate_endpoint_certificate =
      λ endpoint_id fingerprint at correlation_id n. (ok identity, n);
  ingest_heartbeat = λ id m at digest n. (ok tt, suc n);
  ingest_inventory = λ id m at digest n. (ok tt, suc n);
}

abbrev request : AgentMessageRequest
request = record {
  method = "POST";
  path = "/v1/agent/messages";
  content_type = some "Application/JSON";
  content_encoding = none;
  body = b'{' ∷ [];
}

abbrev peer : VerifiedClientCertificate
peer = record { endpoint_id = 0; public_key_fingerprint = identity.public_key_fingerprint }

request_passes : screen request ≡ none
unfolding screen is_other_type same_lower
request_passes = refl
