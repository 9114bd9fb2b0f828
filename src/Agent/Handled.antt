-- ===== src/Agent/Handled.antt =====
-- What `AgentMessageApplication.handle` of src/northgate_rmm/agent_api.py answers, by what the store
-- did.
use northgate_rmm.Prelude.{ℕ, ◌≡◌, ◌≤◌, ◌<◌, false, none, List, String}
use northgate_rmm.Prelude.Lists.{length}
use northgate_rmm.Prelude.Result.{Error, Result, ok, err}
use northgate_rmm.Domain.{Datetime, EndpointIdentity, Message, envelope_of}
use northgate_rmm.Codec.{Reader, decode_message}
use northgate_rmm.Agent.{
  agent_message_path, VerifiedClientCertificate, AgentMessageRequest, AgentMessageResponse,
  AgentMessageStore, answer, ingest, is_other_type,
}

-- The request is a POST of JSON of a permitted length on the path of agent messages.
pub record IsProper (r : AgentMessageRequest) : Type 0 where
  pub path : r.path ≡ agent_message_path
  pub method : r.method ≡ "POST"
  pub json : is_other_type r.content_type ≡ false
  pub plain : r.content_encoding ≡ none
  pub short : length r.body ≤ 65536

module _ {S : Type 0} (reader : Reader) (sha256_hex : List ℕ → String) (store : AgentMessageStore S)
    (request : AgentMessageRequest) (peer : VerifiedClientCertificate) (at : Datetime) (s : S) where
  -- The five ways in which a request ends: it is improper, its body is no message, the certificate or
  -- the message is refused by the store, or the message is accepted. Only the last is answered by 200.
  pub data Handled : Result AgentMessageResponse × S → Type 0 where
    improper : {a : AgentMessageResponse} → ¬ IsProper request → 400 < a.status → Handled (ok a, s)
    undecodable :
        {e : Error}
        → IsProper request
        → decode_message reader request.body ≡ err e
        → Handled (answer e, s)
    unauthenticated :
        {m : Message} {e : Error} {t : S}
        → IsProper request
        → decode_message reader request.body ≡ ok m
        → store.authenticate_endpoint_certificate peer.endpoint_id peer.public_key_fingerprint at
            (envelope_of m).correlation_id
            s
          ≡ (err e, t)
        → Handled (answer e, t)
    refused :
        {m : Message} {i : EndpointIdentity} {e : Error} {t u : S}
        → IsProper request
        → decode_message reader request.body ≡ ok m
        → store.authenticate_endpoint_certificate peer.endpoint_id peer.public_key_fingerprint at
            (envelope_of m).correlation_id
            s
          ≡ (ok i, t)
        → ingest reader sha256_hex store i m at (sha256_hex request.body) t ≡ (err e, u)
        → Handled (answer e, u)
    accepted :
        {m : Message} {i : EndpointIdentity} {a : AgentMessageResponse} {t u : S}
        → IsProper request
        → decode_message reader request.body ≡ ok m
        → store.authenticate_endpoint_certificate peer.endpoint_id peer.public_key_fingerprint at
            (envelope_of m).correlation_id
            s
          ≡ (ok i, t)
        → ingest reader sha256_hex store i m at (sha256_hex request.body) t ≡ (ok tt, u)
        → a.status ≡ 200
        → Handled (ok a, u)
