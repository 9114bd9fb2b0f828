-- ===== src/Agent.antt =====
-- src/northgate_rmm/agent_api.py: the HTTP contract of agent messages, over any store.
pub mod Handled
mod Tests
use northgate_rmm.Prelude.{
  ℕ, ◌+◌, ◌&&◌, ◌||◌, Bool, true, false, not, Option, none, some, List, [], ◌∷◌, ◌++◌, String, ltb,
  leb, ◌==◌, string_eq, is_some, if◌then◌else◌,
}
use northgate_rmm.Prelude.Lists.{length}
use northgate_rmm.Prelude.Text.{codes, uuid_str, is_hex64, fullmatch_after}
use northgate_rmm.Prelude.Result.{
  Error, Result, ok, err, validation_error, authorization_error, replay_error,
  service_unavailable_error, not_found_error,
}
use northgate_rmm.Prelude.Exec.{Exec, pure, lift, ◌>>=◌, ◌>>◌}
use northgate_rmm.Domain.{
  Uuid, Datetime, EndpointIdentity, HeartbeatMessage, InventoryMessage, Message, of_heartbeat,
  of_inventory, envelope_of, is_fingerprint,
}
use northgate_rmm.Json.{bool, str, obj, Fields, end, field, dumps}
use northgate_rmm.Codec.{Reader, decode_message, max_encoded_message_bytes}

abbrev pub agent_message_path : String
agent_message_path = "/v1/agent/messages"

pub record VerifiedClientCertificate : Type 0 where
  pub endpoint_id : Uuid
  pub public_key_fingerprint : String

-- `VerifiedClientCertificate.__post_init__`
unfoldable pub verified_client_certificate :
    VerifiedClientCertificate → Result VerifiedClientCertificate
verified_client_certificate c =
    if is_fingerprint c.public_key_fingerprint
    then ok c
    else err (validation_error "client certificate fingerprint is invalid")

pub record AgentMessageRequest : Type 0 where
  pub method : String
  pub path : String
  pub content_type : Option String
  pub content_encoding : Option String
  pub body : List ℕ

pub record AgentMessageResponse : Type 0 where
  pub status : ℕ
  pub headers : List (String × String)
  pub body : List ℕ

-- `AgentMessageStore`, with the state that its methods change
pub record AgentMessageStore (S : Type 0) : Type 0 where
  pub authenticate_endpoint_certificate : Uuid → String → Datetime → Uuid → Exec S EndpointIdentity
  pub ingest_heartbeat : Uuid → HeartbeatMessage → Datetime → Option String → Exec S (Unit {0})
  pub ingest_inventory : Uuid → InventoryMessage → Datetime → Option String → Exec S (Unit {0})

-- `_json_response`
unfoldable pub json_response : ℕ → Fields → AgentMessageResponse
json_response status value = record {
  status = status;
  headers = ("content-type", "application/json") ∷ ("cache-control", "no-store") ∷ [];
  body = dumps (obj value);
}

-- `_error_response`
unfoldable pub error_response : ℕ → String → Option String → AgentMessageResponse
unfolding json_response
error_response status code none = json_response status (field "error" (str code) end)
error_response status code (some allow) =
    let response = json_response status (field "error" (str code) end) in
    record response { headers = response.headers ++ ("allow", allow) ∷ [] }

-- A letter of `s.lower()`. Only the capitals of ASCII become letters of "application/json".
abbrev pub lower : ℕ → ℕ
lower c = if leb b'A' c && leb c b'Z' then c + 32 else c

unfoldable pub same_lower : List ℕ → List ℕ → Bool
same_lower [] [] = true
same_lower [] (d ∷ ds) = false
same_lower (c ∷ cs) [] = false
same_lower (c ∷ cs) (d ∷ ds) = (leb (lower c) d && leb d (lower c)) && same_lower cs ds

-- `content_type is None or content_type.lower() != "application/json"`
unfoldable pub is_other_type : Option String → Bool
is_other_type none = true
is_other_type (some t) = not (same_lower (codes t) (codes "application/json"))

-- The early returns of `handle`.
unfoldable pub screen : AgentMessageRequest → Option AgentMessageResponse
screen request =
    if not (request.path == agent_message_path)
    then some (error_response 404 "not_found" none)
    else if not (request.method == "POST")
    then some (error_response 405 "method_not_allowed" (some "POST"))
    else if is_other_type request.content_type
    then some (error_response 415 "unsupported_media_type" none)
    else if is_some request.content_encoding
    then some (error_response 415 "content_encoding_not_allowed" none)
    else if ltb max_encoded_message_bytes (length request.body)
    then some (error_response 413 "request_too_large" none)
    else none

-- The `except` clauses of `handle`: other errors go on.
unfoldable pub answer : Error → Result AgentMessageResponse
answer (authorization_error m) = ok (error_response 403 "unauthorized" none)
answer (replay_error m) = ok (error_response 409 "message_conflict" none)
answer (validation_error m) = ok (error_response 400 "invalid_message" none)
answer (service_unavailable_error m) = err (service_unavailable_error m)
answer (not_found_error m) = err (not_found_error m)

-- the response to an accepted message
unfoldable pub accepted_response : Message → AgentMessageResponse
accepted_response m = json_response 200 (
    field "message_id" (str (uuid_str (envelope_of m).message_id))
      (field "accepted" (bool true) end))

abbrev pub respond : {S : Type 0} → Result Message × S → Result AgentMessageResponse × S
respond (ok m, s) = (ok (accepted_response m), s)
respond (err e, s) = (answer e, s)

module _ {S : Type 0} (reader : Reader) (sha256_hex : List ℕ → String)
    (store : AgentMessageStore S) where
  -- the `isinstance` test of `handle`
  unfoldable pub ingest : EndpointIdentity → Message → Datetime → String → Exec S (Unit {0})
  ingest identity (of_heartbeat m) received_at digest =
      store.ingest_heartbeat identity.identity_id m received_at (some digest)
  ingest identity (of_inventory m) received_at digest =
      store.ingest_inventory identity.identity_id m received_at (some digest)

  -- the `try` block of `handle`
  unfoldable pub accept :
      AgentMessageRequest → VerifiedClientCertificate → Datetime → Exec S Message
  accept request peer received_at = do
    message ← lift (decode_message reader request.body)
    identity ←
        store.authenticate_endpoint_certificate peer.endpoint_id peer.public_key_fingerprint
          received_at (envelope_of message).correlation_id
    ingest identity message received_at (sha256_hex request.body)
    pure message

  unfoldable pub handle_screened :
      Option AgentMessageResponse
      → AgentMessageRequest
      → VerifiedClientCertificate
      → Datetime
      → Exec S AgentMessageResponse
  handle_screened (some response) request peer received_at s = (ok response, s)
  handle_screened none request peer received_at s = respond (accept request peer received_at s)

  -- `AgentMessageApplication.handle`
  unfoldable pub handle :
      AgentMessageRequest → VerifiedClientCertificate → Datetime → Exec S AgentMessageResponse
  unfolding handle_screened
  handle request peer received_at = handle_screened (screen request) request peer received_at
