-- ===== src/Domain/Facts.antt =====
-- Observations and audit events of src/northgate_rmm/domain.py.
use northgate_rmm.Prelude.{not, Option, none, some, List, String, ℤ}
use northgate_rmm.Prelude.Text.{codes, is_hex64}
use northgate_rmm.Prelude.Result.{Result, ok, validation_error, raise_if, ◌>>◌}
use northgate_rmm.Domain.Time.{Datetime, require_aware}
use northgate_rmm.Domain.Identity.{Uuid}

pub record Observation : Type 0 where
  pub observation_id : Uuid
  pub endpoint_id : Uuid
  pub message_id : Uuid
  pub observation_type : String
  pub schema_version : ℤ
  pub source_time : Datetime
  pub received_at : Datetime
  pub boot_id : Uuid
  pub sequence : ℤ
  pub payload_digest : String
  pub encoded_message_digest : Option String

encoded_digest : Option String → Result (Unit {0})
encoded_digest none = ok tt
encoded_digest (some s) =
    raise_if (not (is_hex64 (codes s)))
      (validation_error "encoded_message_digest must be a lowercase SHA-256 value")

-- `Observation.__post_init__`
unfoldable pub observation : Observation → Result Observation
unfolding encoded_digest require_aware
observation o = do
  require_aware o.source_time "source_time"
  require_aware o.received_at "received_at"
  raise_if (not (is_hex64 (codes o.payload_digest)))
      (validation_error "payload_digest must be a lowercase SHA-256 value")
  encoded_digest o.encoded_message_digest
  ok o

pub record AuditEvent : Type 0 where
  pub event_id : Uuid
  pub server_time : Datetime
  pub actor_type : String
  pub actor_id : String
  pub subject : String
  pub action : String
  pub decision : String
  pub reason : String
  pub correlation_id : Uuid
  pub metadata : List (String × String)
