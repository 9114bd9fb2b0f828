-- ===== src/Domain/Messages.antt =====
-- Envelopes, payloads and messages of src/northgate_rmm/domain.py. SHA-256 is a parameter.
use northgate_rmm.Prelude.{
  ◌≡◌, arith, ℕ, Bool, not, ◌||◌, ◌&&◌, List, [], ◌∷◌, String, ℤ, pos, ltb, eqb, string_eq,
}
use northgate_rmm.Prelude.Int.{leb_ℤ, ltb_ℤ, eqb_ℤ}
use northgate_rmm.Prelude.Lists.{length, any, add}
use northgate_rmm.Prelude.Text.{is_empty, len}
use northgate_rmm.Prelude.Result.{Result, ok, validation_error, raise_if, ◌>>◌}
use northgate_rmm.Json.{
  Json, bool, int, str, arr, obj, Items, nil, cons, Fields, end, field, sort_keys, dumps,
}
use northgate_rmm.Domain.Time.{
  IsAware, IsAware-require_aware, Datetime, require_aware, between, protocol_version, max_sequence,
  max_message_ttl, max_agent_version_length, max_capabilities, max_inventory_fields,
  max_inventory_key_length, max_inventory_value_length,
}
use northgate_rmm.Domain.Identity.{Uuid, Platform, platform_value}

-- `protocol_version` is a field of the class and a constant; the field is `version`.
pub record MessageEnvelope : Type 0 where
  pub message_id : Uuid
  pub endpoint_id : Uuid
  pub boot_id : Uuid
  pub sequence : ℤ
  pub created_at : Datetime
  pub expires_at : Datetime
  pub correlation_id : Uuid
  pub version : ℤ

-- `MessageEnvelope.__post_init__`
unfoldable pub message_envelope : MessageEnvelope → Result MessageEnvelope
message_envelope e = do
  require_aware e.created_at "created_at"
  require_aware e.expires_at "expires_at"
  raise_if (not (eqb_ℤ e.version protocol_version))
      (validation_error "unsupported protocol version")
  raise_if (not (leb_ℤ (pos 1) e.sequence && leb_ℤ e.sequence (pos max_sequence)))
      (validation_error "sequence is outside the supported range")
  raise_if
      (leb_ℤ (between e.expires_at e.created_at) (pos 0)
        || ltb_ℤ (pos max_message_ttl) (between e.expires_at e.created_at))
      (validation_error "message lifetime is invalid")
  ok e

pub message_envelope-IsAware :
    (e : MessageEnvelope) → message_envelope e ≡ ok e → IsAware e.created_at × IsAware e.expires_at
unfolding message_envelope
message_envelope-IsAware e h = (
  IsAware-require_aware e.created_at "created_at" (ground arith),
  IsAware-require_aware e.expires_at "expires_at" (ground arith),
)

pub record HeartbeatPayload : Type 0 where
  pub agent_version : String
  pub capabilities : List String

-- `HeartbeatPayload.__post_init__`
unfoldable pub heartbeat_payload : HeartbeatPayload → Result HeartbeatPayload
heartbeat_payload p = do
  raise_if (is_empty p.agent_version || ltb max_agent_version_length (len p.agent_version))
      (validation_error "agent_version is empty or too long")
  raise_if (ltb max_capabilities (length p.capabilities)) (validation_error "too many capabilities")
  raise_if (any (λ item. is_empty item || ltb 64 (len item)) p.capabilities)
      (validation_error "capability is empty or too long")
  ok p

pub record InventoryPayload : Type 0 where
  pub platform : Platform
  pub architecture : String
  pub fields : List (String × String)
  pub collector_complete : Bool
  pub schema_version : ℤ

-- `{key for key, _value in fields}`
distinct_keys : List (String × String) → List String
distinct_keys [] = []
distinct_keys ((key, value) ∷ rest) = add key (distinct_keys rest)

unfoldable pub field_is_invalid : String × String → Bool
field_is_invalid (key, value) =
    is_empty key
    || ltb max_inventory_key_length (len key)
    || ltb max_inventory_value_length (len value)

-- `InventoryPayload.__post_init__`
unfoldable pub inventory_payload : InventoryPayload → Result InventoryPayload
unfolding distinct_keys add field_is_invalid
inventory_payload p = do
  raise_if (not (eqb_ℤ p.schema_version (pos 1)))
      (validation_error "unsupported inventory schema version")
  raise_if (is_empty p.architecture || ltb 32 (len p.architecture))
      (validation_error "architecture is empty or too long")
  raise_if (ltb max_inventory_fields (length p.fields))
      (validation_error "too many inventory fields")
  raise_if (not (eqb (length (distinct_keys p.fields)) (length p.fields)))
      (validation_error "inventory field names must be unique")
  raise_if (any field_is_invalid p.fields) (validation_error "inventory field is empty or too long")
  ok p

pub record HeartbeatMessage : Type 0 where
  pub envelope : MessageEnvelope
  pub payload : HeartbeatPayload

pub record InventoryMessage : Type 0 where
  pub envelope : MessageEnvelope
  pub payload : InventoryPayload

-- `HeartbeatMessage | InventoryMessage`
pub data Message : Type 0 where
  of_heartbeat : HeartbeatMessage → Message
  of_inventory : InventoryMessage → Message

abbrev pub envelope_of : Message → MessageEnvelope
envelope_of (of_heartbeat m) = m.envelope
envelope_of (of_inventory m) = m.envelope

-- The checks return the record that they were given.
pub message_envelope-eq : (e f : MessageEnvelope) → message_envelope e ≡ ok f → f ≡ e
unfolding message_envelope
message_envelope-eq e f h = ground arith

pub heartbeat_payload-eq : (p q : HeartbeatPayload) → heartbeat_payload p ≡ ok q → q ≡ p
unfolding heartbeat_payload
heartbeat_payload-eq p q h = ground arith

pub inventory_payload-eq : (p q : InventoryPayload) → inventory_payload p ≡ ok q → q ≡ p
unfolding inventory_payload
inventory_payload-eq p q h = ground arith

str_items : List String → Items
str_items [] = nil
str_items (s ∷ rest) = cons (str s) (str_items rest)

-- `dict(self.fields)`: the constructor has refused repeated names
str_fields : List (String × String) → Fields
str_fields [] = end
str_fields ((key, value) ∷ rest) = field key (str value) (str_fields rest)

-- `sha256_hex` is `hashlib.sha256(...).hexdigest()`.
module _ (sha256_hex : List ℕ → String) where
  unfoldable pub canonical_digest : Json → String
  canonical_digest payload = sha256_hex (dumps (sort_keys payload))

  -- `HeartbeatPayload.digest`
  unfoldable pub heartbeat_digest : HeartbeatPayload → String
  unfolding canonical_digest str_items
  heartbeat_digest p = canonical_digest (
      obj (
        field "agent_version" (str p.agent_version)
          (field "capabilities" (arr (str_items p.capabilities)) end)))

  -- `InventoryPayload.digest`
  unfoldable pub inventory_digest : InventoryPayload → String
  unfolding canonical_digest str_fields
  inventory_digest p = canonical_digest (
      obj (
        field "architecture" (str p.architecture) (
          field "collector_complete" (bool p.collector_complete) (
            field "fields" (obj (str_fields p.fields)) (
              field "platform" (str (platform_value p.platform))
                (field "schema_version" (int p.schema_version) end))))))
