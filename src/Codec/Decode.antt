-- ===== src/Codec/Decode.antt =====
-- `decode_message` of src/northgate_rmm/codec.py, on the value that `json.loads` returns.
use northgate_rmm.Prelude.{
  ℕ, ◌&&◌, Bool, not, Option, none, some, List, [], ◌∷◌, String, ℤ, ltb, ◌==◌, string_eq, nat_eq,
  if◌then◌else◌,
}
use northgate_rmm.Prelude.Lists.{length, all, member, keep_if}
use northgate_rmm.Prelude.Sort.{sort_by, pair_leb}
use northgate_rmm.Prelude.Text.{str_leb}
use northgate_rmm.Prelude.Result.{Result, ok, err, validation_error, raise_if, ◌>>=◌, ◌>>◌}
use northgate_rmm.Domain.{
  Uuid, Datetime, Platform, linux, windows, MessageEnvelope, message_envelope, heartbeat_payload,
  inventory_payload, Message, of_heartbeat, of_inventory,
}
use northgate_rmm.Json.{Json, null, bool, int, str, arr, obj, Items, nil, cons, Fields, end, field}
use northgate_rmm.Codec.Load.{Raw, load, names}
use Prim.Native.String.{◌++◌ as append}
use Prim.Native.Char.{code}

abbrev pub max_encoded_message_bytes : ℕ
max_encoded_message_bytes = 65536

-- What the decoder calls of the standard library: the UTF-8 decoding and scanning of `json.loads`,
-- `UUID(text)` and `datetime.fromisoformat(text)`, which raise ValueError for `none`, and the text
-- of a list of strings in an f-string.
pub record Reader : Type 0 where
  pub scan : List ℕ → Raw
  pub uuid_of : String → Option Uuid
  pub fromisoformat : String → Option Datetime
  pub repr : List String → String

-- `value[key]`, of a key that is there
unfoldable pub item : String → Fields → Json
item key end = null
item key (field j v fs) = let rest = item key fs in if j == key then v else rest

-- `_object`
unfoldable pub object : Json → String → Result Fields
object (obj fs) field_name = ok fs
object _ field_name = err (validation_error (append field_name " must be an object"))

-- `_string`
unfoldable pub string : Json → String → Result String
string (str s) field_name = ok s
string _ field_name = err (validation_error (append field_name " must be a string"))

-- `_integer`
unfoldable pub integer : Json → String → Result ℤ
integer (int n) field_name = ok n
integer _ field_name = err (validation_error (append field_name " must be an integer"))

or_raise : {A : Type 0} → Option A → String → Result A
or_raise (some a) message = ok a
or_raise none message = err (validation_error message)

-- `_platform`
unfoldable pub platform : Json → Result Platform
unfolding string
platform value = do
  name ← string value "platform"
  if name == "linux"
      then ok linux
      else if name == "windows"
      then ok windows
      else err (validation_error "platform is unsupported")

-- `raw.replace("Z", "+00:00")`
unfoldable pub replace_z : String → String
replace_z String.[] = String.[]
replace_z (String.◌∷◌ c s) =
    let rest = replace_z s in if code c == b'Z' then append "+00:00" rest else String.◌∷◌ c rest

-- `tuple(_string(item, name) for item in items)`
unfoldable pub strings : Items → String → Result (List String)
unfolding string
strings nil field_name = ok []
strings (cons x xs) field_name = do
  s ← string x field_name
  rest ← strings xs field_name
  ok (s ∷ rest)

-- the items of an object, each value a string
unfoldable pub string_fields : Fields → String → Result (List (String × String))
unfolding string
string_fields end field_name = ok []
string_fields (field key v fs) field_name = do
  s ← string v field_name
  rest ← string_fields fs field_name
  ok ((key, s) ∷ rest)

-- `isinstance(value, list)`
unfoldable pub array : Json → String → Result Items
array (arr xs) message = ok xs
array _ message = err (validation_error message)

-- `type(value) is bool`
unfoldable pub boolean : Json → String → Result Bool
boolean (bool b) message = ok b
boolean _ message = err (validation_error message)

abbrev pub subset : List String → List String → Bool
subset xs ys = all (λ x. member x ys) xs

abbrev pub message_keys : List String
message_keys = "type" ∷ "envelope" ∷ "payload" ∷ []

abbrev pub envelope_keys : List String
envelope_keys =
    "message_id" ∷ "endpoint_id" ∷ "boot_id" ∷ "sequence" ∷ "created_at" ∷ "expires_at"
    ∷ "correlation_id" ∷ "protocol_version" ∷ []

abbrev pub heartbeat_keys : List String
heartbeat_keys = "agent_version" ∷ "capabilities" ∷ []

abbrev pub inventory_keys : List String
inventory_keys =
    "platform" ∷ "architecture" ∷ "fields" ∷ "collector_complete" ∷ "schema_version" ∷ []

module _ (reader : Reader) where
  -- `_exact_keys`
  unfoldable pub exact_keys : Fields → List String → String → Result (Unit {0})
  exact_keys value expected field_name =
      let actual = names value in
      raise_if (not (subset actual expected && subset expected actual)) (
        validation_error (
          append field_name (
            append " fields do not match schema; missing=" (
              append (reader.repr (sort_by str_leb (keep_if (λ x. not (member x actual)) expected)))
                (append ", unknown=" (
                  reader.repr
                    (sort_by str_leb (keep_if (λ x. not (member x expected)) actual))))))))

  -- `_uuid`
  unfoldable pub uuid : Json → String → Result Uuid
  unfolding string or_raise
  uuid value field_name = do
    raw ← string value field_name
    or_raise (reader.uuid_of raw) (append field_name " must be a UUID")

  -- `_timestamp`
  unfoldable pub timestamp : Json → String → Result Datetime
  unfolding string or_raise replace_z
  timestamp value field_name = do
    raw ← string value field_name
    or_raise (reader.fromisoformat (replace_z raw))
        (append field_name " must be an ISO 8601 timestamp")

  -- `_decode_envelope`
  unfoldable pub decode_envelope : Fields → Result MessageEnvelope
  decode_envelope value = do
    exact_keys value envelope_keys "envelope"
    message_id ← uuid (item "message_id" value) "message_id"
    endpoint_id ← uuid (item "endpoint_id" value) "endpoint_id"
    boot_id ← uuid (item "boot_id" value) "boot_id"
    sequence ← integer (item "sequence" value) "sequence"
    created_at ← timestamp (item "created_at" value) "created_at"
    expires_at ← timestamp (item "expires_at" value) "expires_at"
    correlation_id ← uuid (item "correlation_id" value) "correlation_id"
    version ← integer (item "protocol_version" value) "protocol_version"
    message_envelope (record {
      message_id = message_id;
      endpoint_id = endpoint_id;
      boot_id = boot_id;
      sequence = sequence;
      created_at = created_at;
      expires_at = expires_at;
      correlation_id = correlation_id;
      version = version;
    })

  -- the branch of a heartbeat
  unfoldable pub decode_heartbeat : MessageEnvelope → Fields → Result Message
  decode_heartbeat envelope payload = do
    exact_keys payload heartbeat_keys "heartbeat payload"
    capabilities_value ← array (item "capabilities" payload) "capabilities must be an array"
    capabilities ← strings capabilities_value "capability"
    agent_version ← string (item "agent_version" payload) "agent_version"
    checked ←
        heartbeat_payload (record { agent_version = agent_version; capabilities = capabilities })
    ok (of_heartbeat (record { envelope = envelope; payload = checked }))

  -- the branch of an inventory
  unfoldable pub decode_inventory : MessageEnvelope → Fields → Result Message
  decode_inventory envelope payload = do
    exact_keys payload inventory_keys "inventory payload"
    fields_object ← object (item "fields" payload) "fields"
    unsorted ← string_fields fields_object "inventory value"
    collector_complete ←
        boolean (item "collector_complete" payload) "collector_complete must be a boolean"
    platform ← platform (item "platform" payload)
    architecture ← string (item "architecture" payload) "architecture"
    schema_version ← integer (item "schema_version" payload) "schema_version"
    checked ← inventory_payload (record {
      platform = platform;
      architecture = architecture;
      fields = sort_by pair_leb unsorted;
      collector_complete = collector_complete;
      schema_version = schema_version;
    })
    ok (of_inventory (record { envelope = envelope; payload = checked }))

  -- `decode_message` behind the JSON decoder
  unfoldable pub decode_value : Json → Result Message
  unfolding decode_heartbeat decode_inventory decode_envelope
  decode_value value = do
    root ← object value "message"
    exact_keys root message_keys "message"
    message_type ← string (item "type" root) "type"
    envelope_object ← object (item "envelope" root) "envelope"
    envelope ← decode_envelope envelope_object
    payload ← object (item "payload" root) "payload"
    if message_type == "heartbeat"
        then decode_heartbeat envelope payload
        else if message_type == "inventory"
        then decode_inventory envelope payload
        else err (validation_error "unsupported message type")

  -- `decode_message`
  unfoldable pub decode_message : List ℕ → Result Message
  unfolding decode_value
  decode_message raw = do
    raise_if (length raw == 0) (validation_error "message body is empty")
    raise_if (ltb max_encoded_message_bytes (length raw))
        (validation_error "message body exceeds the encoded size limit")
    value ← load (reader.scan raw)
    decode_value value
