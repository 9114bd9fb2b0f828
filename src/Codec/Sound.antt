-- ===== src/Codec/Sound.antt =====
-- What `decode_message` of src/northgate_rmm/codec.py guarantees of the messages that it returns.
use northgate_rmm.Prelude.{
  ℕ, ◌≡◌, ap, ◌∙◌, ◌≤◌, ◌<◌, true, false, Bool, List, arith, string_eq, nat_eq, ◌==◌, if◌then◌else◌,
  ltb,
}
use northgate_rmm.Prelude.Lists.{length}
use northgate_rmm.Prelude.Sort.{sort_by, pair_leb}
use northgate_rmm.Prelude.Result.{Result, ok, validation_error, bind-inverts, raise_if}
use northgate_rmm.Domain.{
  MessageEnvelope, message_envelope, message_envelope-eq, heartbeat_payload, heartbeat_payload-eq,
  inventory_payload, inventory_payload-eq, Message, of_heartbeat, of_inventory, envelope_of,
}
use northgate_rmm.Json.{Json, Fields}
use northgate_rmm.Codec.{
  max_encoded_message_bytes, Reader, exact_keys, uuid, timestamp, integer, string, strings, array,
  object, boolean, platform, string_fields, item, message_keys, envelope_keys, heartbeat_keys,
  inventory_keys, decode_envelope, decode_heartbeat, decode_inventory, decode_value, decode_message,
  load,
}

-- The payload has passed the checks of its class.
abbrev pub HasValidPayload : Message → Type 0
HasValidPayload (of_heartbeat m) = heartbeat_payload m.payload ≡ ok m.payload
HasValidPayload (of_inventory m) = inventory_payload m.payload ≡ ok m.payload

pub record IsValidMessage (m : Message) : Type 0 where
  pub envelope : message_envelope (envelope_of m) ≡ ok (envelope_of m)
  pub payload : HasValidPayload m

returned :
    {x m : Message} → IsValidMessage x → ◌≡◌ {A = Result Message} (ok x) (ok m) → IsValidMessage m
returned {x} {m} v h = let same : x ≡ m = cc (h) in rw (← same) v

-- A check that returns what it was given passes what it returned.
again :
    {A : Type 0} {check : A → Result A}
    → ((x y : A) → check x ≡ ok y → y ≡ x)
    → {x y : A} → check x ≡ ok y
    → check y ≡ ok y
again same {x} {y} h = rw (same x y h) (h ∙ ap ok (same x y h))

either :
    {P : Type 0} {a b c : Result Message} {m : Message} (t u : Bool)
    → (a ≡ ok m → P)
    → (b ≡ ok m → P)
    → (c ≡ ok m → P)
    → (if t then a else if u then b else c) ≡ ok m
    → P
either true u f g k h = f h
either false true f g k h = g h
either false false f g k h = k h

module _ (reader : Reader) where
  decode_envelope-valid :
      (fs : Fields) (e : MessageEnvelope)
      → decode_envelope reader fs ≡ ok e
      → message_envelope e ≡ ok e
  unfolding decode_envelope
  decode_envelope-valid fs e h =
      let (u, p, h) = bind-inverts (exact_keys reader fs envelope_keys "envelope") _ h in
      let (m, p, h) = bind-inverts (uuid reader (item "message_id" fs) "message_id") _ h in
      let (i, p, h) = bind-inverts (uuid reader (item "endpoint_id" fs) "endpoint_id") _ h in
      let (b, p, h) = bind-inverts (uuid reader (item "boot_id" fs) "boot_id") _ h in
      let (n, p, h) = bind-inverts (integer (item "sequence" fs) "sequence") _ h in
      let (c, p, h) = bind-inverts (timestamp reader (item "created_at" fs) "created_at") _ h in
      let (x, p, h) = bind-inverts (timestamp reader (item "expires_at" fs) "expires_at") _ h in
      let (r, p, h) = bind-inverts (uuid reader (item "correlation_id" fs) "correlation_id") _ h in
      let (v, p, h) = bind-inverts (integer (item "protocol_version" fs) "protocol_version") _ h in
      again message_envelope-eq h

  decode_heartbeat-valid :
      (e : MessageEnvelope) (fs : Fields) (m : Message)
      → message_envelope e ≡ ok e
      → decode_heartbeat reader e fs ≡ ok m
      → IsValidMessage m
  unfolding decode_heartbeat
  decode_heartbeat-valid e fs m v h =
      let (u, p, h) = bind-inverts (exact_keys reader fs heartbeat_keys "heartbeat payload") _ h in
      let (c, p, h) =
        bind-inverts (array (item "capabilities" fs) "capabilities must be an array") _ h in
      let (cs, p, h) = bind-inverts (strings c "capability") _ h in
      let (a, p, h) = bind-inverts (string (item "agent_version" fs) "agent_version") _ h in
      let (q, p, h) =
        bind-inverts (heartbeat_payload (record { agent_version = a; capabilities = cs })) _ h in
      returned (record { envelope = v; payload = again heartbeat_payload-eq p }) h

  decode_inventory-valid :
      (e : MessageEnvelope) (fs : Fields) (m : Message)
      → message_envelope e ≡ ok e
      → decode_inventory reader e fs ≡ ok m
      → IsValidMessage m
  unfolding decode_inventory
  decode_inventory-valid e fs m v h =
      let (u, p, h) = bind-inverts (exact_keys reader fs inventory_keys "inventory payload") _ h in
      let (o, p, h) = bind-inverts (object (item "fields" fs) "fields") _ h in
      let (l, p, h) = bind-inverts (string_fields o "inventory value") _ h in
      let (c, p, h) =
        bind-inverts (boolean (item "collector_complete" fs) "collector_complete must be a boolean")
          _ h in
      let (f, p, h) = bind-inverts (platform (item "platform" fs)) _ h in
      let (a, p, h) = bind-inverts (string (item "architecture" fs) "architecture") _ h in
      let (n, p, h) = bind-inverts (integer (item "schema_version" fs) "schema_version") _ h in
      let (q, p, h) =
        bind-inverts
          (inventory_payload (record {
            platform = f;
            architecture = a;
            fields = sort_by pair_leb l;
            collector_complete = c;
            schema_version = n;
          }))
          _ h in
      returned (record { envelope = v; payload = again inventory_payload-eq p }) h

  decode_value-valid :
      (value : Json) (m : Message) → decode_value reader value ≡ ok m → IsValidMessage m
  unfolding decode_value
  decode_value-valid value m h =
      let (root, p, h) = bind-inverts (object value "message") _ h in
      let (u, p, h) = bind-inverts (exact_keys reader root message_keys "message") _ h in
      let (t, p, h) = bind-inverts (string (item "type" root) "type") _ h in
      let (o, p, h) = bind-inverts (object (item "envelope" root) "envelope") _ h in
      let (e, p, h) = bind-inverts (decode_envelope reader o) _ h in
      let v = decode_envelope-valid o e p in
      let (f, p, h) = bind-inverts (object (item "payload" root) "payload") _ h in
      either (t == "heartbeat") (t == "inventory") (decode_heartbeat-valid e f m v)
        (decode_inventory-valid e f m v) (λ never. absurd (cc (never))) h

  -- A message that `decode_message` returns came from a body of between 1 and 65536 bytes, and its
  -- envelope and payload have passed the checks of their classes.
  pub decode_message-IsValidMessage :
      (raw : List ℕ) (m : Message)
      → decode_message reader raw ≡ ok m
      → (0 < length raw) × (length raw ≤ 65536) × IsValidMessage m
  unfolding decode_message
  decode_message-IsValidMessage raw m h =
      let (u, p, h) =
        bind-inverts (raise_if (length raw == 0) (validation_error "message body is empty")) _ h in
      let (w, q, h) =
        bind-inverts
          (raise_if (ltb max_encoded_message_bytes (length raw))
            (validation_error "message body exceeds the encoded size limit"))
          _ h in
      let (value, r, h) = bind-inverts (load (reader.scan raw)) _ h in
      (ground arith, ground arith, decode_value-valid value m h)
