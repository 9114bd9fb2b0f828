-- ===== src/Codec/Tests.antt =====
-- A heartbeat that src/northgate_rmm/codec.py decodes.
use northgate_rmm.Prelude.{
  ◌≡◌, refl, ℕ, some, List, [], ◌∷◌, pos, ◌==◌, string_eq, if◌then◌else◌, ◌≤◌, ◌<◌,
}
use northgate_rmm.Prelude.Lists.{length, member}
use northgate_rmm.Prelude.Result.{ok}
use northgate_rmm.Domain.{
  aware, require_aware, message_envelope, heartbeat_payload, Message, of_heartbeat,
}
use northgate_rmm.Json.{Json, obj, field, int, end}
use northgate_rmm.Codec.{
  Raw, raw_int, raw_str, raw_arr, raw_obj, raw_nil, raw_cons, raw_end, raw_field, Reader, load,
  decode_message, decode_value, decode_envelope, decode_heartbeat, exact_keys, item, object, string,
  strings, array, integer, uuid, timestamp, replace_z, unique_object, bounded_json_integer, int_of,
  decimal_from,
}
use northgate_rmm.Codec.Sound.{IsValidMessage, decode_message-IsValidMessage}

abbrev tree : Raw
tree = raw_obj (
    raw_field "type" (raw_str "heartbeat") (
      raw_field "payload"
        (raw_obj (
          raw_field "agent_version" (raw_str "1.0")
            (raw_field "capabilities" (raw_arr (raw_cons (raw_str "inventory") raw_nil)) raw_end)))
        (raw_field "envelope"
          (raw_obj (
            raw_field "message_id" (raw_str "m") (
              raw_field "endpoint_id" (raw_str "e") (
                raw_field "boot_id" (raw_str "b") (
                  raw_field "sequence" (raw_int "12") (
                    raw_field "created_at" (raw_str "0") (
                      raw_field "expires_at" (raw_str "1Z") (
                        raw_field "correlation_id" (raw_str "c")
                          (raw_field "protocol_version" (raw_int "1") raw_end)))))))))
          raw_end)))

abbrev pub reader : Reader
reader = record {
  scan = λ bytes. tree;
  uuid_of =
      λ s. some (if s == "m" then 50 else if s == "e" then 0 else if s == "b" then 70 else 80);
  fromisoformat = λ s. some (aware (if s == "1+00:00" then 60000000 else 0));
  repr = λ names. "";
}

abbrev pub decoded : Message
decoded = of_heartbeat (record {
  envelope = record {
    message_id = 50;
    endpoint_id = 0;
    boot_id = 70;
    sequence = pos 12;
    created_at = aware 0;
    expires_at = aware 60000000;
    correlation_id = 80;
    version = pos 1;
  };
  payload = record { agent_version = "1.0"; capabilities = "inventory" ∷ [] };
})

abbrev body : List ℕ
body = b'{' ∷ []

tree_decodes : decode_message reader body ≡ ok decoded
unfolding decode_message decode_value decode_envelope decode_heartbeat exact_keys item object string
    strings array integer uuid timestamp replace_z load unique_object bounded_json_integer int_of
    decimal_from message_envelope heartbeat_payload require_aware member
tree_decodes = refl

decode_message-IsValidMessage_example :
    (0 < length body) × (length body ≤ 65536) × IsValidMessage decoded
decode_message-IsValidMessage_example =
    decode_message-IsValidMessage reader body decoded tree_decodes

abbrev twelve : Raw
twelve = raw_obj (raw_field "n" (raw_int "12") raw_end)

abbrev loaded : Json
loaded = obj (field "n" (int (pos 12)) end)
