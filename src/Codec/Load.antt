-- ===== src/Codec/Load.antt =====
-- What `json.loads` builds with the hooks of src/northgate_rmm/codec.py. The scanner itself is a
-- parameter: it yields the tree of the text, with numbers as they were written and every pair of an
-- object, and the leaf `malformed` where the text stops being JSON or nests too deeply. The hooks
-- are called in the order of the text, an object's after its values.
use northgate_rmm.Prelude.{
  ℕ, ◌+◌, ◌*◌, ◌-◌, ◌^◌, ◌||◌, Bool, List, [], ◌∷◌, String, ℤ, pos, ltb, ◌==◌, string_eq, nat_eq,
  if◌then◌else◌,
}
use northgate_rmm.Prelude.Int.{ltb_ℤ, neg}
use northgate_rmm.Prelude.Lists.{length, member}
use northgate_rmm.Prelude.Text.{codes}
use northgate_rmm.Prelude.Result.{Result, ok, err, validation_error, raise_if, ◌>>=◌, ◌>>◌}
use northgate_rmm.Domain.{max_sequence}
use northgate_rmm.Json.{
  Json, null, bool, int, float, str, arr, obj, Items, nil, cons, Fields, end, field,
}
use Prim.Native.String.{◌++◌ as append}

mutual
  pub data Raw : Type 0 where
    raw_null : Raw
    raw_bool : Bool → Raw
    raw_int : String → Raw
    raw_float : String → Raw
    raw_str : String → Raw
    raw_arr : RawItems → Raw
    raw_obj : RawFields → Raw
    malformed : Raw

  pub data RawItems : Type 0 where
    raw_nil : RawItems
    raw_cons : Raw → RawItems → RawItems

  pub data RawFields : Type 0 where
    raw_end : RawFields
    raw_field : String → Raw → RawFields → RawFields

abbrev pub names : Fields → List String
names end = []
names (field k v fs) = k ∷ names fs

-- The value of decimal digits, most significant first.
unfoldable pub decimal_from : ℕ → List ℕ → ℕ
decimal_from n [] = n
decimal_from n (c ∷ cs) = decimal_from (n * 10 + (c - b'0')) cs

-- `int(raw)` of a JSON integer: decimal digits behind an optional minus
unfoldable pub int_of : List ℕ → ℤ
unfolding decimal_from
int_of [] = pos 0
int_of (c ∷ cs) = if c == b'-' then neg (decimal_from 0 cs) else pos (decimal_from 0 (c ∷ cs))

-- `raw[1:] if raw.startswith("-") else raw`
abbrev pub digits_of : List ℕ → List ℕ
digits_of [] = []
digits_of (c ∷ cs) = if c == b'-' then cs else c ∷ cs

-- `_bounded_json_integer`
unfoldable pub bounded_json_integer : String → Result ℤ
unfolding int_of
bounded_json_integer raw = do
  raise_if (ltb 19 (length (digits_of (codes raw))))
      (validation_error "JSON integer exceeds the supported range")
  let value = int_of (codes raw)
  raise_if (ltb_ℤ value (neg (2 ^ 63)) || ltb_ℤ (pos max_sequence) value)
      (validation_error "JSON integer exceeds the supported range")
  ok value

-- `_unique_object`: `seen` are the names of the pairs before
unfoldable pub unique_object : List String → Fields → Result Fields
unique_object seen end = ok end
unique_object seen (field key value rest) = do
  raise_if (member key seen) (validation_error (append "duplicate JSON field: " key))
  others ← unique_object (key ∷ seen) rest
  ok (field key value others)

unfoldable mutual
  unfolding bounded_json_integer unique_object

  pub load : Raw → Result Json
  load raw_null = ok null
  load (raw_bool b) = ok (bool b)
  load (raw_int raw) = do value ← bounded_json_integer raw; ok (int value)
  load (raw_float s) = ok (float s)
  load (raw_str s) = ok (str s)
  load (raw_arr items) = do values ← load_items items; ok (arr values)
  load (raw_obj fields) = do
    pairs ← load_fields fields
    result ← unique_object [] pairs
    ok (obj result)
  load malformed = err (validation_error "message body is not valid bounded JSON")

  pub load_items : RawItems → Result Items
  load_items raw_nil = ok nil
  load_items (raw_cons item items) = do
    value ← load item
    values ← load_items items
    ok (cons value values)

  pub load_fields : RawFields → Result Fields
  load_fields raw_end = ok end
  load_fields (raw_field key item rest) = do
    value ← load item
    values ← load_fields rest
    ok (field key value values)
