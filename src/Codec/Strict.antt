-- ===== src/Codec/Strict.antt =====
-- What the hooks of src/northgate_rmm/codec.py refuse.
use northgate_rmm.Prelude.{◌≡◌, ◌^◌, ◌-◌, false, List, [], ◌∷◌, String, ℤ, pos, arith, string_eq}
use northgate_rmm.Prelude.Int.{◌≤ℤ◌, neg}
use northgate_rmm.Prelude.Lists.{member}
use northgate_rmm.Prelude.Result.{ok, validation_error, bind-inverts, raise_if}
use northgate_rmm.Json.{
  Json, null, bool, int, float, str, arr, obj, Items, nil, cons, Fields, end, field,
}
use Prim.Native.String.{◌++◌ as append}
use northgate_rmm.Codec.{
  Raw, raw_null, raw_bool, raw_int, raw_float, raw_str, raw_arr, raw_obj, malformed, RawItems,
  raw_nil, raw_cons, RawFields, raw_end, raw_field, bounded_json_integer, unique_object, load,
  load_items, load_fields,
}

-- No object of the value has a name twice, and every integer fits 64 signed bits.
unfoldable mutual
  pub IsStrict : Json → Type 0
  IsStrict (int n) = (neg (2 ^ 63) ≤ℤ n) × (n ≤ℤ pos (2 ^ 63 - 1))
  IsStrict (arr xs) = AreStrict xs
  IsStrict (obj fs) = HasStrict [] fs
  IsStrict _ = Unit

  pub AreStrict : Items → Type 0
  AreStrict nil = Unit
  AreStrict (cons x xs) = IsStrict x × AreStrict xs

  -- none of the names is among `seen`, nor any twice
  pub HasStrict : List String → Fields → Type 0
  HasStrict seen end = Unit
  HasStrict seen (field k v fs) = (member k seen ≡ false) × IsStrict v × HasStrict (k ∷ seen) fs

-- Every value is strict; the names are not looked at.
abbrev AllStrict : Fields → Type 0
AllStrict end = Unit
AllStrict (field k v fs) = IsStrict v × AllStrict fs

bounded_json_integer_lem :
    (raw : String) (n : ℤ)
    → bounded_json_integer raw ≡ ok n
    → (neg (2 ^ 63) ≤ℤ n) × (n ≤ℤ pos (2 ^ 63 - 1))
unfolding bounded_json_integer
bounded_json_integer_lem raw n h = ground arith

unique_object_lem :
    (seen : List String) (fs gs : Fields)
    → unique_object seen fs ≡ ok gs
    → AllStrict fs
    → HasStrict seen gs
unfolding unique_object HasStrict
unique_object_lem seen end gs h a = let same : end ≡ gs = cc (h) in rw (← same) tt
unique_object_lem seen (field k v fs) gs h (s, a) =
    let (u, p, h) =
      bind-inverts (raise_if (member k seen) (validation_error (append "duplicate JSON field: " k)))
        _ h in
    let (rest, q, h) = bind-inverts (unique_object (k ∷ seen) fs) _ h in
    let tail = unique_object_lem (k ∷ seen) fs rest q a in
    let same : field k v rest ≡ gs = cc (h) in rw (← same) (ground arith, s, tail)

mutual
  unfolding load IsStrict bounded_json_integer unique_object

  load_lem : (r : Raw) (v : Json) → load r ≡ ok v → IsStrict v
  load_lem raw_null v h = let same : null ≡ v = cc (h) in rw (← same) tt
  load_lem (raw_bool b) v h = let same : bool b ≡ v = cc (h) in rw (← same) tt
  load_lem (raw_int raw) v h =
      let (n, p, h) = bind-inverts (bounded_json_integer raw) _ h in
      let same : int n ≡ v = cc (h) in rw (← same) (bounded_json_integer_lem raw n p)
  load_lem (raw_float s) v h = let same : float s ≡ v = cc (h) in rw (← same) tt
  load_lem (raw_str s) v h = let same : str s ≡ v = cc (h) in rw (← same) tt
  load_lem (raw_arr items) v h =
      let (xs, p, h) = bind-inverts (load_items items) _ h in
      let same : arr xs ≡ v = cc (h) in rw (← same) (load_items_lem items xs p)
  load_lem (raw_obj fields) v h =
      let (fs, p, h) = bind-inverts (load_fields fields) _ h in
      let (gs, q, h) = bind-inverts (unique_object [] fs) _ h in
      let same : obj gs ≡ v = cc (h) in
      rw (← same) (unique_object_lem [] fs gs q (load_fields_lem fields fs p))
  load_lem malformed v h = cc (h)

  load_items_lem : (r : RawItems) (xs : Items) → load_items r ≡ ok xs → AreStrict xs
  load_items_lem raw_nil xs h = let same : nil ≡ xs = cc (h) in rw (← same) tt
  load_items_lem (raw_cons item items) xs h =
      let (y, p, h) = bind-inverts (load item) _ h in
      let (ys, q, h) = bind-inverts (load_items items) _ h in
      let same : cons y ys ≡ xs = cc (h) in
      rw (← same) (load_lem item y p, load_items_lem items ys q)

  load_fields_lem : (r : RawFields) (fs : Fields) → load_fields r ≡ ok fs → AllStrict fs
  load_fields_lem raw_end fs h = let same : end ≡ fs = cc (h) in rw (← same) tt
  load_fields_lem (raw_field key item rest) fs h =
      let (v, p, h) = bind-inverts (load item) _ h in
      let (gs, q, h) = bind-inverts (load_fields rest) _ h in
      let same : field key v gs ≡ fs = cc (h) in
      rw (← same) (load_lem item v p, load_fields_lem rest gs q)
