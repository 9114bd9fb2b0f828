-- ===== src/Json.antt =====
-- JSON values of src/northgate_rmm/codec.py and domain.py, and the compact text that
-- `json.dumps(value, ensure_ascii=True, separators=(",", ":"))` writes for them: the text of digests
-- and of response bodies. A text is the list of its bytes.
pub mod Escape
use northgate_rmm.Prelude.{
  ℕ, ◌++◌, ◌≡◌, refl, List, [], ◌∷◌, Bool, true, false, String, ℤ, pos, if◌then◌else◌,
}
use northgate_rmm.Prelude.Text.{codes, str_leb, int_str}
use northgate_rmm.Json.Escape.{escape}

-- A float is held as the text that it was written with: no field of the program takes one.
mutual
  pub data Json : Type 0 where
    null : Json
    bool : Bool → Json
    int : ℤ → Json
    float : String → Json
    str : String → Json
    arr : Items → Json
    obj : Fields → Json

  pub data Items : Type 0 where
    nil : Items
    cons : Json → Items → Items

  pub data Fields : Type 0 where
    end : Fields
    field : String → Json → Fields → Fields

-- Insertion into fields that are in order of their names.
insert_field : String → Json → Fields → Fields
insert_field k v end = field k v end
insert_field k v (field j w fs) =
    let rest = insert_field k v fs in
    if str_leb k j then field k v (field j w fs) else field j w rest

-- `sort_keys=True`, at every depth
unfoldable mutual
  unfolding insert_field

  pub sort_keys : Json → Json
  sort_keys null = null
  sort_keys (bool b) = bool b
  sort_keys (int n) = int n
  sort_keys (float s) = float s
  sort_keys (str s) = str s
  sort_keys (arr xs) = arr (sort_items xs)
  sort_keys (obj fs) = obj (sort_fields fs)

  pub sort_items : Items → Items
  sort_items nil = nil
  sort_items (cons x xs) = cons (sort_keys x) (sort_items xs)

  pub sort_fields : Fields → Fields
  sort_fields end = end
  sort_fields (field k v fs) = insert_field k (sort_keys v) (sort_fields fs)

quoted : String → List ℕ
quoted s = b'"' ∷ escape (codes s) ++ b'"' ∷ []

-- `,` between two parts
joined : List ℕ → List ℕ → List ℕ
joined part [] = part
joined part (c ∷ rest) = part ++ b',' ∷ c ∷ rest

unfoldable mutual
  unfolding quoted joined

  pub dumps : Json → List ℕ
  dumps null = codes "null"
  dumps (bool true) = codes "true"
  dumps (bool false) = codes "false"
  dumps (int n) = codes (int_str n)
  dumps (float s) = codes s
  dumps (str s) = quoted s
  dumps (arr xs) = b'[' ∷ dumps_items xs ++ b']' ∷ []
  dumps (obj fs) = b'{' ∷ dumps_fields fs ++ b'}' ∷ []

  pub dumps_items : Items → List ℕ
  dumps_items nil = []
  dumps_items (cons x xs) = joined (dumps x) (dumps_items xs)

  pub dumps_fields : Fields → List ℕ
  dumps_fields end = []
  dumps_fields (field k v fs) = joined (quoted k ++ b':' ∷ dumps v) (dumps_fields fs)
