-- ===== src/Operator/Answers.antt =====
-- Requests, answers and the parsing of paths and cursors of src/northgate_rmm/operator_api.py.
use northgate_rmm.Prelude.{
  ℕ, ◌+◌, Bool, Option, none, some, List, [], ◌∷◌, ◌++◌, String, ℤ, ltb, eqb, ◌==◌, string_eq,
  if◌then◌else◌,
}
use northgate_rmm.Prelude.Text.{uuid_str, is_empty}
use northgate_rmm.Prelude.Result.{Result, ok, err, validation_error, authorization_error}
use northgate_rmm.Prelude.Exec.{Exec}
use northgate_rmm.Domain.{Uuid, Datetime, Endpoint}
use northgate_rmm.Views.{EndpointReader}
use northgate_rmm.Operator.Principal.{OperatorPrincipal}
use Prim.Native.String.{◌++◌ as append}
use Prim.Native.Char.{code}

abbrev pub max_authorization_header_bytes : ℕ
max_authorization_header_bytes = 4096

abbrev pub max_operator_path_length : ℕ
max_operator_path_length = 256

abbrev pub operator_endpoint_page_size : ℕ
operator_endpoint_page_size = 100

pub record OperatorRequest : Type 0 where
  pub method : String
  pub path : String
  pub authorization : Option String
  pub query_string : String

pub record OperatorResponse : Type 0 where
  pub status : ℕ
  pub headers : List (String × String)
  pub body : String

-- `OperatorStore` and `OperatorSessionVerifier`, with the state that their methods change, and the
-- parts of the standard library that the module calls.
pub record OperatorWorld (S : Type 0) : Type 1 where
  pub reader : EndpointReader S
  pub list_endpoint_page : Option Uuid → ℤ → Exec S (List Endpoint)
  pub record_operator_access :
      String
      → String
      → String
      → String
      → String
      → Uuid
      → Datetime
      → List (String × String)
      → Exec S (Unit {0})
  pub verify : String → Datetime → Exec S OperatorPrincipal
  pub uuid4 : Exec S Uuid
  pub uuid_of : String → Option Uuid
  pub isprintable : String → Bool
  pub isoformat : Datetime → String

-- `len(s.encode("utf-8"))`
unfoldable pub utf8_len : String → ℕ
utf8_len String.[] = 0
utf8_len (String.◌∷◌ c s) =
    let rest = utf8_len s in
    (if ltb (code c) 128
      then 1
      else if ltb (code c) 2048
      then 2
      else if ltb (code c) 65536
      then 3
      else 4)
    + rest

-- `s.removeprefix(prefix)` of a text that starts with it
unfoldable pub strip_prefix : String → String → Option String
strip_prefix String.[] s = some s
strip_prefix (String.◌∷◌ p ps) String.[] = none
strip_prefix (String.◌∷◌ p ps) (String.◌∷◌ c s) =
    let rest = strip_prefix ps s in if eqb (code p) (code c) then rest else none

-- `_headers`
unfoldable pub headers : String → List (String × String)
headers content_type =
    ("content-type", content_type)
    ∷ ("cache-control", "no-store")
    ∷ (
      "content-security-policy",
      "default-src 'none'; frame-ancestors 'none'; base-uri 'none'; form-action 'none'",
    )
    ∷ ("referrer-policy", "no-referrer")
    ∷ ("x-content-type-options", "nosniff")
    ∷ []

-- `_html`
unfoldable pub html : String → OperatorResponse
unfolding headers
html body = record { status = 200; headers = headers "text/html; charset=utf-8"; body = body }

-- `_error`
unfoldable pub error : ℕ → String → OperatorResponse
unfolding headers
error status code = record {
  status = status;
  headers =
      if eqb status 401
      then headers "application/json" ++ ("www-authenticate", "Bearer") ∷ []
      else headers "application/json";
  body = append "{\"error\":\"" (append code "\"}");
}

-- A UUID in the one text that `str` gives it.
abbrev pub canonical : (String → Option Uuid) → String → Option Uuid
canonical uuid_of value = elim (uuid_of value) [
  | none ↦ none
  | some u ↦ if uuid_str u == value then some u else none
]

-- `_endpoint_id_from_path`
unfoldable pub endpoint_id_from_path : (String → Option Uuid) → String → Option Uuid
unfolding strip_prefix
endpoint_id_from_path uuid_of path = elim (strip_prefix "/endpoints/" path) [
  | none ↦ none
  | some value ↦ canonical uuid_of value
]

abbrev or_invalid : Option Uuid → Result (Option Uuid)
or_invalid none = err (validation_error "operator page cursor is invalid")
or_invalid (some u) = ok (some u)

-- `_endpoint_page_after`
unfoldable pub endpoint_page_after : (String → Option Uuid) → String → Result (Option Uuid)
unfolding strip_prefix
endpoint_page_after uuid_of query_string =
    if is_empty query_string then ok none else elim (strip_prefix "after=" query_string) [
      | none ↦ err (validation_error "operator page cursor is invalid")
      | some value ↦ or_invalid (canonical uuid_of value)
    ]

-- the last endpoint's ID of a page that has more behind it
unfoldable pub next_cursor : List Endpoint → Option Uuid
next_cursor [] = none
next_cursor (e ∷ []) = some e.endpoint_id
next_cursor (e ∷ f ∷ es) = next_cursor (f ∷ es)

-- `except AuthorizationError: return r`
abbrev pub or_unauthorized :
    {S A : Type 0} → (A → Exec S OperatorResponse) → Result A × S → Result OperatorResponse × S
or_unauthorized go (ok a, s) = go a s
or_unauthorized go (err (authorization_error m), s) = (ok (error 401 "unauthorized"), s)
or_unauthorized go (err e, s) = (err e, s)
