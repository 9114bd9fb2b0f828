-- ===== src/Operator/Handler.antt =====
-- `OperatorApplication.handle` of src/northgate_rmm/operator_api.py.
use northgate_rmm.Prelude.{
  ℕ, ◌+◌, ◌&&◌, ◌||◌, Bool, true, not, Option, none, some, [], ◌∷◌, String, pos, ltb, leb, eqb,
  ◌==◌, string_eq, if◌then◌else◌,
}
use northgate_rmm.Prelude.Lists.{length, take}
use northgate_rmm.Prelude.Text.{len, uuid_str, is_empty}
use northgate_rmm.Prelude.Result.{
  Result, ok, err, validation_error, authorization_error, not_found_error,
}
use northgate_rmm.Prelude.Exec.{Exec, pure, raise, ◌>>=◌, ◌>>◌, lift}
use northgate_rmm.Domain.{Uuid, Datetime, require_aware}
use northgate_rmm.Views.{render_endpoint_page, render_endpoint_detail}
use northgate_rmm.Operator.Principal.{
  OperatorPrincipal, OperatorAuthorizationPolicy, authorization_denial,
}
use Prim.Native.String.{◌++◌ as append}
use Prim.Native.Char.{code}
use northgate_rmm.Operator.Answers.{
  max_authorization_header_bytes, max_operator_path_length, operator_endpoint_page_size,
  OperatorRequest, OperatorResponse, OperatorWorld, utf8_len, html, error, endpoint_id_from_path,
  endpoint_page_after, next_cursor, or_unauthorized,
}

module _ {S : Type 0} (w : OperatorWorld S) (policy : OperatorAuthorizationPolicy) where
  -- `OperatorApplication._audit`
  unfoldable pub audit_as :
      OperatorPrincipal → String → String → String → String → Uuid → Datetime → Exec S (Unit {0})
  audit_as principal subject action decision reason correlation_id now =
      w.record_operator_access principal.subject subject action decision reason correlation_id now (
        ("client_id", principal.client_id)
        ∷ ("issuer", principal.issuer)
        ∷ ("session_id", principal.session_id)
        ∷ ("tenant", principal.tenant)
        ∷ [])

  -- the audit of a failed authentication, and its exception
  unfoldable pub fail_authentication : String → Uuid → Datetime → Exec S OperatorPrincipal
  fail_authentication reason correlation_id now = do
    w.record_operator_access "unauthenticated" "operator:endpoint-views" "operator.authenticate"
        "rejected" reason correlation_id now []
    raise (authorization_error "operator authentication failed")

  abbrev pub or_fail : Uuid → Datetime → Result OperatorPrincipal × S → Result OperatorPrincipal × S
  or_fail correlation_id now (ok p, s) = (ok p, s)
  or_fail correlation_id now (err e, s) =
      fail_authentication "external session verification failed" correlation_id now s

  -- `not 1 <= len(encoded) <= 4096`, of a credential with at most 4096 characters; a missing one and one
  -- with more characters are encoded as nothing
  unfoldable pub is_bad_credential : Option String → Bool
  unfolding utf8_len
  is_bad_credential none = true
  is_bad_credential (some a) =
      eqb (len a) 0
      || ltb max_authorization_header_bytes (len a)
      || ltb max_authorization_header_bytes (utf8_len a)

  abbrev text_of : Option String → String
  text_of none = ""
  text_of (some a) = a

  -- `OperatorApplication._authenticate`
  unfoldable pub authenticate : Option String → Datetime → Uuid → Exec S OperatorPrincipal
  authenticate authorization now correlation_id =
      if is_bad_credential authorization
      then fail_authentication "operator credential missing or oversized" correlation_id now
      else λ s. or_fail correlation_id now (w.verify (text_of authorization) now s)

  -- a rejection, audited, with its response
  unfoldable pub turn_away :
      OperatorPrincipal
      → String
      → String
      → String
      → Uuid
      → Datetime
      → ℕ
      → String
      → Exec S OperatorResponse
  turn_away principal subject action reason correlation_id now status code = do
    audit_as principal subject action "rejected" reason correlation_id now
    pure (error status code)

  -- the branch of "/endpoints"
  unfoldable pub list_page :
      OperatorPrincipal → Option Uuid → Uuid → Datetime → Exec S OperatorResponse
  list_page principal after correlation_id now = do
    page ← w.list_endpoint_page after (pos (operator_endpoint_page_size + 1))
    let endpoints = take operator_endpoint_page_size page
    let next_after =
        if ltb operator_endpoint_page_size (length page) then next_cursor endpoints else none
    body ← render_endpoint_page w.isoformat w.reader endpoints next_after now
    audit_as principal "endpoint:collection" "endpoint.list.read" "accepted"
        "authenticated viewer read" correlation_id now
    pure (html body)

  abbrev pub show_rendered :
      OperatorPrincipal → Uuid → Uuid → Datetime → Result String × S → Result OperatorResponse × S
  show_rendered principal endpoint_id correlation_id now (ok body, s) =
      (audit_as principal (append "endpoint:" (uuid_str endpoint_id)) "endpoint.detail.read"
            "accepted" "authenticated viewer read" correlation_id now
          >> pure (html body))
        s
  show_rendered principal endpoint_id correlation_id now (err (not_found_error m), s) =
      turn_away principal (append "endpoint:" (uuid_str endpoint_id)) "endpoint.detail.read"
        "endpoint was not found" correlation_id now 404 "not_found" s
  show_rendered principal endpoint_id correlation_id now (err e, s) = (err e, s)

  -- the branch of one endpoint
  unfoldable pub show_endpoint :
      OperatorPrincipal → Option Uuid → Uuid → Datetime → Exec S OperatorResponse
  show_endpoint principal none correlation_id now =
      turn_away principal "operator:endpoint-views" "operator.request" "operator route not found"
        correlation_id now 404 "not_found"
  show_endpoint principal (some endpoint_id) correlation_id now = λ s.
      show_rendered principal endpoint_id correlation_id now
        (render_endpoint_detail w.isoformat w.reader endpoint_id now s)

  abbrev pub list_or_reject :
      OperatorPrincipal → Uuid → Datetime → Result (Option Uuid) → Exec S OperatorResponse
  list_or_reject principal correlation_id now (ok after) =
      list_page principal after correlation_id now
  list_or_reject principal correlation_id now (err (validation_error m)) =
      turn_away principal "operator:endpoint-views" "operator.request"
        "operator route contract rejected" correlation_id now 404 "not_found"
  list_or_reject principal correlation_id now (err e) = raise e

  -- the routes, of a principal that may read
  unfoldable pub route :
      OperatorRequest → OperatorPrincipal → Uuid → Datetime → Exec S OperatorResponse
  route request principal correlation_id now =
      if not (request.method == "GET")
        || not (leb 1 (len request.path) && leb (len request.path) max_operator_path_length)
        || not (w.isprintable request.path)
      then turn_away principal "operator:endpoint-views" "operator.request"
          "operator route contract rejected" correlation_id now 404 "not_found"
      else if request.path == "/endpoints"
      then list_or_reject principal correlation_id now
          (endpoint_page_after w.uuid_of request.query_string)
      else show_endpoint principal
          (if is_empty request.query_string
            then endpoint_id_from_path w.uuid_of request.path
            else none)
          correlation_id now

  abbrev pub deny_or_route :
      Option String
      → OperatorRequest
      → OperatorPrincipal
      → Uuid
      → Datetime
      → Exec S OperatorResponse
  deny_or_route (some denial) request principal correlation_id now =
      turn_away principal "operator:endpoint-views" "operator.authorize" denial correlation_id now
        403 "forbidden"
  deny_or_route none request principal correlation_id now =
      route request principal correlation_id now

  -- the rest of `handle`, behind authentication
  unfoldable pub serve :
      OperatorRequest → Uuid → Datetime → OperatorPrincipal → Exec S OperatorResponse
  serve request correlation_id now principal = do
    audit_as principal "operator:endpoint-views" "operator.authenticate" "accepted"
        "external session verified" correlation_id now
    deny_or_route (authorization_denial policy principal now) request principal correlation_id now

  -- `OperatorApplication.handle`
  unfoldable pub handle : OperatorRequest → Datetime → Exec S OperatorResponse
  handle request received_at = do
    lift (require_aware received_at "received_at")
    correlation_id ← w.uuid4
    λ s.
        or_unauthorized (serve request correlation_id received_at)
          (authenticate request.authorization received_at correlation_id s)
