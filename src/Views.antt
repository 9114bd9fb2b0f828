-- ===== src/Views.antt =====
-- src/northgate_rmm/views.py: the HTML of the endpoint views, over any reader of endpoints.
-- `datetime.isoformat` is a parameter.
pub mod Safe
mod Tests
use northgate_rmm.Prelude.{
  ℕ, ◌≡◌, refl, Option, none, some, List, [], ◌∷◌, String, get_or, eqb, if◌then◌else◌,
}
use northgate_rmm.Prelude.Text.{uuid_str, concat}
use northgate_rmm.Prelude.Exec.{Exec, pure, ◌>>=◌}
use northgate_rmm.Domain.{
  Uuid, Datetime, Endpoint, EndpointIdentity, EndpointStatus, platform_value, lifecycle_value,
  health_value,
}
use Prim.Native.String.{◌++◌ as append}
use Prim.Native.Char.{Char, code}

-- `EndpointReader`, with the state that its methods may change
pub record EndpointReader (S : Type 0) : Type 0 where
  pub list_endpoints : Exec S (List Endpoint)
  pub get_endpoint : Uuid → Exec S Endpoint
  pub get_identity : Uuid → Exec S EndpointIdentity
  pub endpoint_status : Uuid → Datetime → Exec S EndpointStatus

-- One character under `html.escape`, in front of `rest`.
unfoldable pub escape_char : Char → String → String
escape_char c rest =
    if eqb (code c) b'&'
    then concat "&amp;" rest
    else if eqb (code c) b'<'
    then concat "&lt;" rest
    else if eqb (code c) b'>'
    then concat "&gt;" rest
    else if eqb (code c) b'"'
    then concat "&quot;" rest
    else if eqb (code c) 39
    then concat "&#x27;" rest
    else String.◌∷◌ c rest

-- `html.escape(s)`
unfoldable pub escape : String → String
escape String.[] = String.[]
escape (String.◌∷◌ c s) = escape_char c (escape s)

-- `"".join(parts)`
unfoldable pub join : List String → String
join [] = String.[]
join (part ∷ parts) = append part (join parts)

module _ (isoformat : Datetime → String) where
  -- `_time`
  unfoldable pub time : Option Datetime → String
  time none = "Never"
  time (some t) = isoformat t

  -- the row of an endpoint
  unfoldable pub row : Endpoint → EndpointStatus → String
  row e status = join (
      "<tr>"
      ∷ "<td><a href=\"/endpoints/"
      ∷ uuid_str e.endpoint_id
      ∷ "\">"
      ∷ escape e.display_name
      ∷ "</a></td>"
      ∷ "<td>"
      ∷ escape (platform_value e.platform)
      ∷ "</td>"
      ∷ "<td>"
      ∷ escape e.architecture
      ∷ "</td>"
      ∷ "<td>"
      ∷ escape (lifecycle_value status.lifecycle)
      ∷ "</td>"
      ∷ "<td>"
      ∷ escape (health_value status.health)
      ∷ "</td>"
      ∷ "<td>"
      ∷ time status.last_heartbeat_at
      ∷ "</td>"
      ∷ "</tr>"
      ∷ [])

  -- `"".join(rows) or ...`
  abbrev pub body_of : List String → String
  body_of [] = "<tr><td colspan=\"6\">No endpoints</td></tr>"
  body_of (r ∷ rs) = join (r ∷ rs)

  abbrev pub next_link : Option Uuid → String
  next_link none = ""
  next_link (some after) =
      join ("<nav><a href=\"/endpoints?after=" ∷ uuid_str after ∷ "\">Next page</a></nav>" ∷ [])

  -- a label and a value of the detail page
  unfoldable pub term : String × String → String
  term (label, value) = join ("<dt>" ∷ escape label ∷ "</dt><dd>" ∷ escape value ∷ "</dd>" ∷ [])

  unfoldable pub terms : List (String × String) → List String
  unfolding term
  terms [] = []
  terms (v ∷ vs) = term v ∷ terms vs

  module _ {S : Type 0} (reader : EndpointReader S) where
    unfoldable pub rows : List Endpoint → Datetime → Exec S (List String)
    unfolding row
    rows [] now = pure []
    rows (e ∷ es) now = do
      status ← reader.endpoint_status e.endpoint_id now
      rest ← rows es now
      pure (row e status ∷ rest)

    -- `render_endpoint_page`
    unfoldable pub render_endpoint_page : List Endpoint → Option Uuid → Datetime → Exec S String
    render_endpoint_page endpoints next_after now = do
      rendered ← rows endpoints now
      pure (
          join (
            "<!doctype html><html lang=\"en\"><head><meta charset=\"utf-8\">"
            ∷ "<title>NorthGate RMM endpoints</title></head><body>"
            ∷ "<main><h1>Endpoints</h1><table><thead><tr>"
            ∷ "<th>Name</th><th>Platform</th><th>Architecture</th>"
            ∷ "<th>Lifecycle</th><th>Health</th><th>Last heartbeat</th>"
            ∷ "</tr></thead><tbody>"
            ∷ body_of rendered
            ∷ "</tbody></table>"
            ∷ next_link next_after
            ∷ "</main></body></html>"
            ∷ []))

    -- `render_endpoint_list`
    unfoldable pub render_endpoint_list : Datetime → Exec S String
    render_endpoint_list now = do
      endpoints ← reader.list_endpoints
      render_endpoint_page endpoints none now

    -- `render_endpoint_detail`
    unfoldable pub render_endpoint_detail : Uuid → Datetime → Exec S String
    unfolding time terms
    render_endpoint_detail endpoint_id now = do
      e ← reader.get_endpoint endpoint_id
      identity ← reader.get_identity e.identity_id
      status ← reader.endpoint_status endpoint_id now
      let values =
          ("Endpoint ID", uuid_str e.endpoint_id)
          ∷ ("Display name", e.display_name)
          ∷ ("Platform", platform_value e.platform)
          ∷ ("Architecture", e.architecture)
          ∷ ("Identity ID", uuid_str identity.identity_id)
          ∷ ("Fingerprint", identity.public_key_fingerprint)
          ∷ ("Lifecycle", lifecycle_value status.lifecycle)
          ∷ ("Health", health_value status.health)
          ∷ ("Enrolled", time (some e.enrolled_at))
          ∷ ("Last receipt", time e.last_receipt_at)
          ∷ ("Last heartbeat", time e.last_heartbeat_at)
          ∷ ("Revoked", time identity.revoked_at)
          ∷ ("Revocation reason", get_or identity.revocation_reason "")
          ∷ []
      pure (
          join (
            "<!doctype html><html lang=\"en\"><head><meta charset=\"utf-8\">"
            ∷ "<title>"
            ∷ escape e.display_name
            ∷ " — NorthGate RMM</title>"
            ∷ "</head><body><main><a href=\"/endpoints\">Endpoints</a>"
            ∷ "<h1>"
            ∷ escape e.display_name
            ∷ "</h1><dl>"
            ∷ join (terms values)
            ∷ "</dl>"
            ∷ "</main></body></html>"
            ∷ []))
