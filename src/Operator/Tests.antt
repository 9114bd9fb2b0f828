-- ===== src/Operator/Tests.antt =====
-- Operator requests of src/northgate_rmm/operator_api.py at concrete inputs.
use northgate_rmm.Prelude.{ℕ, suc, ◌≡◌, ◌↔◌, none, some, true, [], ◌∷◌, pos, string_eq}
use northgate_rmm.Prelude.Result.{ok, err, not_found_error}
use northgate_rmm.Domain.{aware}
use northgate_rmm.Operator.{
  OperatorPrincipal, OperatorAuthorizationPolicy, OperatorRequest, OperatorWorld,
  authorization_denial, handle,
}
use northgate_rmm.Operator.Authorized.{
  IsAuthorized, IsGuarded, authorization_denial_iff, handle-IsGuarded,
}

abbrev policy : OperatorAuthorizationPolicy
policy = record {
  issuer = "https://idp.example";
  tenant = "lab";
  subject = "operator-1";
  client_id = "rmm";
  required_role = "viewer";
  maximum_session_age = pos 43200000000;
}

abbrev principal : OperatorPrincipal
principal = record {
  issuer = "https://idp.example";
  tenant = "lab";
  subject = "operator-1";
  session_id = "s-1";
  client_id = "rmm";
  roles = "viewer" ∷ [];
  authenticated_at = aware 1000000;
  expires_at = aware 9000000;
  mfa = true;
}

-- A world without endpoints, whose state counts the audit events.
abbrev empty_world : OperatorWorld ℕ
empty_world = record {
  reader = record {
    list_endpoints = λ n. (ok [], n);
    get_endpoint = λ id n. (err (not_found_error "endpoint does not exist"), n);
    get_identity = λ id n. (err (not_found_error "identity does not exist"), n);
    endpoint_status = λ id now n. (err (not_found_error "endpoint does not exist"), n);
  };
  list_endpoint_page = λ after limit n. (ok [], n);
  record_operator_access = λ actor subject action decision reason id now metadata n. (ok tt, suc n);
  verify = λ credential now n. (ok principal, n);
  uuid4 = λ n. (ok 7, n);
  uuid_of = λ text. none;
  isprintable = λ text. true;
  isoformat = λ t. "";
}

abbrev listing : OperatorRequest
listing = record {
  method = "GET";
  path = "/endpoints";
  authorization = some "Bearer t";
  query_string = "";
}

authorization_denial_iff_example :
    (authorization_denial policy principal (aware 2000000) ≡ none)
    ↔ IsAuthorized policy principal (aware 2000000)
authorization_denial_iff_example = authorization_denial_iff policy principal (aware 2000000)

handle-IsGuarded_example :
    IsGuarded empty_world policy listing
      (aware 2000000)
      (handle empty_world policy listing (aware 2000000) 0)
handle-IsGuarded_example = handle-IsGuarded empty_world policy listing (aware 2000000) 0
