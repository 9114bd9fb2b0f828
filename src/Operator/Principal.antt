-- ===== src/Operator/Principal.antt =====
-- Principals and policies of src/northgate_rmm/operator_api.py.
use northgate_rmm.Prelude.{
  ℕ, ◌*◌, ◌&&◌, ◌||◌, Bool, not, Option, none, some, List, [], ◌∷◌, String, ltb, leb, eqb, ◌==◌,
  string_eq, if◌then◌else◌,
}
use northgate_rmm.Prelude.Int.{ℤ, pos, leb_ℤ, ltb_ℤ}
use northgate_rmm.Prelude.Lists.{length, any, add, member}
use northgate_rmm.Prelude.Text.{is_empty, len}
use northgate_rmm.Prelude.Result.{Result, ok, validation_error, raise_if, ◌>>◌}
use northgate_rmm.Domain.{Datetime, instant, require_aware, minutes, between}

abbrev pub max_operator_value_length : ℕ
max_operator_value_length = 512

abbrev pub max_operator_audit_identifier_length : ℕ
max_operator_audit_identifier_length = 256

abbrev pub max_operator_role_length : ℕ
max_operator_role_length = 64

pub record OperatorPrincipal : Type 0 where
  pub issuer : String
  pub tenant : String
  pub subject : String
  pub session_id : String
  pub client_id : String
  pub roles : List String
  pub authenticated_at : Datetime
  pub expires_at : Datetime
  pub mfa : Bool

pub record OperatorAuthorizationPolicy : Type 0 where
  pub issuer : String
  pub tenant : String
  pub subject : String
  pub client_id : String
  pub required_role : String
  pub maximum_session_age : ℤ

distinct : List String → List String
distinct [] = []
distinct (x ∷ xs) = add x (distinct xs)

module _ (isprintable : String → Bool) where
  -- `not value or len(value) > n or not value.isprintable()`
  abbrev pub is_unfit_value : ℕ → String → Bool
  is_unfit_value n value = is_empty value || ltb n (len value) || not (isprintable value)

  -- `OperatorPrincipal.__post_init__`
  unfoldable pub operator_principal : OperatorPrincipal → Result OperatorPrincipal
  unfolding distinct
  operator_principal p = do
    raise_if (is_unfit_value max_operator_value_length p.issuer)
        (validation_error "operator issuer is invalid")
    raise_if (is_unfit_value max_operator_value_length p.tenant)
        (validation_error "operator tenant is invalid")
    raise_if (is_unfit_value max_operator_audit_identifier_length p.subject)
        (validation_error "operator subject is invalid")
    raise_if (is_unfit_value max_operator_value_length p.session_id)
        (validation_error "operator session_id is invalid")
    raise_if (is_unfit_value max_operator_value_length p.client_id)
        (validation_error "operator client_id is invalid")
    raise_if (eqb (length p.roles) 0 || ltb 8 (length p.roles))
        (validation_error "operator roles are invalid")
    raise_if (any (is_unfit_value max_operator_role_length) p.roles)
        (validation_error "operator role is invalid")
    raise_if (not (eqb (length (distinct p.roles)) (length p.roles)))
        (validation_error "operator roles contain a duplicate")
    require_aware p.authenticated_at "operator authenticated_at"
    require_aware p.expires_at "operator expires_at"
    raise_if (leb (instant p.expires_at) (instant p.authenticated_at))
        (validation_error "operator session lifetime is invalid")
    ok p

  -- `OperatorAuthorizationPolicy.__post_init__`
  unfoldable pub operator_authorization_policy :
      OperatorAuthorizationPolicy → Result OperatorAuthorizationPolicy
  operator_authorization_policy p = do
    raise_if (is_unfit_value max_operator_value_length p.issuer)
        (validation_error "operator policy issuer is invalid")
    raise_if (is_unfit_value max_operator_value_length p.tenant)
        (validation_error "operator policy tenant is invalid")
    raise_if (is_unfit_value max_operator_audit_identifier_length p.subject)
        (validation_error "operator policy subject is invalid")
    raise_if (is_unfit_value max_operator_value_length p.client_id)
        (validation_error "operator policy client_id is invalid")
    raise_if (is_unfit_value max_operator_role_length p.required_role)
        (validation_error "operator policy required_role is invalid")
    raise_if
        (not (
          leb_ℤ (pos (minutes 5)) p.maximum_session_age
          && leb_ℤ p.maximum_session_age (pos (minutes (24 * 60)))))
        (validation_error "operator maximum session age is invalid")
    ok p

-- `OperatorApplication._authorization_denial`
unfoldable pub authorization_denial :
    OperatorAuthorizationPolicy → OperatorPrincipal → Datetime → Option String
authorization_denial policy principal now =
    if not (principal.issuer == policy.issuer)
      || not (principal.tenant == policy.tenant)
      || not (principal.subject == policy.subject)
      || not (principal.client_id == policy.client_id)
    then some "operator identity scope did not match policy"
    else if not (member policy.required_role principal.roles) || not principal.mfa
    then some "operator assurance or role was insufficient"
    else if ltb (instant now) (instant principal.authenticated_at)
        || not (ltb (instant now) (instant principal.expires_at))
    then some "operator session was not current"
    else if ltb_ℤ policy.maximum_session_age (between now principal.authenticated_at)
    then some "operator session exceeded maximum age"
    else none
