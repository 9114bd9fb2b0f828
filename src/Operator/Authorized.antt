-- ===== src/Operator/Authorized.antt =====
-- Who gets a page from the operator application of src/northgate_rmm/operator_api.py.
use northgate_rmm.Prelude.{
  ◌≡◌, refl, ◌↔◌, ◌≤◌, ◌<◌, true, Option-cases, none, inl, inr, arith, string_eq,
}
use northgate_rmm.Prelude.Int.{◌≤ℤ◌}
use northgate_rmm.Prelude.Lists.{member}
use northgate_rmm.Prelude.Result.{
  Result, ok, err, authorization_error, validation_error, not_found_error,
  service_unavailable_error, replay_error,
}
use northgate_rmm.Prelude.Exec.{bind-cases, lift-cases}
use northgate_rmm.Domain.{Uuid, Datetime, instant, between}
use northgate_rmm.Operator.{
  OperatorPrincipal, OperatorAuthorizationPolicy, authorization_denial, OperatorRequest,
  OperatorResponse, OperatorWorld, authenticate, serve, handle, turn_away, error, or_unauthorized,
}

-- The principal is the operator of the policy, with its role and MFA, in a session that has begun,
-- has not expired and is not too old.
pub record IsAuthorized (policy : OperatorAuthorizationPolicy) (p : OperatorPrincipal)
    (now : Datetime) : Type 0 where
  pub issuer : p.issuer ≡ policy.issuer
  pub tenant : p.tenant ≡ policy.tenant
  pub subject : p.subject ≡ policy.subject
  pub client : p.client_id ≡ policy.client_id
  pub role : member policy.required_role p.roles ≡ true
  pub mfa : p.mfa ≡ true
  pub begun : instant p.authenticated_at ≤ instant now
  pub current : instant now < instant p.expires_at
  pub young : between now p.authenticated_at ≤ℤ policy.maximum_session_age

module _ (policy : OperatorAuthorizationPolicy) (p : OperatorPrincipal) (now : Datetime) where
  authorization_denial-IsAuthorized :
      authorization_denial policy p now ≡ none → IsAuthorized policy p now
  unfolding authorization_denial
  authorization_denial-IsAuthorized h = record {
    issuer = ground (arith, string_eq.agrees p.issuer policy.issuer);
    tenant = ground (arith, string_eq.agrees p.tenant policy.tenant);
    subject = ground (arith, string_eq.agrees p.subject policy.subject);
    client = ground (arith, string_eq.agrees p.client_id policy.client_id);
    role = ground arith;
    mfa = ground arith;
    begun = ground arith;
    current = ground arith;
    young = ground arith;
  }

  IsAuthorized-authorization_denial :
      IsAuthorized policy p now → authorization_denial policy p now ≡ none
  unfolding authorization_denial
  IsAuthorized-authorization_denial a =
      let issuer = a.issuer in
      let tenant = a.tenant in
      let subject = a.subject in
      let client = a.client in
      let role = a.role in
      let mfa = a.mfa in
      let begun = a.begun in
      let current = a.current in
      let young = a.young in
      ground (
        arith,
        string_eq.agrees p.issuer policy.issuer,
        string_eq.agrees p.tenant policy.tenant,
        string_eq.agrees p.subject policy.subject,
        string_eq.agrees p.client_id policy.client_id,
      )

  -- Nothing is denied to a principal exactly if it is the operator of the policy, with the required
  -- role and MFA, in a session that has begun, has not expired and is not older than the policy allows.
  pub authorization_denial_iff :
      (authorization_denial policy p now ≡ none) ↔ IsAuthorized policy p now
  authorization_denial_iff = (authorization_denial-IsAuthorized, IsAuthorized-authorization_denial)

module _ {S : Type 0} (w : OperatorWorld S) (policy : OperatorAuthorizationPolicy)
    (request : OperatorRequest) (at : Datetime) where
  -- A page was sent only to a verified principal that the policy authorizes.
  abbrev pub IsGuarded : Result OperatorResponse × S → Type 0
  IsGuarded (ok r, s) =
      r.status ≡ 200
      → (p : OperatorPrincipal) × (id : Uuid) × (t u : S) × (authenticate w policy
            request.authorization at id t
          ≡ (ok p, u))
        × IsAuthorized policy p at
  IsGuarded (err e, s) = Unit

  known-IsGuarded :
      (p : OperatorPrincipal) (id : Uuid) (t u : S)
      → authenticate w policy request.authorization at id t ≡ (ok p, u)
      → IsAuthorized policy p at
      → (r : Result OperatorResponse × S) → IsGuarded r
  known-IsGuarded p id t u known a (ok r, s) = λ sent. (p, id, t, u, known, a)
  known-IsGuarded p id t u known a (err e, s) = tt

  serve-IsGuarded :
      (p : OperatorPrincipal) (id : Uuid) (t u : S)
      → authenticate w policy request.authorization at id t ≡ (ok p, u)
      → IsGuarded (serve w policy request id at p u)
  unfolding serve turn_away error
  serve-IsGuarded p id t u known =
      bind-cases _ _ _ IsGuarded
        (λ done v audited. elim (Option-cases (authorization_denial policy p at)) [
          | inl clear ↦
              known-IsGuarded p id t u known (authorization_denial-IsAuthorized policy p at clear) _
          | inr (reason, denied) ↦ rw denied (
              bind-cases _ _ _ IsGuarded (λ done v audited sent. absurd (omega arith))
                (λ e v failed. tt))
        ])
        (λ e v failed. tt)

  authenticated-IsGuarded :
      (id : Uuid) (t : S) (r : Result OperatorPrincipal × S)
      → authenticate w policy request.authorization at id t ≡ r
      → IsGuarded (or_unauthorized (serve w policy request id at) r)
  unfolding error
  authenticated-IsGuarded id t (ok p, u) known = serve-IsGuarded p id t u known
  authenticated-IsGuarded id t (err (authorization_error m), u) known = λ sent. absurd (omega arith)
  authenticated-IsGuarded id t (err (validation_error m), u) known = tt
  authenticated-IsGuarded id t (err (service_unavailable_error m), u) known = tt
  authenticated-IsGuarded id t (err (replay_error m), u) known = tt
  authenticated-IsGuarded id t (err (not_found_error m), u) known = tt

  -- A request that gets a page (status 200) was authenticated as a principal that is the operator of
  -- the policy, with its role and MFA, in a current session.
  pub handle-IsGuarded : (s : S) → IsGuarded (handle w policy request at s)
  unfolding handle
  handle-IsGuarded s =
      lift-cases _ _ s IsGuarded
        (λ done passed.
          bind-cases _ _ _ IsGuarded (λ id t drawn. authenticated-IsGuarded id t _ refl)
            (λ e t failed. tt))
        (λ e failed. tt)
