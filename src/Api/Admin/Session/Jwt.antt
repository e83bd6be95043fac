-- ===== src/Api/Admin/Session/Jwt.antt =====
-- crates/auth/src/jwt.rs with crates/api/src/handlers/admin/auth.rs and
-- crates/api/src/middleware/auth_admin.rs: what the JWT of a service is good for. `sign` and `decode` are
-- those of the jsonwebtoken crate, under the server's secret; `decode` is given the time.
use token_hub.Prelude.{
  ℕ, String, false, not, Option, none, some, List, any, ◌≡◌, refl, inl, inr, arith, ◌==◌, str_eq,
  eq_iff, if◌then◌else◌, Bool-cases, Option-cases,
}
use token_hub.Prelude.Int.{ℤ, pos, ltb_ℤ}
use token_hub.Prelude.I64.{add64}
use token_hub.Domain.Principal.{Principal, PrincipalKind, Scope, as_str}
use token_hub.Storage.AdminUser.{AdminTables}
use token_hub.Storage.ServiceAccount.{Services, find_auth}
use token_hub.Api.Auth.Token.{ApiResult}
use token_hub.Api.Auth.Admin.{ServiceClaims, service, authenticate_admin}
use token_hub.Api.Auth.Admin.Rights.{allows, allows-service}
use token_hub.Api.Admin.Session.{ClientCredentials, service_claims, service_token}

unfoldable pub verify_service_jwt :
    (decode : String → ℤ → Option ServiceClaims) (now : ℤ) → String → Option ServiceClaims
verify_service_jwt decode now token = elim (decode token now) [
  | none ↦ none
  | some claims ↦ if str_eq claims.sub_kind "service" then some claims else none
]

-- What was signed is read back until it expires.
abbrev pub ReadsBack :
    (sign : ServiceClaims → Option String) (decode : String → ℤ → Option ServiceClaims) → Type 0
ReadsBack sign decode =
    (claims : ServiceClaims) (token : String) (now : ℤ)
    → sign claims ≡ some token
    → ltb_ℤ claims.exp now ≡ false
    → decode token now ≡ some claims

module _ (sign : ServiceClaims → Option String) (decode : String → ℤ → Option ServiceClaims)
    (reads_back : ReadsBack sign decode) where
  bearer :
      (id : ℕ) (scopes : List String) (now when : ℤ) (jwt : String)
      (hash_session_token : String → ℕ) (t : AdminTables)
      → sign (service_claims id scopes (pos 3600) now) ≡ some jwt
      → ltb_ℤ (add64 now (pos 3600)) when ≡ false
      → (p : Principal) × (authenticate_admin
            (verify_service_jwt decode when)
            hash_session_token
            t
            jwt
            when
          ≡ ApiResult.granted p)
        × (p.id ≡ id)
        × (p.kind ≡ PrincipalKind.service)
        × ((s : Scope) → allows p s ≡ any (λ text. str_eq text (as_str s)) scopes)
  unfolding authenticate_admin verify_service_jwt service_claims
  bearer id scopes now when jwt hash_session_token t signed alive =
      let claims : ServiceClaims = service_claims id scopes (pos 3600) now in
      let read : decode jwt when ≡ some claims = reads_back claims jwt when signed alive in
      (
        service claims,
        rw (authenticate_admin, verify_service_jwt, read) refl,
        refl,
        refl,
        allows-service claims,
      )

  -- Whoever is given a JWT has named a client that is active and given its secret. Until the JWT expires,
  -- an hour later, its bearer is let in as that service, and passes the check of a scope exactly if the
  -- scope's text stands among the scopes of the service.
  pub service_token_lem :
      (hash_api_token hash_session_token : String → ℕ) (form : ClientCredentials) (now : ℤ)
      (services : Services) (jwt : String) (ttl : ℤ) (scope_text : String)
      → service_token hash_api_token sign form now services
        ≡ ApiResult.granted (jwt, ttl, scope_text)
      → (id : ℕ) × (scopes : List String) × (find_auth form.client_id services
          ≡ some (id, hash_api_token form.client_secret, scopes, "active"))
        × ((when : ℤ) (t : AdminTables)
            → ltb_ℤ (add64 now (pos 3600)) when ≡ false
            → (p : Principal) × (authenticate_admin
                  (verify_service_jwt decode when)
                  hash_session_token
                  t
                  jwt
                  when
                ≡ ApiResult.granted p)
              × (p.id ≡ id)
              × (p.kind ≡ PrincipalKind.service)
              × ((s : Scope) → allows p s ≡ any (λ text. str_eq text (as_str s)) scopes))
  unfolding service_token service_claims
  service_token_lem hash_api_token hash_session_token form now services jwt ttl scope_text granted =
      elim (Bool-cases (not (str_eq form.grant_type "client_credentials"))) [
        | inl other ↦ absurd (ground (arith, other, granted))
        | inr grant ↦ elim (Option-cases (find_auth form.client_id services)) [
          | inl missing ↦ absurd (ground (arith, grant, missing, granted))
          | inr ((id, secret_hash, scopes, status), found) ↦
              elim (Bool-cases (not (str_eq status "active"))) [
                | inl disabled ↦ absurd (ground (arith, grant, found, disabled, granted))
                | inr active ↦
                    elim (Bool-cases (not (hash_api_token form.client_secret == secret_hash))) [
                      | inl wrong ↦ absurd (ground (arith, grant, found, active, wrong, granted))
                      | inr right ↦
                          elim (Option-cases (sign (service_claims id scopes (pos 3600) now))) [
                            | inl fault ↦
                                absurd (ground (arith, grant, found, active, right, fault, granted))
                            | inr (token, signed) ↦
                                let same : token ≡ jwt =
                                  ground (arith, grant, found, active, right, signed, granted) in
                                let status_eq : status ≡ "active" =
                                  (eq_iff status "active").0 (ground arith) in
                                let secret_eq : hash_api_token form.client_secret ≡ secret_hash =
                                  ground arith in
                                (
                                  id,
                                  scopes,
                                  ground (arith, found, status_eq, secret_eq),
                                  (λ when t alive.
                                      bearer id scopes now when jwt hash_session_token t
                                        (rw same at signed) alive),
                                )
                          ]
                    ]
              ]
        ]
      ]
