-- ===== src/Api/Auth/Admin.antt =====
-- crates/api/src/middleware/auth_admin.rs. The check of a service's JWT is a parameter: its claims,
-- if the token is one and valid. So are the rows of the tables of administrators.
pub mod Rights
use token_hub.Prelude.{
  ℕ, String, Bool, true, false, not, ◌||◌, Option, none, some, List, [], ◌∷◌, any, if◌then◌else◌,
  ◌==◌, str_eq,
}
use token_hub.Prelude.Int.{ℤ, ltb_ℤ}
use token_hub.Storage.AdminUser.{AdminUserRecord, AdminTables, find_access_token, find_by_id}
use token_hub.Domain.Principal.{
  Principal, PrincipalKind, Scope, from_str_lossy, has_scope, is_super_admin,
}
use token_hub.Api.Error.{ApiError}
use token_hub.Api.Auth.Token.{ApiResult}

pub record ServiceClaims : Type 0 where
  pub iss : ℕ
  pub iat : ℤ
  pub exp : ℤ
  pub scope : List String
  pub sub_kind : String

unfoldable pub check : Principal → Scope → ApiResult (Principal × Scope)
check principal scope =
    if has_scope principal scope || is_super_admin principal
    then ApiResult.granted (principal, scope)
    else ApiResult.denied ApiError.forbidden

-- `filter_map`: the texts that are scopes.
abbrev pub scopes_of : List String → List Scope
scopes_of [] = []
scopes_of (t ∷ texts) = elim (from_str_lossy t) [
  | none ↦ scopes_of texts
  | some s ↦ s ∷ scopes_of texts
]

abbrev pub service : ServiceClaims → Principal
service claims = record {
  kind = PrincipalKind.service;
  id = claims.iss;
  account_id = none;
  scopes = scopes_of claims.scope;
}

abbrev pub all_scopes : List Scope
all_scopes =
    Scope.admin_read ∷ Scope.admin_write ∷ Scope.accounts_read ∷ Scope.accounts_write
    ∷ Scope.tokens_read ∷ Scope.tokens_write ∷ Scope.credits_read ∷ Scope.credits_write
    ∷ Scope.credits_admin ∷ Scope.models_read ∷ Scope.models_write ∷ Scope.providers_read
    ∷ Scope.providers_write ∷ Scope.services_read ∷ Scope.services_write ∷ Scope.policies_read
    ∷ Scope.policies_write ∷ Scope.reports_read ∷ Scope.audit_read ∷ []

abbrev pub read_scopes : List Scope
read_scopes =
    Scope.admin_read ∷ Scope.accounts_read ∷ Scope.tokens_read ∷ Scope.credits_read
    ∷ Scope.models_read ∷ Scope.providers_read ∷ Scope.reports_read ∷ Scope.audit_read ∷ []

abbrev pub has_full_role : List String → Bool
has_full_role roles = any (λ r. str_eq r "admin.write" || str_eq r "super_admin") roles

abbrev pub administrator : AdminUserRecord → Principal
administrator admin = record {
  kind = PrincipalKind.admin;
  id = admin.id;
  account_id = none;
  scopes = if has_full_role admin.roles then all_scopes else read_scopes;
}

-- The second path, of a session token.
unfoldable pub authenticate_session : AdminTables → (hash : ℕ) (now : ℤ) → ApiResult Principal
unfolding find_access_token find_by_id
authenticate_session tables hash now = elim (find_access_token hash tables) [
  | none ↦ ApiResult.denied (ApiError.unauthorized "invalid admin token")
  | some access ↦
      if access.revoked
      then ApiResult.denied (ApiError.unauthorized "token revoked")
      else if ltb_ℤ access.expires_at now
      then ApiResult.denied (ApiError.unauthorized "token expired")
      else elim (find_by_id access.admin_id tables) [
        | none ↦ ApiResult.denied (ApiError.unauthorized "admin not found")
        | some admin ↦
            if not (str_eq admin.status "active")
            then ApiResult.denied (ApiError.unauthorized "admin disabled")
            else ApiResult.granted (administrator admin)
      ]
]

module _ (verify_service_jwt : String → Option ServiceClaims)
    (hash_session_token : String → ℕ) where
  unfoldable pub authenticate_admin : AdminTables → String → ℤ → ApiResult Principal
  unfolding authenticate_session
  authenticate_admin tables token now = elim (verify_service_jwt token) [
    | none ↦ authenticate_session tables (hash_session_token token) now
    | some claims ↦ ApiResult.granted (service claims)
  ]
