-- ===== src/Api/Admin/Session.antt =====
-- crates/api/src/handlers/admin/auth.rs. The checks of a password and of a code of the second factor,
-- the hashes, the new tokens and the signature of a JWT are parameters. Failures of a write that the
-- program ignores do not occur here.
mod Tests
pub mod Keeps
pub mod Revoked
pub mod Once
pub mod Login
pub mod Jwt
use token_hub.Prelude.{
  ℕ, String, Bool, true, false, not, ◌||◌, Option, none, some, List, DbResult, ok, failed,
  if◌then◌else◌, ◌==◌, str_eq,
}
use token_hub.Prelude.Int.{ℤ, pos, ltb_ℤ}
use token_hub.Prelude.I64.{add64}
use token_hub.Prelude.Text.{join}
use token_hub.Domain.Principal.{Principal}
use token_hub.Storage.AdminUser.{
  AdminUserRecord, AdminTables, find_by_phone, find_by_id, update_last_login, create_access_token,
  create_refresh_token, find_refresh_token, revoke_access_token, revoke_refresh_token,
}
use token_hub.Storage.ServiceAccount.{Services, find_auth}
use token_hub.Api.Error.{ApiError}
use token_hub.Api.Auth.Token.{ApiResult}
use token_hub.Api.Auth.Admin.{ServiceClaims, authenticate_admin}

abbrev pub access_token_ttl_secs : ℤ
access_token_ttl_secs = pos 3600

abbrev pub refresh_token_ttl_secs : ℤ
refresh_token_ttl_secs = pos 604800

abbrev service_jwt_ttl_secs : ℤ
service_jwt_ttl_secs = pos 3600

pub record LoginRequest : Type 0 where
  pub phone : String
  pub password : String
  pub totp_code : String

pub record TokenResponse : Type 0 where
  pub access_token : String
  pub refresh_token : String
  pub expires_in : ℤ
  pub token_type : String

abbrev pub unauthorized {ℓ} : {A : Type ℓ} → String → ApiResult A
unauthorized m = ApiResult.denied (ApiError.unauthorized m)

-- The end of `login` and of `refresh`: a new pair of tokens for an administrator.
unfoldable pub issue :
    (hash_session_token : String → ℕ) (access_plain refresh_plain : String) (admin_id : ℕ) (now : ℤ)
    → AdminTables
    → ApiResult TokenResponse × AdminTables
issue hash_session_token access_plain refresh_plain admin_id now t =
    let access_hash = hash_session_token access_plain in
    let (first, t1) =
      create_access_token access_hash admin_id (add64 now access_token_ttl_secs) t in
    elim first [
      | failed ↦ (ApiResult.denied (ApiError.internal none), t1)
      | ok _ ↦
          let (second, t2) =
            create_refresh_token (hash_session_token refresh_plain) admin_id access_hash
              (add64 now refresh_token_ttl_secs) t1 in
          elim second [
            | failed ↦ (ApiResult.denied (ApiError.internal none), t2)
            | ok _ ↦ (
              ApiResult.granted (record {
                access_token = access_plain;
                refresh_token = refresh_plain;
                expires_in = access_token_ttl_secs;
                token_type = "Bearer";
              }),
              t2,
            )
          ]
    ]

module _ (verify_password verify_totp : String → String → Bool)
    (hash_session_token : String → ℕ) where
  unfoldable pub login :
      LoginRequest
      → (access_plain refresh_plain : String) (now : ℤ) → AdminTables
      → ApiResult TokenResponse × AdminTables
  unfolding issue find_by_phone
  login req access_plain refresh_plain now t = elim (find_by_phone req.phone t) [
    | none ↦ (unauthorized "invalid credentials", t)
    | some admin ↦
        if not (str_eq admin.status "active")
        then (unauthorized "admin disabled", t)
        else if not (verify_password req.password admin.password_hash)
        then (unauthorized "invalid credentials", t)
        else if not (verify_totp admin.totp_secret req.totp_code)
        then (unauthorized "invalid totp code", t)
        else issue hash_session_token access_plain refresh_plain admin.id now
            (update_last_login admin.id now t)
  ]

-- `checked` is the time of the test, `now` that of the new tokens.
unfoldable pub refresh :
    (hash_session_token : String → ℕ) (refresh_token access_plain new_refresh_plain : String)
    → (checked now : ℤ) → AdminTables
    → ApiResult TokenResponse × AdminTables
unfolding issue find_refresh_token
refresh hash_session_token refresh_token access_plain new_refresh_plain checked now t =
    let refresh_hash = hash_session_token refresh_token in
    elim (find_refresh_token refresh_hash t) [
      | none ↦ (unauthorized "invalid refresh token", t)
      | some (admin_id, old_access_hash, expires_at, revoked) ↦
          if revoked || ltb_ℤ expires_at checked
          then (unauthorized "refresh token expired or revoked", t)
          else issue hash_session_token access_plain new_refresh_plain admin_id now
              (revoke_access_token old_access_hash (revoke_refresh_token refresh_hash t))
    ]

-- The token of the header, if there is one, is an argument.
unfoldable pub logout :
    (hash_session_token : String → ℕ)
    → ApiResult String
    → AdminTables
    → ApiResult (Unit {0}) × AdminTables
logout hash_session_token (ApiResult.denied e) t = (ApiResult.denied e, t)
logout hash_session_token (ApiResult.granted token) t =
    (ApiResult.granted tt, revoke_access_token (hash_session_token token) t)

-- The identifier, the phone, the roles and the status.
unfoldable pub me :
    (verify_service_jwt : String → Option ServiceClaims) (hash_session_token : String → ℕ)
    → ApiResult String
    → (now : ℤ) → AdminTables
    → ApiResult (ℕ × String × List String × String)
unfolding authenticate_admin find_by_id
me verify_service_jwt hash_session_token (ApiResult.denied e) now t = ApiResult.denied e
me verify_service_jwt hash_session_token (ApiResult.granted token) now t =
    elim (authenticate_admin verify_service_jwt hash_session_token t token now) [
      | ApiResult.denied e ↦ ApiResult.denied e
      | ApiResult.granted principal ↦ elim (find_by_id principal.id t) [
        | none ↦ ApiResult.denied ApiError.not_found
        | some admin ↦ ApiResult.granted (admin.id, admin.phone, admin.roles, admin.status)
      ]
    ]

pub record ClientCredentials : Type 0 where
  pub grant_type : String
  pub client_id : ℕ
  pub client_secret : String

-- `issue_service_jwt` signs the claims; `none` is its error.
unfoldable pub service_claims : ℕ → List String → ℤ → ℤ → ServiceClaims
service_claims client_id scopes ttl_secs now = record {
  iss = client_id;
  iat = now;
  exp = add64 now ttl_secs;
  scope = scopes;
  sub_kind = "service";
}

-- The token, its lifetime and its scopes.
unfoldable pub service_token :
    (hash_api_token : String → ℕ) (sign : ServiceClaims → Option String)
    → ClientCredentials
    → (now : ℤ) → Services
    → ApiResult (String × ℤ × String)
unfolding find_auth service_claims
service_token hash_api_token sign form now services =
    if not (str_eq form.grant_type "client_credentials")
    then ApiResult.denied (ApiError.bad_request "unsupported grant_type")
    else elim (find_auth form.client_id services) [
      | none ↦ unauthorized "invalid client credentials"
      | some (id, secret_hash, scopes, status) ↦
          if not (str_eq status "active")
          then unauthorized "service disabled"
          else if not (hash_api_token form.client_secret == secret_hash)
          then unauthorized "invalid client credentials"
          else elim (sign (service_claims id scopes service_jwt_ttl_secs now)) [
            | none ↦ ApiResult.denied (ApiError.internal none)
            | some jwt ↦ ApiResult.granted (jwt, service_jwt_ttl_secs, join " " scopes)
          ]
    ]
