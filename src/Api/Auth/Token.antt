-- ===== src/Api/Auth/Token.antt =====
-- crates/api/src/middleware/auth_chat.rs, with crates/cache/src/token_cache.rs and the revocation of
-- crates/api/src/handlers/admin/tokens.rs. The hash of a token is a parameter's value. An entry of
-- the cache lives for ten minutes, at the end of which it is gone: `evict`.
pub mod Owner
use token_hub.Prelude.{
  ℕ, String, Bool, true, false, not, ◌&&◌, ◌||◌, Option, none, some, List, [], ◌∷◌, if◌then◌else◌,
  ◌==◌, str_eq,
}
use token_hub.Prelude.Int.{ℤ, ltb_ℤ}
use token_hub.Domain.Account.{ApiToken, TokenStatus}
use token_hub.Domain.Principal.{Principal, PrincipalKind, Scope, has_scope, is_super_admin}
use token_hub.Storage.Token.{Tokens, find_by_hash, revoke}
use token_hub.Api.Error.{ApiError}

pub record TokenInfo : Type 0 where
  pub account_id : ℕ
  pub allowed_models : List String
  pub status : String

-- The table of tokens and the cache.
pub record AuthState : Type 0 where
  pub tokens : Tokens
  pub cache : ℕ → Option TokenInfo

pub data ApiResult {ℓ} (A : Type ℓ) : Type ℓ where
  granted : A → ApiResult A
  denied : ApiError → ApiResult A

abbrev pub api_user : ℕ → Principal
api_user account_id = record {
  kind = PrincipalKind.api_user;
  id = account_id;
  account_id = some account_id;
  scopes = [];
}

abbrev pub is_active : TokenStatus → Bool
is_active TokenStatus.active = true
is_active TokenStatus.revoked = false

-- `exp < now`, for a token that expires.
abbrev pub is_expired : ℤ → Option ℤ → Bool
is_expired now none = false
is_expired now (some exp) = ltb_ℤ exp now

abbrev pub evict : ℕ → AuthState → AuthState
evict hash s = record s { cache = λ h. if h == hash then none else s.cache h }

abbrev pub fill : ℕ → TokenInfo → AuthState → AuthState
fill hash info s = record s { cache = λ h. if h == hash then some info else s.cache h }

-- Behind a miss of the cache.
unfoldable pub authenticate_row : ℕ → ℤ → AuthState → ApiResult Principal × AuthState
authenticate_row hash now s = elim (find_by_hash hash s.tokens) [
  | none ↦ (ApiResult.denied (ApiError.unauthorized "invalid token"), s)
  | some t ↦
      if not (is_active t.status)
      then (ApiResult.denied (ApiError.unauthorized "token revoked"), s)
      else if is_expired now t.expires_at
      then (ApiResult.denied (ApiError.unauthorized "token expired"), s)
      else (
        ApiResult.granted (api_user t.account_id),
        fill hash (record { account_id = t.account_id; allowed_models = []; status = "active" }) s,
      )
]

unfoldable pub authenticate_api_token : ℕ → ℤ → AuthState → ApiResult Principal × AuthState
unfolding authenticate_row
authenticate_api_token hash now s = elim (s.cache hash) [
  | none ↦ authenticate_row hash now s
  | some info ↦
      if not (str_eq info.status "active")
      then (ApiResult.denied (ApiError.unauthorized "token revoked"), s)
      else (ApiResult.granted (api_user info.account_id), s)
]

-- The handler of a revocation.
unfoldable pub revoke_token : Principal → ℕ → ℤ → AuthState → ApiResult (Unit {0}) × AuthState
revoke_token principal id now s =
    if not (has_scope principal Scope.tokens_write) && not (is_super_admin principal)
    then (ApiResult.denied ApiError.forbidden, s)
    else (let (hit, tokens) = revoke id now s.tokens in
        if hit
        then (ApiResult.granted tt, record s { tokens = tokens })
        else (ApiResult.denied ApiError.not_found, record s { tokens = tokens }))
