-- ===== src/Api/Tests.antt =====
-- crates/api: the theorems on a chat call and on the callers at small states.
use token_hub.Prelude.{
  ℕ, arith, zero, suc, String, true, false, none, some, [], ◌∷◌, ◌≡◌, refl, ◌==◌, if◌then◌else◌,
}
use token_hub.Prelude.Int.{ℤ, pos, ◌≤ℤ◌, ◌<ℤ◌}
use token_hub.Domain.Account.{ApiToken, TokenStatus}
use token_hub.Domain.Provider.{
  LogicalModel, ModelProvider, RoutingStrategy, ProviderCredential, ProviderStatus,
}
use token_hub.Domain.Principal.{Principal, has_scope, is_super_admin}
use token_hub.Credits.Invariant.{IsValid}
use token_hub.Credits.Samples.{account, funded, funded-IsValid}
use token_hub.Router.Fallback.{UpstreamError}
use token_hub.Storage.Token.{find_by_hash, revoke}
use token_hub.Storage.AdminUser.{AdminUserRecord}
use token_hub.Api.Error.{ApiError}
use token_hub.Credits.Lifecycle.{Shows}
use token_hub.Api.Admin.Credits.{AdminDb, set_credits}
use token_hub.Api.Admin.Credits.Effects.{set_credits_exact}
use token_hub.Api.Chat.Request.{ChatCompletionsRequest, ChatRequest, ChatResponse, Reply, Db}
use token_hub.Api.Chat.Accounting.{Draws}
use token_hub.Api.Chat.Handler.{chat_completions}
use token_hub.Api.Chat.Valid.{chat_completions-IsValid}
use token_hub.Api.Auth.Token.{
  TokenInfo, AuthState, ApiResult, api_user, evict, authenticate_api_token, revoke_token,
}
use token_hub.Api.Auth.Token.Owner.{
  IsFaithful, authenticate-owner, revoke_token_late, revoke_token-evict,
}
use token_hub.Api.Auth.Admin.{ServiceClaims, administrator}

abbrev model : LogicalModel
model = record {
  id = 20;
  logical_name = "gpt";
  description = none;
  input_rate_per_1k = pos 10;
  output_rate_per_1k = pos 30;
  status = "active";
  created_at = pos 0;
  updated_at = pos 0;
}

abbrev mapping : ModelProvider
mapping = record {
  id = 30;
  logical_model_id = 20;
  provider_id = 1;
  upstream_model = "gpt-4o";
  level = pos 1;
  weight = pos 100;
  strategy = RoutingStrategy.sequential;
  enabled = true;
  created_at = pos 0;
}

abbrev provider : ProviderCredential
provider = record {
  id = 1;
  name = "acme";
  provider_type = "openai";
  base_url = "https://acme.example/v1";
  api_key_enc = "key";
  status = ProviderStatus.active;
  disabled_reason = none;
  disabled_at = none;
  quota_limit = none;
  quota_used = pos 0;
  quota_threshold = pos 80;
  quota_alert_sent = false;
  quota_synced_at = none;
  created_at = pos 0;
  updated_at = pos 0;
}

abbrev db : Db
db = record {
  ledger = funded;
  models = model ∷ [];
  mappings = mapping ∷ [];
  providers = provider ∷ [];
  usage = record { logs = []; accounts = []; providers = [] };
  balances = λ a. none;
}

abbrev draws : Draws
draws = record {
  hold_id = 3;
  request_id = 4;
  tx_id = 60;
  log_id = 5;
  now = pos 9;
  period = "202607";
}

abbrev request : ChatCompletionsRequest
request = record {
  model = "gpt";
  messages = record { role = "user"; content = "hello" } ∷ [];
  stream = false;
  temperature = none;
  max_tokens = none;
}

abbrev greeting : ChatResponse
greeting = record {
  id = "chatcmpl-1";
  choices = [];
  usage =
      some
        (record { prompt_tokens = pos 1000; completion_tokens = pos 500; total_tokens = pos 1500 });
}

-- An upstream that answers each second call, and fails at the others.
abbrev answers : ℕ → (base_url api_key : String) → ChatRequest → Reply × ℕ
answers zero url key r = (Reply.refused UpstreamError.timeout, 1)
answers (suc n) url key r = (Reply.answered greeting, 0)

abbrev always_zero : ℕ → ℤ → ℤ × ℕ
always_zero rng total = (pos 0, rng)

chat_completions-IsValid_example :
    IsValid (chat_completions answers always_zero none draws (api_user 7) request 1 0 db).1.ledger
chat_completions-IsValid_example =
    chat_completions-IsValid answers always_zero none draws (api_user 7) request 1 0 db
      funded-IsValid

abbrev token : ApiToken
token = record {
  id = 9;
  token_hash = 900;
  prefix = "th_live_ab";
  account_id = 7;
  name = none;
  status = TokenStatus.active;
  expires_at = some (pos 1000);
  created_at = pos 0;
  revoked_at = none;
}

abbrev info : TokenInfo
info = record { account_id = 7; allowed_models = []; status = "active" }

abbrev cold : AuthState
cold = record { tokens = token ∷ []; cache = λ h. none }

abbrev warm : AuthState
warm = record { tokens = token ∷ []; cache = λ h. if h == 900 then some info else none }

abbrev user : ℕ → String → AdminUserRecord
user id role = record {
  id = id;
  phone = "1";
  password_hash = "h";
  totp_secret = "t";
  roles = role ∷ [];
  status = "active";
  created_at = pos 0;
  last_login_at = none;
}

abbrev chief : Principal
chief = administrator (user 1 "super_admin")

cold-IsFaithful : IsFaithful cold
cold-IsFaithful h i e = cc

authenticate-owner_example :
    ((p : Principal)
      → (authenticate_api_token 900 (pos 500) cold).0 ≡ ApiResult.granted p
      → (t : ApiToken) × (find_by_hash 900 cold.tokens ≡ some t) × (p ≡ api_user t.account_id))
    × IsFaithful (authenticate_api_token 900 (pos 500) cold).1
authenticate-owner_example = authenticate-owner 900 (pos 500) cold cold-IsFaithful

-- The token is revoked at 600, and expires at 1000.
revoke_token_late_example :
    (authenticate_api_token 900 (pos 2000) (revoke_token chief 9 (pos 600) warm).1).0
    ≡ ApiResult.granted (api_user 7)
revoke_token_late_example = revoke_token_late 900 info warm chief 9 (pos 600) (pos 2000) refl refl

revoke_token-evict_example :
    (authenticate_api_token 900 (pos 700) (evict 900 (revoke_token chief 9 (pos 600) warm).1)).0
    ≡ ApiResult.denied (ApiError.unauthorized "token revoked")
unfolding find_by_hash revoke_token revoke has_scope is_super_admin
revoke_token-evict_example = revoke_token-evict 900 token warm chief (pos 600) (pos 700) refl refl

abbrev claims : ServiceClaims
claims = record {
  iss = 2;
  iat = pos 0;
  exp = pos 900;
  scope = "credits.write" ∷ "unknown" ∷ [];
  sub_kind = "service";
}

abbrev clerk : AdminUserRecord
clerk = user 2 "support"

abbrev admin_db : AdminDb
admin_db = record { ledger = funded; audits = [] }

abbrev one_name : ℕ → String
one_name id = "chief"

set_credits_exact_example :
    let (r, after) = set_credits one_name 51 chief 7 (pos 40) none (pos 9) admin_db in
    (pos 0 ≤ℤ pos 40 → (r ≡ ApiResult.granted (pos 40)) × Shows 7 (pos 40) (pos 0) after.ledger)
    × (pos 40 <ℤ pos 0
        → (r ≡ ApiResult.denied (ApiError.bad_request "insufficient balance for negative delta"))
          × (after.ledger ≡ funded))
unfolding has_scope is_super_admin
set_credits_exact_example =
    set_credits_exact one_name 51 chief 7 none (pos 9) admin_db (account 100 0) funded-IsValid refl
      refl refl (pos 40) (omega arith)
