-- ===== src/Api/Admin/Routes.antt =====
-- crates/api/src/routes.rs: the administrators' requests that change tables, and the handler of each.
-- Those on credits (Credits) have tables of their own.
pub mod Forbidden
pub mod Access
pub mod Upstreams
pub mod Atomic
use token_hub.Prelude.{ℕ, String, Bool, Option, none, some, List}
use token_hub.Prelude.Int.{ℤ}
use token_hub.Domain.Principal.{Principal, Scope, is_super_admin}
use token_hub.Api.Error.{ApiError}
use token_hub.Api.Auth.Token.{ApiResult, AuthState, revoke_token}
use token_hub.Api.Admin.Credits.{may}
use token_hub.Api.Admin.State.{AdminState, Call}
use token_hub.Api.Admin.Accounts.{
  CreateAccount, create_account, update_account, delete_account, bind_account_policy,
}
use token_hub.Api.Admin.Tokens.{create_token}
use token_hub.Api.Admin.Policies.{PolicyReq, create_policy, update_policy, delete_policy}
use token_hub.Api.Admin.Services.{
  CreateServiceReq, UpdateServiceReq, create_service, update_service, delete_service,
  reset_service_secret,
}
use token_hub.Api.Admin.Providers.{
  CreateProviderReq, UpdateProviderReq, CreateMapReq, create_provider, update_provider,
  delete_provider, disable_provider, enable_provider, sync_provider_quota, create_mapping,
  update_mapping, delete_mapping,
}
use token_hub.Api.Admin.Models.{
  CreateModelReq, UpdateModelReq, Detail, create_model, update_model, delete_model, set_rates,
}
use token_hub.Api.Admin.Devices.{register_device, delete_device}

pub data Request : Type 0 where
  post_account : CreateAccount → Request
  put_account : (id : ℕ) (status text : Option String) → Request
  remove_account : (id : ℕ) → Request
  post_account_policy : (account_id policy_id : ℕ) → Request
  post_token : (account_id : ℕ) (name : Option String) (plaintext : String) → Request
  remove_token : (id : ℕ) → Request
  post_policy : PolicyReq → Request
  put_policy : (id : ℕ) → PolicyReq → Request
  remove_policy : (id : ℕ) → Request
  post_service : CreateServiceReq → (secret : String) → Request
  put_service : (id : ℕ) → UpdateServiceReq → Request
  remove_service : (id : ℕ) → Request
  post_service_secret : (id : ℕ) (secret : String) → Request
  post_provider : CreateProviderReq → Request
  put_provider : (id : ℕ) → UpdateProviderReq → Request
  remove_provider : (id : ℕ) → Request
  post_provider_disable : (id : ℕ) (reason : Option String) → Request
  post_provider_enable : (id : ℕ) → Request
  post_provider_quota : (id : ℕ) (official_used : ℤ) → Request
  post_mapping : CreateMapReq → Request
  put_mapping : (id : ℕ) (level weight : ℤ) (strategy : String) (enabled : Bool) → Request
  remove_mapping : (id : ℕ) → Request
  post_model : CreateModelReq → Request
  put_model : (id : ℕ) → UpdateModelReq → Request
  remove_model : (id : ℕ) → Request
  put_rates : (id : ℕ) (input_rate_per_1k output_rate_per_1k : ℤ) → Request
  post_device : (name : String) (platform : Option String) (device_key : String) → Request
  remove_device : (id : ℕ) → Request

-- The error that is answered, if one is.
abbrev pub error_of {ℓ} : {A : Type ℓ} → ApiResult A → Option ApiError
error_of (ApiResult.granted _) = none
error_of (ApiResult.denied e) = some e

abbrev pub answer {ℓ} : {A : Type ℓ} → ApiResult A × AdminState → Option ApiError × AdminState
answer r = (error_of r.0, r.1)

module _ (hash_api_token : String → ℕ) (json : Detail → String) where
  abbrev revoking : Principal → ℕ → Call → AdminState → ApiResult (Unit {0}) × AdminState
  revoking p id call s =
      let (r, after) =
        revoke_token p id call.now (record { tokens = s.tokens; cache = λ h. none }) in
      (r, record s { tokens = after.tokens })

  unfoldable pub handle : Principal → Request → Call → AdminState → Option ApiError × AdminState
  handle p (post_account req) call s = answer (create_account p req call s)
  handle p (put_account id status text) call s = answer (update_account p id status text call s)
  handle p (remove_account id) call s = answer (delete_account p id call s)
  handle p (post_account_policy account_id policy_id) call s =
      answer (bind_account_policy p account_id policy_id call s)
  handle p (post_token account_id name plaintext) call s =
      answer (create_token hash_api_token p account_id name plaintext call s)
  handle p (remove_token id) call s = answer (revoking p id call s)
  handle p (post_policy req) call s = answer (create_policy p req call s)
  handle p (put_policy id req) call s = answer (update_policy p id req call s)
  handle p (remove_policy id) call s = answer (delete_policy p id s)
  handle p (post_service req secret) call s =
      answer (create_service hash_api_token p req secret call s)
  handle p (put_service id req) call s = answer (update_service p id req call s)
  handle p (remove_service id) call s = answer (delete_service p id call s)
  handle p (post_service_secret id secret) call s =
      answer (reset_service_secret hash_api_token p id secret call s)
  handle p (post_provider req) call s = answer (create_provider p req call s)
  handle p (put_provider id req) call s = answer (update_provider p id req call s)
  handle p (remove_provider id) call s = answer (delete_provider p id call s)
  handle p (post_provider_disable id reason) call s = answer (disable_provider p id reason call s)
  handle p (post_provider_enable id) call s = answer (enable_provider p id call s)
  handle p (post_provider_quota id official_used) call s =
      answer (sync_provider_quota p id official_used call s)
  handle p (post_mapping req) call s = answer (create_mapping p req call s)
  handle p (put_mapping id level weight strategy enabled) call s =
      answer (update_mapping p id level weight strategy enabled call s)
  handle p (remove_mapping id) call s = answer (delete_mapping p id s)
  handle p (post_model req) call s = answer (create_model json p req call s)
  handle p (put_model id req) call s = answer (update_model json p id req call s)
  handle p (remove_model id) call s = answer (delete_model json p id call s)
  handle p (put_rates id input_rate_per_1k output_rate_per_1k) call s =
      answer (set_rates json p id input_rate_per_1k output_rate_per_1k call s)
  handle p (post_device name platform device_key) call s =
      answer (register_device hash_api_token p name platform device_key call s)
  handle p (remove_device id) call s = answer (delete_device p id s)
