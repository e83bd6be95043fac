-- ===== src/Api/Admin/Routes/Forbidden.antt =====
-- crates/api/src/routes.rs: what each request demands of its caller.
use token_hub.Prelude.{Bool, false, some, ◌≡◌, arith}
use token_hub.Domain.Principal.{Principal, Scope, is_super_admin}
use token_hub.Api.Error.{ApiError}
use token_hub.Api.Auth.Token.{revoke_token}
use token_hub.Api.Admin.Credits.{may}
use token_hub.Api.Admin.State.{AdminState, Call}
use token_hub.Api.Admin.Accounts.{
  create_account, update_account, delete_account, bind_account_policy,
}
use token_hub.Api.Admin.Tokens.{create_token}
use token_hub.Api.Admin.Policies.{create_policy, update_policy, delete_policy}
use token_hub.Api.Admin.Services.{
  create_service, update_service, delete_service, reset_service_secret,
}
use token_hub.Api.Admin.Providers.{
  create_provider, update_provider, delete_provider, disable_provider, enable_provider,
  sync_provider_quota, create_mapping, update_mapping, delete_mapping,
}
use token_hub.Api.Admin.Models.{Detail, create_model, update_model, delete_model, set_rates}
use token_hub.Api.Admin.Devices.{register_device, delete_device}
use token_hub.Api.Admin.Routes.{Request, handle}
use token_hub.Prelude.{ℕ, String}

abbrev pub allowed : Principal → Request → Bool
allowed p (Request.post_account req) = may p Scope.accounts_write
allowed p (Request.put_account id _ _) = may p Scope.accounts_write
allowed p (Request.remove_account id) = may p Scope.accounts_write
allowed p (Request.post_account_policy account_id policy_id) = may p Scope.policies_write
allowed p (Request.post_token account_id name plaintext) = may p Scope.tokens_write
allowed p (Request.remove_token id) = may p Scope.tokens_write
allowed p (Request.post_policy req) = may p Scope.policies_write
allowed p (Request.put_policy id req) = may p Scope.policies_write
allowed p (Request.remove_policy id) = may p Scope.policies_write
allowed p (Request.post_service req secret) = may p Scope.services_write
allowed p (Request.put_service id req) = may p Scope.services_write
allowed p (Request.remove_service id) = may p Scope.services_write
allowed p (Request.post_service_secret id secret) = may p Scope.services_write
allowed p (Request.post_model req) = may p Scope.models_write
allowed p (Request.put_model id req) = may p Scope.models_write
allowed p (Request.remove_model id) = may p Scope.models_write
allowed p (Request.put_rates id input output) = may p Scope.models_write
allowed p (Request.post_device name platform device_key) = is_super_admin p
allowed p (Request.remove_device id) = is_super_admin p
allowed p _ = may p Scope.providers_write

module _ (hash_api_token : String → ℕ) (json : Detail → String) where
  -- A caller who neither has the scope that the code demands for a request nor is a super administrator
  -- (for devices: who is none) is answered with "forbidden", and no table changes. For the mappings of
  -- models to providers the code demands providers.write.
  pub handle-forbidden :
      (p : Principal) (r : Request) (call : Call) (s : AdminState)
      → allowed p r ≡ false
      → handle hash_api_token json p r call s ≡ (some ApiError.forbidden, s)
  unfolding handle create_account update_account delete_account bind_account_policy create_token
      revoke_token create_policy update_policy delete_policy create_service update_service
      delete_service reset_service_secret create_provider update_provider delete_provider
      disable_provider enable_provider sync_provider_quota create_mapping update_mapping
      delete_mapping create_model update_model delete_model set_rates register_device delete_device
  handle-forbidden p (Request.post_account req) call s h = ground (arith, h)
  handle-forbidden p _ call s h = ground (arith, h)
