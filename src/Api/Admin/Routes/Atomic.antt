-- ===== src/Api/Admin/Routes/Atomic.antt =====
-- crates/api/src/routes.rs: a request that fails changes nothing.
use token_hub.Prelude.{ℕ, String, some, ◌≡◌}
use token_hub.Domain.Principal.{Principal}
use token_hub.Api.Error.{ApiError}
use token_hub.Api.Admin.State.{AdminState, Call}
use token_hub.Api.Admin.Models.{Detail}
use token_hub.Api.Admin.Routes.{Request, handle}
use token_hub.Api.Admin.Routes.Access.{
  post_account-Atomic, put_account-Atomic, remove_account-Atomic, post_account_policy-Atomic,
  post_token-Atomic, remove_token-Atomic, post_policy-Atomic, put_policy-Atomic,
  remove_policy-Atomic, post_service-Atomic, put_service-Atomic, remove_service-Atomic,
  post_service_secret-Atomic,
}
use token_hub.Api.Admin.Routes.Upstreams.{
  post_provider-Atomic, put_provider-Atomic, remove_provider-Atomic, post_provider_disable-Atomic,
  post_provider_enable-Atomic, post_provider_quota-Atomic, post_mapping-Atomic, put_mapping-Atomic,
  remove_mapping-Atomic, post_model-Atomic, put_model-Atomic, remove_model-Atomic, put_rates-Atomic,
  post_device-Atomic, remove_device-Atomic,
}

module _ (hash_api_token : String → ℕ) (json : Detail → String) where
  -- Each of the requests leaves every table as it was, the audit log included, if it is answered with
  -- an error, be it a refusal or a row that the database does not take.
  pub handle-atomic :
      (p : Principal) (r : Request) (call : Call) (s : AdminState) (e : ApiError)
      → (handle hash_api_token json p r call s).0 ≡ some e
      → (handle hash_api_token json p r call s).1 ≡ s
  handle-atomic p (Request.post_account req) call s e h =
      post_account-Atomic hash_api_token json p call s e req h
  handle-atomic p (Request.put_account id st t) call s e h =
      put_account-Atomic hash_api_token json p call s e id st t h
  handle-atomic p (Request.remove_account id) call s e h =
      remove_account-Atomic hash_api_token json p call s e id h
  handle-atomic p (Request.post_account_policy a q) call s e h =
      post_account_policy-Atomic hash_api_token json p call s e a q h
  handle-atomic p (Request.post_token a n t) call s e h =
      post_token-Atomic hash_api_token json p call s e a n t h
  handle-atomic p (Request.remove_token id) call s e h =
      remove_token-Atomic hash_api_token json p call s e id h
  handle-atomic p (Request.post_policy req) call s e h =
      post_policy-Atomic hash_api_token json p call s e req h
  handle-atomic p (Request.put_policy id req) call s e h =
      put_policy-Atomic hash_api_token json p call s e id req h
  handle-atomic p (Request.remove_policy id) call s e h =
      remove_policy-Atomic hash_api_token json p call s e id h
  handle-atomic p (Request.post_service req t) call s e h =
      post_service-Atomic hash_api_token json p call s e req t h
  handle-atomic p (Request.put_service id req) call s e h =
      put_service-Atomic hash_api_token json p call s e id req h
  handle-atomic p (Request.remove_service id) call s e h =
      remove_service-Atomic hash_api_token json p call s e id h
  handle-atomic p (Request.post_service_secret id t) call s e h =
      post_service_secret-Atomic hash_api_token json p call s e id t h
  handle-atomic p (Request.post_provider req) call s e h =
      post_provider-Atomic hash_api_token json p call s e req h
  handle-atomic p (Request.put_provider id req) call s e h =
      put_provider-Atomic hash_api_token json p call s e id req h
  handle-atomic p (Request.remove_provider id) call s e h =
      remove_provider-Atomic hash_api_token json p call s e id h
  handle-atomic p (Request.post_provider_disable id reason) call s e h =
      post_provider_disable-Atomic hash_api_token json p call s e id reason h
  handle-atomic p (Request.post_provider_enable id) call s e h =
      post_provider_enable-Atomic hash_api_token json p call s e id h
  handle-atomic p (Request.post_provider_quota id used) call s e h =
      post_provider_quota-Atomic hash_api_token json p call s e id used h
  handle-atomic p (Request.post_mapping req) call s e h =
      post_mapping-Atomic hash_api_token json p call s e req h
  handle-atomic p (Request.put_mapping id level weight strategy enabled) call s e h =
      put_mapping-Atomic hash_api_token json p call s e id level weight strategy enabled h
  handle-atomic p (Request.remove_mapping id) call s e h =
      remove_mapping-Atomic hash_api_token json p call s e id h
  handle-atomic p (Request.post_model req) call s e h =
      post_model-Atomic hash_api_token json p call s e req h
  handle-atomic p (Request.put_model id req) call s e h =
      put_model-Atomic hash_api_token json p call s e id req h
  handle-atomic p (Request.remove_model id) call s e h =
      remove_model-Atomic hash_api_token json p call s e id h
  handle-atomic p (Request.put_rates id input output) call s e h =
      put_rates-Atomic hash_api_token json p call s e id input output h
  handle-atomic p (Request.post_device name platform key) call s e h =
      post_device-Atomic hash_api_token json p call s e name platform key h
  handle-atomic p (Request.remove_device id) call s e h =
      remove_device-Atomic hash_api_token json p call s e id h
