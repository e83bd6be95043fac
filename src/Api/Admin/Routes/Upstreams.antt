-- ===== src/Api/Admin/Routes/Upstreams.antt =====
-- crates/api/src/handlers/admin/{providers,models,devices}.rs: a request that fails changes nothing.
use token_hub.Prelude.{ℕ, String, Bool, Option, none, some, unwrap_or, arith}
use token_hub.Prelude.Int.{ℤ}
use token_hub.Prelude.Table.{update_where_none, delete_where_none}
use token_hub.Domain.Principal.{Principal}
use token_hub.Api.Error.{ApiError}
use token_hub.Api.Admin.State.{AdminState, Call}
use token_hub.Storage.Provider.{has_id}
use token_hub.Storage.Mapping.{is_mapping, map_strategy}
use token_hub.Storage.Model.{is_model}
use token_hub.Storage.Provider as ProviderRepo
use token_hub.Storage.Mapping as MappingRepo
use token_hub.Storage.Model as ModelRepo
use token_hub.Api.Admin.Models.{CreateModelReq, UpdateModelReq}
use token_hub.Api.Admin.Providers.{CreateProviderReq, UpdateProviderReq, CreateMapReq}
use token_hub.Domain.Provider.{ProviderStatus}
use token_hub.Api.Admin.Providers.{
  create_provider, update_provider, delete_provider, disable_provider, enable_provider,
  sync_provider_quota, create_mapping, update_mapping, delete_mapping,
}
use token_hub.Api.Admin.Models.{Detail, create_model, update_model, delete_model, set_rates}
use token_hub.Api.Admin.Devices.{register_device, delete_device}
use token_hub.Api.Admin.Routes.{Request, handle}
use token_hub.Api.Admin.Routes.Access.{Atomic}

module _ (hash_api_token : String → ℕ) (json : Detail → String) (p : Principal) (call : Call)
    (s : AdminState) (e : ApiError) where
  pub post_provider-Atomic :
      (req : CreateProviderReq) → Atomic hash_api_token json p call s e (Request.post_provider req)
  unfolding handle create_provider ProviderRepo.create
  post_provider-Atomic req h = ground (arith, h)

  pub put_provider-Atomic :
      (id : ℕ) (req : UpdateProviderReq)
      → Atomic hash_api_token json p call s e (Request.put_provider id req)
  unfolding handle update_provider ProviderRepo.update
  put_provider-Atomic id req h = ground (
    arith,
    h,
    update_where_none (has_id id)
        (λ q. record q {
          name = req.name;
          base_url = req.base_url;
          api_key_enc = unwrap_or req.api_key q.api_key_enc;
          quota_limit = req.quota_limit;
          quota_threshold = req.quota_threshold;
          updated_at = call.now;
        })
        s.providers,
  )

  pub remove_provider-Atomic :
      (id : ℕ) → Atomic hash_api_token json p call s e (Request.remove_provider id)
  unfolding handle delete_provider ProviderRepo.delete
  remove_provider-Atomic id h = ground (arith, h, delete_where_none (has_id id) s.providers)

  pub post_provider_disable-Atomic :
      (id : ℕ) (reason : Option String)
      → Atomic hash_api_token json p call s e (Request.post_provider_disable id reason)
  unfolding handle disable_provider ProviderRepo.set_status
  post_provider_disable-Atomic id reason h = ground (
    arith,
    h,
    update_where_none (has_id id)
        (λ q. record q {
          status = ProviderStatus.disabled;
          disabled_reason = reason;
          disabled_at = some call.now;
          updated_at = call.now;
        })
        s.providers,
  )

  pub post_provider_enable-Atomic :
      (id : ℕ) → Atomic hash_api_token json p call s e (Request.post_provider_enable id)
  unfolding handle enable_provider ProviderRepo.set_status
  post_provider_enable-Atomic id h = ground (
    arith,
    h,
    update_where_none (has_id id)
        (λ q. record q {
          status = ProviderStatus.active;
          disabled_reason = none;
          disabled_at = none;
          updated_at = call.now;
        })
        s.providers,
  )

  pub post_provider_quota-Atomic :
      (id : ℕ) (used : ℤ)
      → Atomic hash_api_token json p call s e (Request.post_provider_quota id used)
  unfolding handle sync_provider_quota
  post_provider_quota-Atomic id used h = ground (arith, h)

  pub post_mapping-Atomic :
      (req : CreateMapReq) → Atomic hash_api_token json p call s e (Request.post_mapping req)
  unfolding handle create_mapping MappingRepo.create
  post_mapping-Atomic req h = ground (arith, h)

  pub put_mapping-Atomic :
      (id : ℕ) (level weight : ℤ) (strategy : String) (enabled : Bool)
      → Atomic hash_api_token json p call s e (Request.put_mapping id level weight strategy enabled)
  unfolding handle update_mapping MappingRepo.update
  put_mapping-Atomic id level weight strategy enabled h = ground (
    arith,
    h,
    update_where_none (is_mapping id)
        (λ m. record m {
          level = level;
          weight = weight;
          strategy = map_strategy strategy;
          enabled = enabled;
        })
        s.mappings,
  )

  pub remove_mapping-Atomic :
      (id : ℕ) → Atomic hash_api_token json p call s e (Request.remove_mapping id)
  unfolding handle delete_mapping MappingRepo.delete
  remove_mapping-Atomic id h = ground (arith, h, delete_where_none (is_mapping id) s.mappings)

  pub post_model-Atomic :
      (req : CreateModelReq) → Atomic hash_api_token json p call s e (Request.post_model req)
  unfolding handle create_model ModelRepo.create
  post_model-Atomic req h = ground (arith, h)

  pub put_model-Atomic :
      (id : ℕ) (req : UpdateModelReq)
      → Atomic hash_api_token json p call s e (Request.put_model id req)
  unfolding handle update_model ModelRepo.update
  put_model-Atomic id req h = ground (
    arith,
    h,
    update_where_none (is_model id)
        (λ m. record m {
          logical_name = req.logical_name;
          description = req.description;
          input_rate_per_1k = req.input_rate_per_1k;
          output_rate_per_1k = req.output_rate_per_1k;
          status = req.status;
          updated_at = call.now;
        })
        s.models,
  )

  pub remove_model-Atomic :
      (id : ℕ) → Atomic hash_api_token json p call s e (Request.remove_model id)
  unfolding handle delete_model ModelRepo.delete
  remove_model-Atomic id h = ground (arith, h, delete_where_none (is_model id) s.models)

  pub put_rates-Atomic :
      (id : ℕ) (input output : ℤ)
      → Atomic hash_api_token json p call s e (Request.put_rates id input output)
  unfolding handle set_rates ModelRepo.set_rates ModelRepo.get
  put_rates-Atomic id input output h = ground (
    arith,
    h,
    update_where_none (is_model id)
        (λ m. record m {
          input_rate_per_1k = input;
          output_rate_per_1k = output;
          updated_at = call.now;
        })
        s.models,
  )

  pub post_device-Atomic :
      (name : String) (platform : Option String) (key : String)
      → Atomic hash_api_token json p call s e (Request.post_device name platform key)
  unfolding handle register_device
  post_device-Atomic name platform key h = ground (arith, h)

  pub remove_device-Atomic :
      (id : ℕ) → Atomic hash_api_token json p call s e (Request.remove_device id)
  unfolding handle delete_device
  remove_device-Atomic id h = ground (arith, h)
