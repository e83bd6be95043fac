-- ===== src/Api/Admin/Providers.antt =====
-- crates/api/src/handlers/admin/providers.rs: the providers' credentials, their quotas, and the mappings.
-- `is_referenced`: a mapping names the provider.
use token_hub.Prelude.{
  ℕ, String, Bool, not, Option, none, some, is_some, List, any, map, ok, failed, ◌&&◌,
  if◌then◌else◌, ◌==◌,
}
use token_hub.Prelude.Int.{ℤ, pos, ltb_ℤ}
use token_hub.Domain.Principal.{Principal, Scope}
use token_hub.Domain.Provider.{ProviderCredential, ModelProvider}
use token_hub.Storage.Provider as ProviderRepo
use token_hub.Storage.Mapping as MappingRepo
use token_hub.Storage.Model.{model_row}
use token_hub.Api.Error.{ApiError}
use token_hub.Api.Auth.Token.{ApiResult}
use token_hub.Api.Admin.Credits.{may}
use token_hub.Api.Admin.State.{AdminState, Call, refuse, database_error, found_or, audited}

-- The view of a provider, in which its key is "****".
unfoldable pub mask_provider : ProviderCredential → ProviderCredential
mask_provider p = record p { api_key_enc = "****" }

unfoldable pub list_providers : Principal → AdminState → ApiResult (List ProviderCredential)
unfolding mask_provider
list_providers principal s =
    if not (may principal Scope.providers_read)
    then ApiResult.denied ApiError.forbidden
    else ApiResult.granted (map mask_provider (ProviderRepo.list s.providers))

pub record CreateProviderReq : Type 0 where
  pub name : String
  pub provider_type : String
  pub base_url : String
  pub api_key : String
  pub quota_limit : Option ℤ
  pub quota_threshold : ℤ

unfoldable pub create_provider :
    Principal → CreateProviderReq → Call → AdminState → ApiResult ProviderCredential × AdminState
unfolding ProviderRepo.create mask_provider audited
create_provider principal req call s =
    if not (may principal Scope.providers_write)
    then refuse ApiError.forbidden s
    else (let (made, providers) =
          ProviderRepo.create call.id req.name req.provider_type req.base_url req.api_key
            req.quota_limit req.quota_threshold call.now s.providers in
        elim made [
          | failed ↦ refuse database_error (record s { providers = providers })
          | ok p ↦ (
            ApiResult.granted (mask_provider p),
            audited call principal "provider.create" "provider" p.id none
                (record s { providers = providers }),
          )
        ])

pub record UpdateProviderReq : Type 0 where
  pub name : String
  pub base_url : String
  pub api_key : Option String
  pub quota_limit : Option ℤ
  pub quota_threshold : ℤ

-- An audit row where a provider was hit, not found where none was.
abbrev audited_if :
    Bool → Call → Principal → (action : String) → ℕ → AdminState → ApiResult (Unit {0}) × AdminState
audited_if hit call principal action id s =
    if hit
    then (ApiResult.granted tt, audited call principal action "provider" id none s)
    else refuse ApiError.not_found s

unfoldable pub update_provider :
    Principal → ℕ → UpdateProviderReq → Call → AdminState → ApiResult (Unit {0}) × AdminState
unfolding ProviderRepo.update audited
update_provider principal id req call s =
    if not (may principal Scope.providers_write)
    then refuse ApiError.forbidden s
    else (let (updated, providers) =
          ProviderRepo.update id req.name req.base_url req.api_key req.quota_limit
            req.quota_threshold call.now s.providers in
        audited_if updated call principal "provider.update" id (record s { providers = providers }))

abbrev pub is_referenced : ℕ → AdminState → Bool
is_referenced id s = any (λ m. m.provider_id == id) s.mappings

unfoldable pub delete_provider :
    Principal → ℕ → Call → AdminState → ApiResult (Unit {0}) × AdminState
unfolding ProviderRepo.delete audited
delete_provider principal id call s =
    if not (may principal Scope.providers_write)
    then refuse ApiError.forbidden s
    else (let (r, providers) = ProviderRepo.delete (is_referenced id s) id s.providers in
        elim r [
          | failed ↦ refuse database_error (record s { providers = providers })
          | ok deleted ↦
              audited_if deleted call principal "provider.delete" id
                (record s { providers = providers })
        ])

unfoldable pub disable_provider :
    Principal → ℕ → (reason : Option String) → Call → AdminState → ApiResult (Unit {0}) × AdminState
unfolding ProviderRepo.set_status audited
disable_provider principal id reason call s =
    if not (may principal Scope.providers_write)
    then refuse ApiError.forbidden s
    else (let (updated, providers) =
          ProviderRepo.set_status id "disabled" reason call.now s.providers in
        audited_if updated call principal "provider.disable" id
          (record s { providers = providers }))

unfoldable pub enable_provider :
    Principal → ℕ → Call → AdminState → ApiResult (Unit {0}) × AdminState
unfolding ProviderRepo.set_status
enable_provider principal id call s =
    if not (may principal Scope.providers_write)
    then refuse ApiError.forbidden s
    else (let (updated, providers) =
          ProviderRepo.set_status id "active" none call.now s.providers in
        (found_or updated tt, record s { providers = providers }))

-- The quota and a percentage. `percent used limit`: the quotient of the two floats, rounded.
unfoldable pub get_provider_usage :
    (percent : ℤ → ℤ → ℤ) → Principal → ℕ → AdminState → ApiResult (ProviderRepo.Quota × ℤ)
unfolding ProviderRepo.get_quota
get_provider_usage percent principal id s =
    if not (may principal Scope.providers_read)
    then ApiResult.denied ApiError.forbidden
    else elim (ProviderRepo.get_quota id s.providers) [
      | none ↦ ApiResult.denied ApiError.not_found
      | some (used, none, threshold, alert_sent) ↦
          ApiResult.granted ((used, none, threshold, alert_sent), pos 0)
      | some (used, some limit, threshold, alert_sent) ↦ ApiResult.granted (
        (used, some limit, threshold, alert_sent),
        if ltb_ℤ (pos 0) limit then percent used limit else pos 0,
      )
    ]

unfoldable pub sync_provider_quota :
    Principal → ℕ → (official_used : ℤ) → Call → AdminState → ApiResult (Unit {0}) × AdminState
unfolding ProviderRepo.get ProviderRepo.sync_quota
sync_provider_quota principal id official_used call s =
    if not (may principal Scope.providers_write)
    then refuse ApiError.forbidden s
    else if not (is_some (ProviderRepo.get id s.providers))
    then refuse ApiError.not_found s
    else (
      ApiResult.granted tt,
      record s { providers = ProviderRepo.sync_quota id official_used call.now s.providers },
    )

-- A stub: it finds the provider and synchronises nothing.
unfoldable pub sync_upstream_models : Principal → ℕ → AdminState → ApiResult (Unit {0})
unfolding ProviderRepo.get
sync_upstream_models principal id s =
    if not (may principal Scope.providers_write)
    then ApiResult.denied ApiError.forbidden
    else found_or (is_some (ProviderRepo.get id s.providers)) tt

unfoldable pub list_mappings :
    Principal → (logical_model_id : Option ℕ) → AdminState → ApiResult (List ModelProvider)
list_mappings principal logical_model_id s =
    if not (may principal Scope.providers_read)
    then ApiResult.denied ApiError.forbidden
    else elim logical_model_id [
      | none ↦ ApiResult.granted (MappingRepo.list_all s.mappings)
      | some id ↦ ApiResult.granted (MappingRepo.list_by_logical_model id s.mappings)
    ]

pub record CreateMapReq : Type 0 where
  pub logical_model_id : ℕ
  pub provider_id : ℕ
  pub upstream_model : String
  pub level : ℤ
  pub weight : ℤ
  pub strategy : String
  pub enabled : Bool

unfoldable pub create_mapping :
    Principal → CreateMapReq → Call → AdminState → ApiResult ModelProvider × AdminState
unfolding MappingRepo.create
create_mapping principal req call s =
    if not (may principal Scope.providers_write)
    then refuse ApiError.forbidden s
    else (let known =
          is_some (model_row req.logical_model_id s.models)
          && is_some (ProviderRepo.provider_row req.provider_id s.providers) in
        let (made, mappings) =
          MappingRepo.create known call.id req.logical_model_id req.provider_id req.upstream_model
            req.level req.weight req.strategy req.enabled call.now s.mappings in
        elim made [
          | failed ↦ refuse database_error (record s { mappings = mappings })
          | ok m ↦ (ApiResult.granted m, record s { mappings = mappings })
        ])

unfoldable pub update_mapping :
    Principal
    → (id : ℕ) (level weight : ℤ) (strategy : String) (enabled : Bool) → Call
    → AdminState
    → ApiResult (Unit {0}) × AdminState
unfolding MappingRepo.update
update_mapping principal id level weight strategy enabled call s =
    if not (may principal Scope.providers_write)
    then refuse ApiError.forbidden s
    else (let (updated, mappings) =
          MappingRepo.update id level weight strategy enabled call.now s.mappings in
        (found_or updated tt, record s { mappings = mappings }))

unfoldable pub delete_mapping : Principal → ℕ → AdminState → ApiResult (Unit {0}) × AdminState
unfolding MappingRepo.delete
delete_mapping principal id s =
    if not (may principal Scope.providers_write)
    then refuse ApiError.forbidden s
    else (let (deleted, mappings) = MappingRepo.delete id s.mappings in
        (found_or deleted tt, record s { mappings = mappings }))
