-- ===== src/Api/Admin/Services.antt =====
-- crates/api/src/handlers/admin/services.rs. The new secret's text is an argument, its hash that of the
-- parameter.
use token_hub.Prelude.{
  ℕ, String, not, ◌||◌, Option, none, some, is_some, unwrap_or, List, [], ok, failed, if◌then◌else◌,
}
use token_hub.Prelude.Int.{pos}
use token_hub.Domain.Principal.{Principal, Scope}
use token_hub.Storage.ServiceAccount as ServiceAccountRepo
use token_hub.Storage.ServiceAccount.{ServiceAccountRecord, Services}
use token_hub.Api.Error.{ApiError}
use token_hub.Api.Auth.Token.{ApiResult}
use token_hub.Api.Admin.Credits.{may}
use token_hub.Api.Admin.State.{AdminState, Call, refuse, database_error, audited}

pub record CreateServiceReq : Type 0 where
  pub name : String
  pub scopes : List String
  pub ip_whitelist : Option (List String)

pub record UpdateServiceReq : Type 0 where
  pub scopes : Option (List String)
  pub ip_whitelist : Option (List String)
  pub status : Option String

unfoldable pub list_services : Principal → AdminState → ApiResult (List ServiceAccountRecord)
list_services principal s =
    if not (may principal Scope.services_read)
    then ApiResult.denied ApiError.forbidden
    else ApiResult.granted (ServiceAccountRepo.list (pos 100) (pos 0) s.services)

-- The record and the secret's text. The client's identifier is the service's.
unfoldable pub create_service :
    (hash_api_token : String → ℕ)
    → Principal
    → CreateServiceReq
    → (secret : String) → Call
    → AdminState
    → ApiResult (ServiceAccountRecord × String) × AdminState
unfolding ServiceAccountRepo.create audited
create_service hash_api_token principal req secret call s =
    if not (may principal Scope.services_write)
    then refuse ApiError.forbidden s
    else (let (made, services) =
          ServiceAccountRepo.create call.id call.id (hash_api_token secret) req.name req.scopes
            req.ip_whitelist call.now s.services in
        elim made [
          | failed ↦ refuse database_error (record s { services = services })
          | ok r ↦ (
            ApiResult.granted (r, secret),
            audited call principal "service.create" "service" r.id none
                (record s { services = services }),
          )
        ])

-- Whether there is such a service is not looked at. A list of addresses alone empties the scopes.
unfoldable pub update_service :
    Principal → ℕ → UpdateServiceReq → Call → AdminState → ApiResult (Unit {0}) × AdminState
unfolding ServiceAccountRepo.set_status ServiceAccountRepo.update_scopes_ips
update_service principal id req call s =
    if not (may principal Scope.services_write)
    then refuse ApiError.forbidden s
    else (let services1 : Services = elim req.status [
      | none ↦ s.services
      | some status ↦ (ServiceAccountRepo.set_status id status call.now s.services).1
    ] in
        let services2 =
          if is_some req.scopes || is_some req.ip_whitelist
          then (ServiceAccountRepo.update_scopes_ips id (unwrap_or req.scopes []) req.ip_whitelist
              call.now services1).1
          else services1 in
        (ApiResult.granted tt, record s { services = services2 }))

unfoldable pub delete_service :
    Principal → ℕ → Call → AdminState → ApiResult (Unit {0}) × AdminState
unfolding ServiceAccountRepo.set_status
delete_service principal id call s =
    if not (may principal Scope.services_write)
    then refuse ApiError.forbidden s
    else (let (_, services) = ServiceAccountRepo.set_status id "disabled" call.now s.services in
        (ApiResult.granted tt, record s { services = services }))

unfoldable pub reset_service_secret :
    (hash_api_token : String → ℕ)
    → Principal
    → (id : ℕ) (secret : String) → Call
    → AdminState
    → ApiResult String × AdminState
unfolding ServiceAccountRepo.reset_secret
reset_service_secret hash_api_token principal id secret call s =
    if not (may principal Scope.services_write)
    then refuse ApiError.forbidden s
    else (let (_, services) =
          ServiceAccountRepo.reset_secret id (hash_api_token secret) call.now s.services in
        (ApiResult.granted secret, record s { services = services }))
