-- ===== src/Api/Tun.antt =====
-- crates/api/src/tun_trait.rs and crates/api/src/handlers/admin/tun.rs. `S` is the state of whatever
-- implements the trait.
pub mod Toggle
use token_hub.Prelude.{
  ℕ, String, Bool, true, false, not, Option, none, some, unwrap_or, DbResult, ok, failed,
  if◌then◌else◌,
}
use Prim.Native.String.{◌++◌}
use token_hub.Domain.Principal.{Principal, is_super_admin}
use token_hub.Storage.AuditLog.{insert}
use token_hub.Api.Error.{ApiError}
use token_hub.Api.Auth.Token.{ApiResult}
use token_hub.Api.Admin.State.{AdminState, Call, database_error}

pub record TunStatus : Type 0 where
  pub active : Bool
  pub service_id : Option String
  pub url : Option String
  pub mode : String

pub record TunControl {ℓ} (S : Type ℓ) : Type ℓ where
  pub open_tun : S → DbResult TunStatus × S
  pub close_tun : S → DbResult (Unit {0}) × S
  pub status : S → TunStatus

-- `none`: there is no tunnel to show.
unfoldable pub tun_status {ℓ} :
    {S : Type ℓ} → Option (TunControl S) → Principal → S → ApiResult (Option TunStatus)
tun_status tun principal s =
    if not (is_super_admin principal) then ApiResult.denied ApiError.forbidden else elim tun [
      | none ↦ ApiResult.granted none
      | some control ↦ ApiResult.granted (some (control.status s))
    ]

-- `let _ = audit_repo.insert("admin", …)`.
abbrev tun_audit : Call → Principal → String → Option String → AdminState → AdminState
tun_audit call principal action detail a =
    let (_, audits) =
      insert call.audit_id "admin" (some principal.id) action none none detail none call.now
        a.audits in
    record a { audits = audits }

abbrev pub opened_detail : TunStatus → String
opened_detail status = "{\"service_id\":\"" ++ unwrap_or status.service_id "" ++ "\"}"

abbrev pub closed_status : TunStatus
closed_status = record { active = false; service_id = none; url = none; mode = "" }

-- An answer to a closing shows no mode.
unfoldable pub tun_toggle {ℓ} :
    {S : Type ℓ}
    → Option (TunControl S)
    → Principal
    → Call
    → S
    → AdminState
    → ApiResult TunStatus × S × AdminState
unfolding insert
tun_toggle tun principal call s a =
    if not (is_super_admin principal)
    then (ApiResult.denied ApiError.forbidden, s, a)
    else elim tun [
      | none ↦ (ApiResult.denied (ApiError.bad_request "tun 通道未配置（FRP_SERVER 未设置）"), s, a)
      | some control ↦
          if (control.status s).active
          then (let (r, s') = control.close_tun s in
              elim r [
                | failed ↦ (ApiResult.denied database_error, s', a)
                | ok _ ↦ (
                  ApiResult.granted closed_status,
                  s',
                  tun_audit call principal "tun.close" none a,
                )
              ])
          else (let (r, s') = control.open_tun s in
              elim r [
                | failed ↦ (ApiResult.denied database_error, s', a)
                | ok status ↦ (
                  ApiResult.granted status,
                  s',
                  tun_audit call principal "tun.open" (some (opened_detail status)) a,
                )
              ])
    ]
