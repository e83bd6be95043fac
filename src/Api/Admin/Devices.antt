-- ===== src/Api/Admin/Devices.antt =====
-- crates/api/src/handlers/admin/devices.rs. The new key's text is an argument.
use token_hub.Prelude.{
  ℕ, String, not, Option, none, is_some, List, [], ◌∷◌, ◌++◌, if◌then◌else◌, ◌==◌,
}
use token_hub.Prelude.Int.{ℤ, leb_ℤ}
use token_hub.Prelude.Sort.{sort_by}
use token_hub.Prelude.Table.{row, rows_affected, delete_where}
use token_hub.Domain.Principal.{Principal, is_super_admin}
use token_hub.Api.Error.{ApiError}
use token_hub.Api.Auth.Token.{ApiResult}
use token_hub.Api.Admin.State.{AdminState, Call, Device, refuse, database_error, audited}

-- Without the hash of its key.
pub record DeviceItem : Type 0 where
  pub device_id : ℕ
  pub name : String
  pub platform : Option String
  pub status : String
  pub created_at : ℤ
  pub last_seen_at : Option ℤ

abbrev shown : List Device → List DeviceItem
shown [] = []
shown (d ∷ devices) =
    record {
      device_id = d.device_id;
      name = d.name;
      platform = d.platform;
      status = d.status;
      created_at = d.created_at;
      last_seen_at = d.last_seen_at;
    }
    ∷ shown devices

unfoldable pub list_devices : Principal → AdminState → ApiResult (List DeviceItem)
list_devices principal s =
    if not (is_super_admin principal)
    then ApiResult.denied ApiError.forbidden
    else ApiResult.granted (shown (sort_by (λ d e. leb_ℤ e.created_at d.created_at) s.devices))

-- The identifier, the key's text and the name.
unfoldable pub register_device :
    (hash_api_token : String → ℕ)
    → Principal
    → (name : String) (platform : Option String) (device_key : String) → Call
    → AdminState
    → ApiResult (ℕ × String × String) × AdminState
unfolding audited
register_device hash_api_token principal name platform device_key call s =
    if not (is_super_admin principal)
    then refuse ApiError.forbidden s
    else if is_some (row (λ d. d.device_id) call.id s.devices)
    then refuse database_error s
    else (
      ApiResult.granted (call.id, device_key, name),
      audited call principal "device.register" "device" call.id none (record s {
        devices =
            s.devices
            ++ record {
              device_id = call.id;
              device_key_hash = hash_api_token device_key;
              name = name;
              platform = platform;
              status = "active";
              created_at = call.now;
              last_seen_at = none;
            }
              ∷ [];
      }),
    )

unfoldable pub delete_device : Principal → ℕ → AdminState → ApiResult (Unit {0}) × AdminState
delete_device principal device_id s =
    if not (is_super_admin principal)
    then refuse ApiError.forbidden s
    else if rows_affected (λ d. d.device_id == device_id) s.devices == 0
    then refuse ApiError.not_found s
    else (
      ApiResult.granted tt,
      record s { devices = delete_where (λ d. d.device_id == device_id) s.devices },
    )
