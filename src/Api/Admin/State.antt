-- ===== src/Api/Admin/State.antt =====
-- crates/api/src/state.rs: the tables on which the administrators' handlers work, and what they share:
-- the guard, the new identifiers and times of a call, and the row that a call leaves in the audit log.
use token_hub.Prelude.{ℕ, String, Bool, true, false, Option, none, some, List}
use token_hub.Prelude.Int.{ℤ}
use token_hub.Domain.Principal.{Principal}
use token_hub.Credits.Ledger.{Ledger}
use token_hub.Storage.Account.{Accounts}
use token_hub.Storage.Token.{Tokens}
use token_hub.Storage.Policy.{Policies}
use token_hub.Storage.ServiceAccount.{Services}
use token_hub.Storage.Provider.{Providers}
use token_hub.Storage.Mapping.{Mappings}
use token_hub.Storage.Model.{Models}
use token_hub.Storage.Usage.{UsageTables}
use token_hub.Storage.AuditLog.{AuditLogs, insert}
use token_hub.Api.Error.{ApiError}
use token_hub.Api.Auth.Token.{ApiResult}

-- A row of device_credentials.
pub record Device : Type 0 where
  pub device_id : ℕ
  pub device_key_hash : ℕ
  pub name : String
  pub platform : Option String
  pub status : String
  pub created_at : ℤ
  pub last_seen_at : Option ℤ

pub record AdminState : Type 0 where
  pub accounts : Accounts
  pub ledger : Ledger
  pub tokens : Tokens
  pub policies : Policies
  pub services : Services
  pub providers : Providers
  pub mappings : Mappings
  pub models : Models
  pub usage : UsageTables
  pub devices : List Device
  pub audits : AuditLogs

-- The random identifiers of a call, for a new row and for its audit row, and the clock.
pub record Call : Type 0 where
  pub id : ℕ
  pub audit_id : ℕ
  pub now : ℤ

abbrev pub refuse {ℓ} : {A : Type ℓ} → ApiError → AdminState → ApiResult A × AdminState
refuse e s = (ApiResult.denied e, s)

-- `?` on a result of a repository.
abbrev pub database_error : ApiError
database_error = ApiError.internal none

-- `let _ = audit_repo.insert("admin", …)`: an error is ignored.
unfoldable pub audited :
    Call
    → Principal
    → (action target_type : String) (target_id : ℕ) (detail : Option String) → AdminState
    → AdminState
unfolding insert
audited call principal action target_type target_id detail s =
    let (_, audits) =
      insert call.audit_id "admin" (some principal.id) action (some target_type) (some target_id)
        detail none call.now s.audits in
    record s { audits = audits }

-- `rows_affected() > 0`, or not found.
abbrev pub found_or {ℓ} : {A : Type ℓ} → Bool → A → ApiResult A
found_or hit a = elim hit [
  | true ↦ ApiResult.granted a
  | false ↦ ApiResult.denied ApiError.not_found
]
