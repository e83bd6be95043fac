-- ===== src/Api/Admin/Reports.antt =====
-- crates/api/src/handlers/admin/reports.rs. The current period is an argument.
use token_hub.Prelude.{
  ℕ, zero, suc, String, Bool, false, not, Option, none, some, unwrap_or, map_option, List, [], ◌∷◌,
  map, if◌then◌else◌,
}
use token_hub.Prelude.Int.{ℤ, pos, negsuc, ltb_ℤ}
use token_hub.Prelude.I64.{add64, mul64, div_trunc}
use token_hub.Domain.Account.{Account}
use token_hub.Domain.Principal.{Principal, Scope}
use token_hub.Domain.Provider.{ProviderCredential, ProviderStatus}
use token_hub.Domain.Usage.{UsageLog}
use token_hub.Storage.Account as AccountRepo
use token_hub.Storage.Provider as ProviderRepo
use token_hub.Storage.Usage as UsageLogRepo
use token_hub.Storage.Usage.{UsageTables}
use token_hub.Storage.AuditLog as AuditLogRepo
use token_hub.Storage.AuditLog.{AuditLogRecord}
use token_hub.Api.Error.{ApiError}
use token_hub.Api.Auth.Token.{ApiResult}
use token_hub.Api.Admin.Credits.{may}
use token_hub.Api.Admin.State.{AdminState}

pub record AccountLine : Type 0 where
  pub account_id : ℕ
  pub external_id : Option ℕ
  pub prompt_tokens : ℤ
  pub completion_tokens : ℤ
  pub credits : ℤ
  pub calls : ℤ

-- The loop over the accounts: a line for each that has made a call. `none` is the panic of a read.
unfoldable pub account_lines :
    (real_value : ℤ → ℤ → List ℤ → Option ℤ)
    → String
    → UsageTables
    → List Account
    → Option (List AccountLine)
unfolding UsageLogRepo.account_summary
account_lines real_value period t [] = some []
account_lines real_value period t (a ∷ accounts) =
    let rest = account_lines real_value period t accounts in
    elim (UsageLogRepo.account_summary real_value a.id period t) [
      | none ↦ none
      | some (p, c, credits, calls) ↦
          if ltb_ℤ (pos 0) calls
          then map_option
              (λ lines.
                record {
                  account_id = a.id;
                  external_id = a.external_id;
                  prompt_tokens = p;
                  completion_tokens = c;
                  credits = credits;
                  calls = calls;
                }
                ∷ lines)
              rest
          else rest
    ]

-- `sum`, from the first to the last.
abbrev pub sum_from : ℤ → List ℤ → ℤ
sum_from acc [] = acc
sum_from acc (z ∷ zs) = sum_from (add64 acc z) zs

pub record UsageReport : Type 0 where
  pub period : String
  pub total_credits : ℤ
  pub total_calls : ℤ
  pub by_account : List AccountLine

unfoldable pub report_usage :
    (real_value : ℤ → ℤ → List ℤ → Option ℤ) (current_period : String)
    → Principal
    → (period : Option String) → AdminState
    → Option (ApiResult UsageReport)
unfolding AccountRepo.list account_lines
report_usage real_value current_period principal period s =
    if not (may principal Scope.reports_read)
    then some (ApiResult.denied ApiError.forbidden)
    else (let chosen = unwrap_or period current_period in
        map_option
          (λ by_account. ApiResult.granted (record {
            period = chosen;
            total_credits = sum_from (pos 0) (map (λ l. l.credits) by_account);
            total_calls = sum_from (pos 0) (map (λ l. l.calls) by_account);
            by_account = by_account;
          }))
          (account_lines real_value chosen s.usage
            (AccountRepo.list none (pos 1000) (pos 0) s.accounts)))

pub record ProviderLine : Type 0 where
  pub provider_id : ℕ
  pub name : String
  pub status : String
  pub tokens_used : ℤ
  pub quota_used : ℤ
  pub quota_limit : Option ℤ
  pub quota_percentage : ℤ
  pub alert_sent : Bool

-- `if l > 0 { used * 100 / l } else { 0 }`, and 0 without a limit.
unfoldable pub percentage : ℤ → Option ℤ → ℤ
percentage used none = pos 0
percentage used (some (negsuc l)) = pos 0
percentage used (some (pos zero)) = pos 0
percentage used (some (pos (suc l))) = div_trunc (mul64 used (pos 100)) (suc l)

abbrev status_of : ProviderStatus → String
status_of ProviderStatus.active = "active"
status_of ProviderStatus.disabled = "disabled"

-- `none` is the panic of a read.
unfoldable pub provider_line :
    (real_value : ℤ → ℤ → List ℤ → Option ℤ)
    → String
    → AdminState
    → ProviderCredential
    → Option ProviderLine
unfolding UsageLogRepo.provider_summary ProviderRepo.get_quota percentage
provider_line real_value period s p =
    let (used, limit, threshold, alert_sent) =
      unwrap_or (ProviderRepo.get_quota p.id s.providers) (pos 0, none, pos 80, false) in
    map_option
      (λ tokens. record {
        provider_id = p.id;
        name = p.name;
        status = status_of p.status;
        tokens_used = tokens;
        quota_used = used;
        quota_limit = limit;
        quota_percentage = percentage used limit;
        alert_sent = alert_sent;
      })
      (UsageLogRepo.provider_summary real_value p.id period s.usage)

-- The loop over the providers.
abbrev provider_lines :
    (real_value : ℤ → ℤ → List ℤ → Option ℤ)
    → String
    → AdminState
    → List ProviderCredential
    → Option (List ProviderLine)
provider_lines real_value period s [] = some []
provider_lines real_value period s (p ∷ providers) =
    let rest = provider_lines real_value period s providers in
    elim (provider_line real_value period s p) [
      | none ↦ none
      | some line ↦ map_option (λ lines. line ∷ lines) rest
    ]

unfoldable pub report_cost :
    (real_value : ℤ → ℤ → List ℤ → Option ℤ) (current_period : String)
    → Principal
    → (period : Option String) → AdminState
    → Option (ApiResult (String × List ProviderLine))
unfolding provider_line
report_cost real_value current_period principal period s =
    if not (may principal Scope.reports_read)
    then some (ApiResult.denied ApiError.forbidden)
    else (let chosen = unwrap_or period current_period in
        map_option (λ lines. ApiResult.granted (chosen, lines))
          (provider_lines real_value chosen s (ProviderRepo.list s.providers)))

unfoldable pub audit_logs :
    Principal
    → (actor_kind action : Option String) (limit offset : Option ℤ) → AdminState
    → ApiResult (List AuditLogRecord)
unfolding AuditLogRepo.list
audit_logs principal actor_kind action limit offset s =
    if not (may principal Scope.audit_read)
    then ApiResult.denied ApiError.forbidden
    else ApiResult.granted (
        AuditLogRepo.list actor_kind action (unwrap_or limit (pos 50)) (unwrap_or offset (pos 0))
          s.audits)

unfoldable pub usage_logs :
    Principal
    → (account_id provider_id : Option ℕ) (limit offset : Option ℤ) → AdminState
    → ApiResult (List UsageLog)
unfolding UsageLogRepo.list
usage_logs principal account_id provider_id limit offset s =
    if not (may principal Scope.reports_read)
    then ApiResult.denied ApiError.forbidden
    else ApiResult.granted (
        UsageLogRepo.list account_id provider_id (unwrap_or limit (pos 50))
          (unwrap_or offset (pos 0)) s.usage)
