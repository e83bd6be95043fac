-- ===== src/Api/Chat/Queries.antt =====
-- crates/api/src/handlers/chat.rs: `list_models` and `get_usage`.
use token_hub.Prelude.{ℕ, String, Option, unwrap_or, map_option, List, map, keep, str_eq}
use token_hub.Prelude.Int.{ℤ, pos}
use token_hub.Prelude.I64.{add64}
use token_hub.Domain.Account.{Credits}
use token_hub.Domain.Principal.{Principal}
use token_hub.Domain.Provider.{LogicalModel}
use token_hub.Credits.Ledger as CreditsRepo
use token_hub.Storage.Model as ModelRepo
use token_hub.Storage.Usage as UsageLogRepo
use token_hub.Api.Chat.Request.{Db}

-- The names of the active models.
unfoldable pub list_models : Db → List String
unfolding ModelRepo.list
list_models db =
    map (λ (m : LogicalModel). m.logical_name)
      (keep (λ m. str_eq m.status "active") (ModelRepo.list db.models))

pub record UsageAnswer : Type 0 where
  pub total_credits : ℤ
  pub used_credits : ℤ
  pub remaining_credits : ℤ
  pub calls_this_month : ℤ

-- `used_or_zero`.
abbrev used_or_zero : Credits → ℤ
used_or_zero c = pos 0

-- `no_account` stands for the empty identifier of a caller without an account.
-- `none` is the panic of a read.
unfoldable pub get_usage :
    (real_value : ℤ → ℤ → List ℤ → Option ℤ) (no_account : ℕ)
    → Principal
    → (period : String) → Db
    → Option UsageAnswer
unfolding CreditsRepo.get UsageLogRepo.account_summary
get_usage real_value no_account principal period db =
    let account_id = unwrap_or principal.account_id no_account in
    let credits = CreditsRepo.get account_id db.ledger in
    map_option
      (λ (summary : ℤ × ℤ × ℤ × ℤ). record {
        total_credits =
            unwrap_or (map_option (λ (c : Credits). add64 c.balance (used_or_zero c)) credits)
              (pos 0);
        used_credits = summary.2;
        remaining_credits = unwrap_or (map_option (λ (c : Credits). c.balance) credits) (pos 0);
        calls_this_month = summary.3;
      })
      (UsageLogRepo.account_summary real_value account_id period db.usage)
