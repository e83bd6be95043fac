-- ===== src/Domain/Usage.antt =====
-- crates/domain/src/usage.rs: the source of a count of tokens, and the log of a call.
use token_hub.Prelude.{ℕ, String, Option, ◌≡◌, refl, str_eq, if◌then◌else◌}
use token_hub.Prelude.Int.{ℤ}

pub data UsageSource : Type 0 where
  upstream tiktoken_fallback : UsageSource

unfoldable pub as_str : UsageSource → String
as_str UsageSource.upstream = "upstream"
as_str UsageSource.tiktoken_fallback = "tiktoken_fallback"

unfoldable pub from_db : String → UsageSource
from_db s =
    if str_eq s "tiktoken_fallback" then UsageSource.tiktoken_fallback else UsageSource.upstream

-- What the log says of the source of a count is read back as it was written.
pub from_db-as_str : (s : UsageSource) → from_db (as_str s) ≡ s
unfolding from_db as_str
from_db-as_str UsageSource.upstream = refl
from_db-as_str UsageSource.tiktoken_fallback = refl

pub record UsageLog : Type 0 where
  pub id : ℕ
  pub account_id : ℕ
  pub logical_model : String
  pub provider_id : Option ℕ
  pub upstream_model : Option String
  pub prompt_tokens : Option ℤ
  pub completion_tokens : Option ℤ
  pub total_tokens : Option ℤ
  pub credits_cost : ℤ
  pub usage_source : UsageSource
  pub status : String
  pub source_ip : Option String
  pub created_at : ℤ
