-- ===== src/Billing/Rates.antt =====
-- crates/billing/src/rates.rs.
pub mod Bounds
use token_hub.Prelude.Int.{ℤ}
use token_hub.Prelude.I64.{add64, saturating_mul, div_trunc}

pub record UsageTokens : Type 0 where
  pub prompt_tokens : ℤ
  pub completion_tokens : ℤ

unfoldable pub total : UsageTokens → ℤ
total u = add64 u.prompt_tokens u.completion_tokens

unfoldable pub compute_credits : UsageTokens → ℤ → ℤ → ℤ
compute_credits usage input_rate_per_1k output_rate_per_1k =
    let input_credits = div_trunc (saturating_mul usage.prompt_tokens input_rate_per_1k) 1000 in
    let output_credits =
      div_trunc (saturating_mul usage.completion_tokens output_rate_per_1k) 1000 in
    add64 input_credits output_credits
