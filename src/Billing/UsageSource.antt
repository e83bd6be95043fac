-- ===== src/Billing/UsageSource.antt =====
-- crates/billing/src/usage_source.rs: the upstream's own count of tokens, or an estimate of it.
use token_hub.Prelude.{String, ◌||◌, Option, none, some, is_some, unwrap_or, if◌then◌else◌}
use token_hub.Prelude.Int.{ℤ, pos}
use token_hub.Domain.Usage.{UsageSource}
use token_hub.Billing.Rates.{UsageTokens}
use token_hub.Billing.Estimator.{Tokenizer, estimate_prompt_tokens}

pub record UpstreamUsage : Type 0 where
  pub prompt_tokens : Option ℤ
  pub completion_tokens : Option ℤ
  pub total_tokens : Option ℤ

pub record ResolvedUsage : Type 0 where
  pub tokens : UsageTokens
  pub source : UsageSource

-- The estimate at the end of `resolve_usage`.
estimated : Tokenizer → String → String → ResolvedUsage
estimated bpe prompt_text completion_text = record {
  tokens = record {
    prompt_tokens = estimate_prompt_tokens bpe prompt_text;
    completion_tokens = estimate_prompt_tokens bpe completion_text;
  };
  source = UsageSource.tiktoken_fallback;
}

unfoldable pub resolve_usage : Tokenizer → Option UpstreamUsage → String → String → ResolvedUsage
unfolding estimated
resolve_usage bpe none prompt_text completion_text = estimated bpe prompt_text completion_text
resolve_usage bpe (some u) prompt_text completion_text =
    if is_some u.prompt_tokens || is_some u.completion_tokens
    then record {
      tokens = record {
        prompt_tokens = unwrap_or u.prompt_tokens (pos 0);
        completion_tokens = unwrap_or u.completion_tokens (pos 0);
      };
      source = UsageSource.upstream;
    }
    else estimated bpe prompt_text completion_text
