-- ===== src/Api/Chat/Prices.antt =====
-- crates/api/src/handlers/chat.rs: the amount that is held and the cost that is charged are 64-bit
-- numbers, and not negative.
use token_hub.Prelude.{String, inl, inr, arith, Bool-cases}
use token_hub.Prelude.Int.{ℤ, pos, ltb_ℤ, ◌≤ℤ◌, max_ℤ}
use token_hub.Prelude.I64.{IsI64}
use token_hub.Domain.Provider.{LogicalModel}
use token_hub.Billing.Rates.{UsageTokens, compute_credits}
use token_hub.Billing.Rates.Bounds.{compute_credits_no_wrap}
use token_hub.Billing.Estimator.{Tokenizer}
use token_hub.Api.Chat.Request.{ChatResponse}
use token_hub.Api.Chat.Accounting.{est_credits, actual_credits, resolved}

compute_credits-IsI64 : (u : UsageTokens) (i o : ℤ) → IsI64 (compute_credits u i o)
compute_credits-IsI64 u i o = let b = compute_credits_no_wrap u i o in (omega arith, omega arith)

max_ℤ-IsI64 : (a b : ℤ) → IsI64 a → IsI64 b → IsI64 (max_ℤ a b)
max_ℤ-IsI64 a b h k = elim (Bool-cases (ltb_ℤ a b)) [ inl e ↦ rw e k | inr e ↦ rw e h ]

pub est_credits_pos :
    (bpe : Tokenizer) (prompt : String) (m : LogicalModel) → pos 1 ≤ℤ est_credits bpe prompt m
unfolding est_credits
est_credits_pos bpe prompt m = ground arith

pub actual_credits-IsI64 :
    (bpe : Tokenizer) (prompt : String) (m : LogicalModel) (r : ChatResponse)
    → IsI64 (actual_credits bpe prompt m r)
unfolding actual_credits
actual_credits-IsI64 bpe prompt m r =
    max_ℤ-IsI64 _ (pos 0)
      (compute_credits-IsI64 (resolved bpe prompt r).tokens m.input_rate_per_1k
        m.output_rate_per_1k)
      (omega arith)

pub actual_credits_nonneg :
    (bpe : Tokenizer) (prompt : String) (m : LogicalModel) (r : ChatResponse)
    → pos 0 ≤ℤ actual_credits bpe prompt m r
unfolding actual_credits
actual_credits_nonneg bpe prompt m r = ground arith
