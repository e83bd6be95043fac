-- ===== src/Billing/Tests.antt =====
-- crates/billing: the theorems on prices at small inputs.
use token_hub.Prelude.{ℕ, ◌+◌, ◌*◌, ◌/◌, ◌≤◌, ◌<◌, ◌≡◌, arith}
use token_hub.Prelude.Int.{pos}
use token_hub.Billing.Rates.{compute_credits}
use token_hub.Billing.Rates.Bounds.{compute_credits_price}

-- 1500 tokens of the prompt at 10, 400 of the completion at 30.
compute_credits_price_example :
    (cost : ℕ) × (compute_credits
        (record { prompt_tokens = pos 1500; completion_tokens = pos 400 })
        (pos 10)
        (pos 30)
      ≡ pos cost)
    × (cost ≡ 1500 * 10 / 1000 + 400 * 30 / 1000)
    × (1000 * cost ≤ 1500 * 10 + 400 * 30)
    × (1500 * 10 + 400 * 30 < 1000 * cost + 2000)
compute_credits_price_example = compute_credits_price 1500 400 10 30 (omega arith) (omega arith)
