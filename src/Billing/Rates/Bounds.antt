-- ===== src/Billing/Rates/Bounds.antt =====
-- crates/billing/src/rates.rs: what `compute_credits` charges, and why its sum cannot overflow.
use token_hub.Prelude.{ℕ, ◌+◌, ◌*◌, ◌/◌, ◌^◌, ◌≤◌, ◌<◌, ◌≡◌, refl, arith}
use token_hub.Prelude.Int.{ℤ, pos, negsuc, pos_part, neg_part, ◌+ℤ◌, ◌-ℤ◌, ◌≤ℤ◌, int_bounds, +ℤ_pos}
use token_hub.Prelude.I64.{
  IsI64, wrap64, wrap64_id, saturating_mul, saturating_mul-IsI64, saturating_mul_pos, div_trunc,
}
use token_hub.Billing.Rates.{UsageTokens, compute_credits}

-- The largest price of one side of a call.
abbrev pub side_max : ℕ
side_max = 2 ^ 63 / 1000

div_trunc_bounds :
    (z : ℤ)
    → IsI64 z
    → (pos_part (div_trunc z 1000) ≤ side_max) × (neg_part (div_trunc z 1000) ≤ side_max)
unfolding div_trunc ◌-ℤ◌
div_trunc_bounds (pos n) h = ground arith
div_trunc_bounds (negsuc n) h = ground arith

div_trunc_nonneg : (z : ℤ) → pos 0 ≤ℤ z → pos 0 ≤ℤ div_trunc z 1000
unfolding div_trunc ◌-ℤ◌
div_trunc_nonneg (pos n) h = ground arith
div_trunc_nonneg (negsuc n) h = absurd (omega arith)

-- Whatever the counts and the rates are, also negative ones, the products saturate and the final
-- sum does not wrap around: the price is the exact sum of its two sides, each within 2^63 / 1000.
pub compute_credits_no_wrap :
    (u : UsageTokens) (i o : ℤ)
    → let input = div_trunc (saturating_mul u.prompt_tokens i) 1000 in
      let output = div_trunc (saturating_mul u.completion_tokens o) 1000 in
      (compute_credits u i o ≡ input +ℤ output)
      × (pos_part (compute_credits u i o) ≤ 2 * side_max)
      × (neg_part (compute_credits u i o) ≤ 2 * side_max)
unfolding compute_credits
compute_credits_no_wrap u i o =
    let input = div_trunc (saturating_mul u.prompt_tokens i) 1000 in
    let output = div_trunc (saturating_mul u.completion_tokens o) 1000 in
    let bi = div_trunc_bounds _ (saturating_mul-IsI64 u.prompt_tokens i) in
    let bo = div_trunc_bounds _ (saturating_mul-IsI64 u.completion_tokens o) in
    let e : wrap64 (input +ℤ output) ≡ input +ℤ output =
      wrap64_id _ (omega int_bounds, omega int_bounds) in
    (e, rw e (omega int_bounds), rw e (omega int_bounds))

-- While the products fit in 64 bits, a call costs the two sides' products divided by 1000 and
-- rounded down, which is never more than the exact price and less than two credits below it.
pub compute_credits_price :
    (p c i o : ℕ)
    → p * i < 2 ^ 63
    → c * o < 2 ^ 63
    → (cost : ℕ) × (compute_credits
          (record { prompt_tokens = pos p; completion_tokens = pos c })
          (pos i)
          (pos o)
        ≡ pos cost)
      × (cost ≡ p * i / 1000 + c * o / 1000)
      × (1000 * cost ≤ p * i + c * o)
      × (p * i + c * o < 1000 * cost + 2000)
unfolding compute_credits div_trunc
compute_credits_price p c i o hi ho = (
  p * i / 1000 + c * o / 1000,
  rw (saturating_mul_pos p i hi, saturating_mul_pos c o ho, +ℤ_pos) (wrap64_id _ (omega arith)),
  refl,
  omega arith,
  omega arith,
)
