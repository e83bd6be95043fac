-- ===== src/Prelude/I64.antt =====
-- Rust's `i64`: an integer of which every operation wraps around (a build with overflow checks
-- panics there instead), and the saturating product.
use token_hub.Prelude.Tests.{ltb, if◌then◌else◌}
use token_hub.Prelude.Int.{ℤ, pos, negsuc, pos_part, neg_part, ◌+ℤ◌, ◌-ℤ◌, ◌*ℤ◌, ltb_ℤ}
use Prim.Native.Nat.{ℕ, suc, ◌-◌, ◌*◌, ◌/◌, ◌%◌, ◌^◌, ◌≤◌, ◌<◌}
use mathlib.Core.Bool.{true}
use mathlib.Core.Path.{◌≡◌}
use native.Mathlib.Omega.{arith}

abbrev pub i64_max : ℤ
i64_max = pos (2 ^ 63 - 1)

abbrev pub i64_min : ℤ
i64_min = negsuc (2 ^ 63 - 1)

abbrev pub IsI64 : ℤ → Type 0
IsI64 z = (pos_part z < 2 ^ 63) × (neg_part z ≤ 2 ^ 63)

-- The 64 bits of an integer, and the integer that 64 bits stand for.
abbrev bits : ℤ → ℕ
bits (pos n) = n % 2 ^ 64
bits (negsuc n) = 2 ^ 64 - 1 - n % 2 ^ 64

abbrev of_bits : ℕ → ℤ
of_bits u = if ltb u (2 ^ 63) then pos u else negsuc (2 ^ 64 - 1 - u)

unfoldable pub wrap64 : ℤ → ℤ
wrap64 z = of_bits (bits z)

pub wrap64_id : (z : ℤ) → IsI64 z → wrap64 z ≡ z
unfolding wrap64
wrap64_id (pos n) h = ground arith
wrap64_id (negsuc n) h = ground arith

pub wrap64-IsI64 : (z : ℤ) → IsI64 (wrap64 z)
unfolding wrap64
wrap64-IsI64 (pos n) = ground arith
wrap64-IsI64 (negsuc n) = ground arith

-- A wrapped sum that is not negative has not wrapped.
pub wrap64_nonneg :
    (z : ℤ) → pos_part z < 2 ^ 64 → neg_part z ≤ 2 ^ 63 → neg_part (wrap64 z) ≡ 0 → wrap64 z ≡ z
unfolding wrap64
wrap64_nonneg (pos n) u w h = ground arith
wrap64_nonneg (negsuc n) u w h = ground arith

abbrev pub add64 : ℤ → ℤ → ℤ
add64 a b = wrap64 (a +ℤ b)

abbrev pub sub64 : ℤ → ℤ → ℤ
sub64 a b = wrap64 (a -ℤ b)

abbrev pub mul64 : ℤ → ℤ → ℤ
mul64 a b = wrap64 (a *ℤ b)

-- `i64::saturating_mul`.
unfoldable pub saturating_mul : ℤ → ℤ → ℤ
saturating_mul a b =
    let p = a *ℤ b in if ltb_ℤ p i64_min then i64_min else if ltb_ℤ i64_max p then i64_max else p

pub saturating_mul-IsI64 : (a b : ℤ) → IsI64 (saturating_mul a b)
unfolding saturating_mul
saturating_mul-IsI64 a b = ground arith

pub saturating_mul_pos : (a b : ℕ) → a * b < 2 ^ 63 → saturating_mul (pos a) (pos b) ≡ pos (a * b)
unfolding saturating_mul ◌*ℤ◌
saturating_mul_pos a b h = ground arith

-- `a / d`, which rounds towards zero. The program divides by positive numbers only.
abbrev negate : ℕ → ℤ
negate n = pos 0 -ℤ pos n

unfoldable pub div_trunc : ℤ → ℕ → ℤ
div_trunc (pos n) d = pos (n / d)
div_trunc (negsuc n) d = negate (suc n / d)

-- A sum of two numbers that are not negative, past the largest one, is taken for a negative number.
pub wrap64_over : (n : ℕ) → 2 ^ 63 ≤ n → n < 2 ^ 64 → ltb_ℤ (wrap64 (pos n)) (pos 0) ≡ true
unfolding wrap64
wrap64_over n low high = ground arith

-- A difference below the smallest number is taken for a positive one.
pub wrap64_under : (n : ℕ) → 2 ^ 63 ≤ n → n < 2 ^ 64 → wrap64 (negsuc n) ≡ pos (2 ^ 64 - 1 - n)
unfolding wrap64
wrap64_under n low high = ground arith
