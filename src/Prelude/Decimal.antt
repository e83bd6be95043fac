-- ===== src/Prelude/Decimal.antt =====
-- Rust's `i64::to_string` and `str::parse::<i64>`, over the bytes of the text.
use Prim.Native.Nat.{ℕ, zero, suc, ◌+◌, ◌-◌, ◌*◌, ◌/◌, ◌%◌, ◌^◌, ◌<◌}
use mathlib.Core.Path.{◌≡◌, ◌∙◌, ap}
use mathlib.Core.Logic.{inl, inr}
use mathlib.Core.Bool.{Bool, true, ◌&&◌}
use mathlib.Core.Option.{Option, none, some}
use mathlib.Core.List.{List, [], ◌∷◌, ◌++◌}
use native.Mathlib.Omega.{arith}
use token_hub.Prelude.Tests.{ltb, leb, ◌==◌, if◌then◌else◌, Bool-cases}
use token_hub.Prelude.Int.{ℤ, pos, negsuc}
use token_hub.Prelude.I64.{IsI64}

abbrev pub Bytes : Type 0
Bytes = List ℕ

-- The digits of a number, the first one first. The number plus one is fuel enough.
digits : (fuel : ℕ) → ℕ → Bytes
digits zero n = []
digits (suc fuel) n =
    let front = digits fuel (n / 10) in
    if ltb n 10 then (b'0' + n) ∷ [] else front ++ (b'0' + n % 10) ∷ []

pub to_string : ℤ → Bytes
unfolding digits
to_string (pos n) = digits (suc n) n
to_string (negsuc n) = b'-' ∷ digits (suc (suc n)) (suc n)

abbrev is_digit : ℕ → Bool
is_digit c = leb b'0' c && leb c b'9'

-- The number that digits stand for, read on from `n`.
number : Bytes → ℕ → Option ℕ
number [] n = some n
number (c ∷ s) n = let rest = number s (n * 10 + (c - b'0')) in if is_digit c then rest else none

abbrev natural : Bytes → Option ℕ
natural [] = none
natural (c ∷ s) = number (c ∷ s) 0

-- In the range of an `i64`, or an error.
abbrev checked_pos : Option ℕ → Option ℤ
checked_pos none = none
checked_pos (some n) = if ltb n (2 ^ 63) then some (pos n) else none

abbrev checked_neg : Option ℕ → Option ℤ
checked_neg none = none
checked_neg (some zero) = some (pos 0)
checked_neg (some (suc n)) = if ltb n (2 ^ 63) then some (negsuc n) else none

pub parse : Bytes → Option ℤ
unfolding number
parse [] = none
parse (c ∷ s) =
    if c == b'-'
    then checked_neg (natural s)
    else if c == b'+'
    then checked_pos (natural s)
    else checked_pos (natural (c ∷ s))

-- Nonempty, and does not begin with a sign.
abbrev BeginsWithDigit : Bytes → Type 0
BeginsWithDigit [] = ⊥
BeginsWithDigit (c ∷ s) = is_digit c ≡ true

digit_last :
    (s : Bytes) (d n m : ℕ)
    → d < 10
    → number s n ≡ some m
    → number (s ++ (b'0' + d) ∷ []) n ≡ some (m * 10 + d)
unfolding number
digit_last [] d n m small e = ground arith
digit_last (c ∷ s) d n m small e = ground (arith, digit_last s d (n * 10 + (c - b'0')) m small)

number-digits : (fuel n : ℕ) → n < fuel → number (digits fuel n) 0 ≡ some n
unfolding digits number
number-digits zero n h = elim h [ ]
number-digits (suc fuel) n h = elim (Bool-cases (ltb n 10)) [
  | inl small ↦ rw small (ground arith)
  | inr large ↦ rw large (
      digit_last (digits fuel (n / 10)) (n % 10) 0 (n / 10) (omega arith)
        (number-digits fuel (n / 10) (ground arith))
      ∙ ap some (omega arith))
]

BeginsWithDigit-append : (s t : Bytes) → BeginsWithDigit s → BeginsWithDigit (s ++ t)
BeginsWithDigit-append [] t h = elim h [ ]
BeginsWithDigit-append (c ∷ s) t h = h

digits-BeginsWithDigit : (fuel n : ℕ) → n < fuel → BeginsWithDigit (digits fuel n)
unfolding digits
digits-BeginsWithDigit zero n h = elim h [ ]
digits-BeginsWithDigit (suc fuel) n h = elim (Bool-cases (ltb n 10)) [
  | inl small ↦ rw small (ground arith)
  | inr large ↦ rw large (
      BeginsWithDigit-append (digits fuel (n / 10)) _
        (digits-BeginsWithDigit fuel (n / 10) (ground arith)))
]

natural-number : (s : Bytes) (n : ℕ) → BeginsWithDigit s → number s 0 ≡ some n → natural s ≡ some n
natural-number [] n b e = elim b [ ]
natural-number (c ∷ s) n b e = e

parse-natural :
    (s : Bytes) (n : ℕ)
    → BeginsWithDigit s
    → natural s ≡ some n
    → n < 2 ^ 63
    → parse s ≡ some (pos n)
unfolding parse
parse-natural [] n b e small = elim b [ ]
parse-natural (c ∷ s) n b e small = ground (arith, e)

-- What is printed is read back.
pub parse-to_string : (z : ℤ) → IsI64 z → parse (to_string z) ≡ some z
unfolding to_string
parse-to_string (pos n) h =
    let starts = digits-BeginsWithDigit (suc n) n (omega arith) in
    parse-natural (digits (suc n) n) n starts
      (natural-number _ n starts (number-digits (suc n) n (omega arith))) (omega arith)
parse-to_string (negsuc n) h =
    let starts = digits-BeginsWithDigit (suc (suc n)) (suc n) (omega arith) in
    let read =
      natural-number _ (suc n) starts (number-digits (suc (suc n)) (suc n) (omega arith)) in
    unfold parse in rw read (ground arith)
