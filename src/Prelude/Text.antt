-- ===== src/Prelude/Text.antt =====
-- What the program uses of Rust's `str`: lower case, `contains`, `join`, and a number in decimal.
use Prim.Native.Nat.{ℕ, zero, suc, ◌+◌, ◌/◌, ◌%◌}
use Prim.Native.Char.{code}
use Prim.Native.String.{String, ◌++◌}
use mathlib.Core.Bool.{Bool, true, false, ◌&&◌, ◌||◌}
use mathlib.Core.List.{List, [], ◌∷◌, map}
use token_hub.Prelude.Tests.{ltb, leb, ◌==◌, if◌then◌else◌}

-- The code points of a text in lower case. Only ASCII letters are changed: the program looks for
-- ASCII words, and of the other letters only U+0130 and U+212A have an ASCII letter in their lower
-- case, `i` with a combining dot behind it and `k`, which belong to no occurrence of those words.
abbrev lower : ℕ → ℕ
lower c = if leb b'A' c && leb c b'Z' then c + 32 else c

abbrev codes : String → List ℕ
codes String.[] = []
codes (String.◌∷◌ c s) = code c ∷ codes s

abbrev begins : List ℕ → List ℕ → Bool
begins t [] = true
begins [] (y ∷ w) = false
begins (x ∷ t) (y ∷ w) = x == y && begins t w

abbrev occurs : List ℕ → List ℕ → Bool
occurs [] w = begins [] w
occurs (x ∷ t) w = begins (x ∷ t) w || occurs t w

-- `body.to_lowercase().contains(word)`.
unfoldable pub mentions : String → String → Bool
mentions body word = occurs (map lower (codes body)) (codes word)

-- `join`.
abbrev pub join : String → List String → String
join separator [] = ""
join separator (s ∷ []) = s
join separator (s ∷ t ∷ rest) = s ++ separator ++ join separator (t ∷ rest)

abbrev digit : ℕ → String
digit d =
    if d == 0
    then "0"
    else if d == 1
    then "1"
    else if d == 2
    then "2"
    else if d == 3
    then "3"
    else if d == 4
    then "4"
    else if d == 5
    then "5"
    else if d == 6
    then "6"
    else if d == 7
    then "7"
    else if d == 8
    then "8"
    else "9"

-- At most as many digits as there is fuel: five are enough for a `u16`.
unfoldable pub decimal : (fuel : ℕ) → ℕ → String
decimal zero n = ""
decimal (suc fuel) n =
    let front = decimal fuel (n / 10) in if ltb n 10 then digit n else front ++ digit (n % 10)

-- `chars().take(n).collect()`.
abbrev pub text_take : ℕ → String → String
text_take zero s = ""
text_take (suc n) String.[] = ""
text_take (suc n) (String.◌∷◌ c s) = String.◌∷◌ c (text_take n s)
