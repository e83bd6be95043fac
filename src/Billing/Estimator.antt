-- ===== src/Billing/Estimator.antt =====
-- crates/billing/src/estimator.rs. The tokenizer of `tiktoken_rs` is a parameter: `none` if its
-- tables cannot be loaded, and otherwise the number of tokens of a text.
use token_hub.Prelude.{ℕ, String, Option, none, some, List, [], ◌∷◌, length}
use token_hub.Prelude.Int.{ℤ, pos, ◌*ℤ◌}
use token_hub.Prelude.I64.{wrap64, add64}
use Prim.Native.String.{count}

abbrev pub Tokenizer : Type 0
Tokenizer = Option (String → ℕ)

-- `usize as i64`.
abbrev as_i64 : ℕ → ℤ
as_i64 n = wrap64 (pos n)

unfoldable pub estimate_prompt_tokens : Tokenizer → String → ℤ
estimate_prompt_tokens none text = as_i64 (count text)
estimate_prompt_tokens (some encode) text = as_i64 (encode text)

-- The loop over the messages, with `total` as its variable.
encode_loop : (String → ℕ) → List String → ℤ → ℤ
encode_loop encode [] total = total
encode_loop encode (msg ∷ messages) total =
    encode_loop encode messages (add64 total (add64 (as_i64 (encode msg)) (pos 4)))

count_loop : List String → ℤ → ℤ
count_loop [] total = total
count_loop (m ∷ messages) total = count_loop messages (add64 total (as_i64 (count m)))

pub estimate_messages_tokens : Tokenizer → List String → ℤ
estimate_messages_tokens none messages =
    add64 (count_loop messages (pos 0)) (wrap64 (as_i64 (length messages) *ℤ pos 4))
estimate_messages_tokens (some encode) messages =
    add64 (encode_loop encode messages (pos 0)) (pos 2)
