-- ===== src/Cache/Balance.antt =====
-- crates/cache/src/balance_cache.rs. `key_of`: the key of an account, `balance:<account_id>`.
use token_hub.Prelude.{ℕ, ◌+◌, ◌≤◌, Option, none, some, ◌≡◌, arith, leb, if◌then◌else◌}
use token_hub.Prelude.Int.{ℤ}
use token_hub.Prelude.I64.{IsI64}
use token_hub.Prelude.Decimal.{to_string, parse, parse-to_string}
use token_hub.Cache.Memory.{MemoryCache, get_string, set_string, del, is_expired}

abbrev ttl : ℕ
ttl = 10

-- `and_then`.
abbrev and_then {ℓ κ} : {A : Type ℓ} {B : Type κ} → Option A → (A → Option B) → Option B
and_then none f = none
and_then (some a) f = f a

module _ (key_of : ℕ → ℕ) where
  unfoldable pub get : ℕ → ℕ → MemoryCache → Option ℤ × MemoryCache
  get account_id now m =
      let (val, m') = get_string (key_of account_id) now m in (and_then val parse, m')

  unfoldable pub set : ℕ → ℤ → ℕ → MemoryCache → MemoryCache
  set account_id balance now m = set_string (key_of account_id) (to_string balance) (some ttl) now m

  unfoldable pub invalidate : ℕ → MemoryCache → MemoryCache
  invalidate account_id m = del (key_of account_id) m

  -- A balance that is put into the cache is read there for ten seconds, and then no more; nor is it
  -- after it was made invalid.
  pub get-set :
      (account_id : ℕ) (balance : ℤ) (now later : ℕ) (m : MemoryCache)
      → IsI64 balance
      → now ≤ later
      → ((get account_id later (set account_id balance now m)).0
          ≡ (if leb (now + 10) later then none else some balance))
        × ((get account_id later (invalidate account_id (set account_id balance now m))).0 ≡ none)
  unfolding get set invalidate get_string set_string del is_expired
  get-set account_id balance now later m fits order =
      let read = parse-to_string balance fits in (ground (arith, read), ground arith)
