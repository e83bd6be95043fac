-- ===== src/Cache/Limiter.antt =====
-- crates/cache/src/rate_cache.rs, over the memory cache. `key_of`: the key `ratelimit:<key>`.
pub mod Window
use token_hub.Prelude.{ℕ, Bool}
use token_hub.Prelude.Int.{ℤ, pos, leb_ℤ}
use token_hub.Cache.Memory.{MemoryCache, incr_with_expire}

module _ (key_of : ℕ → ℕ) where
  unfoldable pub check : (key max_count window_secs now : ℕ) → MemoryCache → Bool × MemoryCache
  check key max_count window_secs now m =
      let (count, m') = incr_with_expire (key_of key) (pos 1) window_secs now m in
      (leb_ℤ count (pos max_count), m')
