-- ===== src/Api/Limits.antt =====
-- crates/api/src/middleware/ratelimit.rs, over the memory cache, whose limiter never fails. `short_hash` is
-- that of the source; `key_of` gives a key's place in the cache.
use token_hub.Prelude.{
  ℕ, String, Bool, not, Option, none, some, unwrap_or, map_option, ◌==◌, if◌then◌else◌,
}
use Prim.Native.Char.{code}
use Prim.Native.String.{◌++◌}
use token_hub.Cache.Memory.{MemoryCache}
use token_hub.Cache.Limiter.{check}
use token_hub.Api.Error.{ApiError}

-- `split(',').next()`.
abbrev before_comma : String → String
before_comma String.[] = ""
before_comma (String.◌∷◌ c s) = if code c == b',' then "" else String.◌∷◌ c (before_comma s)

module _ (short_hash : String → String) (place : String → ℕ) where
  -- `none`: the request goes on. `installed`: the state is among the request's extensions. A header that
  -- is no text is as one that is missing.
  unfoldable pub chat_ratelimit :
      (installed : Bool) (authorization : Option String) (now : ℕ)
      → MemoryCache
      → Option ApiError × MemoryCache
  unfolding check
  chat_ratelimit installed authorization now m =
      if not installed
      then (some (ApiError.internal (some "missing state")), m)
      else (let rate_key = "token:" ++ short_hash (unwrap_or authorization "anonymous") in
          let (allowed, m') = check (λ k. k) (place rate_key) 60 60 now m in
          if allowed
          then (none, m')
          else (some (ApiError.bad_request "rate limit exceeded, too many requests"), m'))

  unfoldable pub admin_ratelimit :
      (installed : Bool) (forwarded_for : Option String) (now : ℕ)
      → MemoryCache
      → Option ApiError × MemoryCache
  unfolding check
  admin_ratelimit installed forwarded_for now m =
      if not installed
      then (some (ApiError.internal (some "missing state")), m)
      else (let ip = unwrap_or (map_option before_comma forwarded_for) "unknown" in
          let (allowed, m') = check (λ k. k) (place ("ip:" ++ ip)) 30 60 now m in
          if allowed then (none, m') else (some (ApiError.bad_request "rate limit exceeded"), m'))
