-- ===== src/Cache/Limiter/Window.antt =====
-- crates/cache/src/rate_cache.rs: how many calls the limiter lets through.
use token_hub.Prelude.{
  ℕ, ◌+◌, ◌-◌, ◌*◌, ◌^◌, ◌≤◌, ◌<◌, Bool, true, none, some, List, [], ◌∷◌, ◌≡◌, ◌∙◌, ap, inl, inr,
  arith, leb, length, All, if◌then◌else◌, Bool-cases, ◌⊎◌,
}
use token_hub.Prelude.Int.{pos, +ℤ_pos}
use token_hub.Prelude.I64.{wrap64, wrap64_id, add64}
use token_hub.Prelude.Decimal.{to_string, parse-to_string}
use token_hub.Cache.Memory.{Entry, MemoryCache, is_expired, incr_with_expire}
use token_hub.Cache.Limiter.{check}

abbrev one : Bool → ℕ
one b = if b then 1 else 0

module _ (key_of : ℕ → ℕ) (key max_count window : ℕ) where
  -- How many of the calls at these times are let through.
  abbrev pub allowed : List ℕ → MemoryCache → ℕ
  allowed [] m = 0
  allowed (t ∷ times) m =
      let (ok, m') = check key_of key max_count window t m in one ok + allowed times m'

  -- The window that is open: how many calls it has counted, and when it ends.
  abbrev Open : ℕ → ℕ → MemoryCache → Type 0
  Open count ends m =
      m (key_of key) ≡ some (record { value = to_string (pos count); expires_at = some ends })

  -- A call in an open window.
  check-Open :
      (count ends t : ℕ) (m : MemoryCache)
      → Open count ends m
      → t < ends
      → count + 1 < 2 ^ 63
      → ((check key_of key max_count window t m).0 ≡ leb (count + 1) max_count)
        × Open (count + 1) ends (check key_of key max_count window t m).1
  unfolding check incr_with_expire is_expired
  check-Open count ends t m open' before small =
      let read = parse-to_string (pos count) (omega arith) in
      let next : add64 (pos count) (pos 1) ≡ pos (count + 1) =
        ap wrap64 (+ℤ_pos count 1) ∙ wrap64_id (pos (count + 1)) (omega arith) in
      (ground (arith, open', read, next), ground (arith, open', read, next))

  -- No window is open at this time: the cache holds nothing under the key, or an entry that has expired.
  abbrev Closed : ℕ → MemoryCache → Type 0
  Closed t m =
      (m (key_of key) ≡ none) ⊎ ((e : Entry) × (m (key_of key) ≡ some e) × (is_expired t e ≡ true))

  check-Closed :
      (t : ℕ) (m : MemoryCache)
      → Closed t m
      → ((check key_of key max_count window t m).0 ≡ leb 1 max_count)
        × Open 1 (t + window) (check key_of key max_count window t m).1
  unfolding check incr_with_expire
  check-Closed t m (inl absent) = (ground (arith, absent), ground (arith, absent))
  check-Closed t m (inr (e, present, over)) =
      (ground (arith, present, over), ground (arith, present, over))

  abbrev capped : ℕ → ℕ → ℕ
  capped room calls = if leb calls room then calls else room

  allowed-Open :
      (times : List ℕ) (count ends : ℕ) (m : MemoryCache)
      → Open count ends m
      → All (λ t. t < ends) times
      → count + length times < 2 ^ 63
      → allowed times m ≡ capped (max_count - count) (length times)
  allowed-Open [] count ends m open' before small = ground arith
  allowed-Open (t ∷ times) count ends m open' before small =
      let now = check-Open count ends t m open' before.0 (omega arith) in
      let rest =
        allowed-Open times (count + 1) ends (check key_of key max_count window t m).1 now.1 before.1
          (omega arith) in
      ground (arith, now.0, rest)

  -- While no window is open, be it that nothing is cached or that what is cached has expired, a call
  -- and the calls that follow, each before the call's time plus the window's length: as many of them
  -- are let through as the limit says, or all, if they are fewer. They are fewer than 2^63.
  pub allowed_window :
      (t : ℕ) (times : List ℕ) (m : MemoryCache)
      → Closed t m
      → All (λ u. u < t + window) times
      → length times + 1 < 2 ^ 63
      → allowed (t ∷ times) m
        ≡ (if leb (length times + 1) max_count then length times + 1 else max_count)
  allowed_window t times m closed before small =
      let now = check-Closed t m closed in
      let rest =
        allowed-Open times 1 (t + window) (check key_of key max_count window t m).1 now.1 before
          (omega arith) in
      ground (arith, now.0, rest)

  abbrev Within : ℕ → List ℕ → Type 0
  Within start times = All (λ t. (start ≤ t) × (t < start + window)) times

  Within-below :
      (start t : ℕ) (times : List ℕ)
      → start ≤ t
      → Within start times
      → All (λ u. u < t + window) times
  Within-below start t [] h w = tt
  Within-below start t (u ∷ times) h w = (omega arith, Within-below start t times h w.1)

  -- From a closed window on, the limit is an upper bound.
  allowed-Closed :
      (start t : ℕ) (times : List ℕ) (m : MemoryCache)
      → Closed t m
      → Within start (t ∷ times)
      → length times + 1 < 2 ^ 63
      → allowed (t ∷ times) m ≤ max_count
  allowed-Closed start t times m closed within small =
      let now = check-Closed t m closed in
      let rest =
        allowed-Open times 1 (t + window) (check key_of key max_count window t m).1 now.1
          (Within-below start t times within.0.0 within.1) (omega arith) in
      ground (arith, now.0, rest)

  allowed_twice :
      (start : ℕ) (times : List ℕ) (count ends : ℕ) (m : MemoryCache)
      → Open count ends m
      → Within start times
      → count + length times < 2 ^ 63
      → allowed times m ≤ max_count - count + max_count
  unfolding is_expired
  allowed_twice start [] count ends m open' within small = omega arith
  allowed_twice start (t ∷ times) count ends m open' within small = elim (Bool-cases (leb ends t)) [
    | inl over ↦
        let bound = allowed-Closed start t times m (inr (_, open', over)) within (omega arith) in
        omega arith
    | inr inside ↦
        let now = check-Open count ends t m open' (ground arith) (omega arith) in
        let rest =
          allowed_twice start times (count + 1) ends (check key_of key max_count window t m).1 now.1
            within.1 (omega arith) in
        ground (arith, now.0, rest)
  ]

  -- What the cache holds under the key, if it is the limiter's: nothing, or a count and a deadline.
  abbrev Counts : ℕ → MemoryCache → Type 0
  Counts calls m =
      (m (key_of key) ≡ none)
      ⊎ ((count ends : ℕ) × (m (key_of key)
            ≡ some (record { value = to_string (pos count); expires_at = some ends }))
          × (count + calls < 2 ^ 63))

  -- Of the calls within any stretch of time as long as the window, at most twice the limit are let
  -- through, whatever window was open before. The count does not reach 2^63.
  pub allowed_stretch :
      (start : ℕ) (times : List ℕ) (m : MemoryCache)
      → Counts (length times) m
      → Within start times
      → length times < 2 ^ 63
      → allowed times m ≤ 2 * max_count
  allowed_stretch start [] m counts within small = omega arith
  allowed_stretch start (t ∷ times) m (inl absent) within small =
      let bound = allowed-Closed start t times m (inl absent) within (omega arith) in omega arith
  allowed_stretch start (t ∷ times) m (inr (count, ends, open', fits)) within small =
      let bound = allowed_twice start (t ∷ times) count ends m open' within fits in omega arith
