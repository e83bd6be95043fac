-- ===== src/Cache/Memory.antt =====
-- crates/cache/src/memory.rs. An operation reads the clock once: its time is an argument.
pub mod History
use token_hub.Prelude.{
  ℕ, ◌+◌, Bool, true, false, Option, none, some, is_some, map_option, unwrap_or, ◌||◌, not, leb,
  ◌==◌, if◌then◌else◌,
}
use token_hub.Prelude.Int.{ℤ, pos}
use token_hub.Prelude.I64.{add64}
use token_hub.Prelude.Decimal.{Bytes, to_string, parse}

pub record Entry : Type 0 where
  pub value : Bytes
  pub expires_at : Option ℕ

abbrev pub MemoryCache : Type 0
MemoryCache = ℕ → Option Entry

unfoldable pub is_expired : ℕ → Entry → Bool
is_expired now e = unwrap_or (map_option (λ t. leb t now) e.expires_at) false

-- `insert` and `remove` of the map.
abbrev pub insert : ℕ → Entry → MemoryCache → MemoryCache
insert key e m = λ k. if k == key then some e else m k

abbrev pub remove : ℕ → MemoryCache → MemoryCache
remove key m = λ k. if k == key then none else m k

-- `remove_if`: whether an entry was removed, and the map.
abbrev pub remove_if : ℕ → (Entry → Bool) → MemoryCache → Bool × MemoryCache
remove_if key p m =
    if unwrap_or (map_option p (m key)) false then (true, remove key m) else (false, m)

unfoldable pub get_string : ℕ → ℕ → MemoryCache → Option Bytes × MemoryCache
unfolding is_expired
get_string key now m =
    let (_, m') = remove_if key (is_expired now) m in (map_option (λ e. e.value) (m' key), m')

unfoldable pub set_string : ℕ → Bytes → Option ℕ → ℕ → MemoryCache → MemoryCache
set_string key value ttl now m =
    insert key (record { value = value; expires_at = map_option (λ d. now + d) ttl }) m

unfoldable pub del : ℕ → MemoryCache → MemoryCache
del key m = remove key m

unfoldable pub incr_with_expire : ℕ → ℤ → ℕ → ℕ → MemoryCache → ℤ × MemoryCache
unfolding is_expired
incr_with_expire key delta window now m =
    let (expired, m') = remove_if key (is_expired now) m in
    let is_new_window = expired || not (is_some (m' key)) in
    let entry =
      unwrap_or (m' key) (record { value = to_string (pos 0); expires_at = some (now + window) }) in
    if is_new_window
    then (
      delta,
      insert key (record { value = to_string delta; expires_at = some (now + window) }) m',
    )
    else (
      add64 (unwrap_or (parse entry.value) (pos 0)) delta,
      insert key
          (record entry { value = to_string (add64 (unwrap_or (parse entry.value) (pos 0)) delta) })
          m',
    )
