-- ===== src/Cache/Memory/History.antt =====
-- crates/cache/src/memory.rs: the cache behaves as the history of what was written to it. The history
-- never forgets: what it shows of a key at a time is the last write of the key, unless that was a
-- deletion or its time is over.
use token_hub.Prelude.{
  ℕ, ◌+◌, ◌≤◌, true, Option, none, some, map_option, unwrap_or, List, [], ◌∷◌, ◌≡◌, ◌∙◌, refl, ap,
  inl, inr, arith, ◌==◌, if◌then◌else◌, Bool-cases, Option-cases,
}
use token_hub.Prelude.Int.{ℤ, pos}
use token_hub.Prelude.I64.{add64}
use token_hub.Prelude.Decimal.{Bytes, to_string, parse}
use token_hub.Cache.Memory.{
  Entry, MemoryCache, is_expired, insert, remove_if, get_string, set_string, del, incr_with_expire,
}

abbrev pub Writes : Type 0
Writes = List (ℕ × Option Entry)

abbrev pub live : ℕ → Option Entry → Option Entry
live now none = none
live now (some e) = if is_expired now e then none else some e

abbrev last_write : ℕ → Writes → Option Entry
last_write key [] = none
last_write key ((k, e) ∷ writes) = if key == k then e else last_write key writes

abbrev pub shown : ℕ → ℕ → Writes → Option Entry
shown key now writes = live now (last_write key writes)

pub data Command : Type 0 where
  get : (key : ℕ) → Command
  put : (key : ℕ) (value : Bytes) (ttl : Option ℕ) → Command
  drop : (key : ℕ) → Command
  incr : (key : ℕ) (delta : ℤ) (window : ℕ) → Command

pub data Response : Type 0 where
  done : Response
  found : Option Bytes → Response
  count : ℤ → Response

-- What the code does.
abbrev pub run : Command → ℕ → MemoryCache → Response × MemoryCache
run (get key) now m = let (r, m') = get_string key now m in (found r, m')
run (put key value ttl) now m = (done, set_string key value ttl now m)
run (drop key) now m = (done, del key m)
run (incr key delta window) now m =
    let (r, m') = incr_with_expire key delta window now m in (count r, m')

-- What is meant.
abbrev expected_count : ℤ → Option Entry → ℤ
expected_count delta none = delta
expected_count delta (some e) = add64 (unwrap_or (parse e.value) (pos 0)) delta

abbrev deadline : ℕ → Option Entry → Option ℕ
deadline fresh none = some fresh
deadline fresh (some e) = e.expires_at

abbrev pub specified : Command → ℕ → Writes → Response × Writes
specified (get key) now writes = (found (map_option (λ e. e.value) (shown key now writes)), writes)
specified (put key value ttl) now writes = (
  done,
  (key, some (record { value = value; expires_at = map_option (λ d. now + d) ttl })) ∷ writes,
)
specified (drop key) now writes = (done, (key, none) ∷ writes)
specified (incr key delta window) now writes =
    let total = expected_count delta (shown key now writes) in
    (
      count total,
      (
        key,
        some (record {
          value = to_string total;
          expires_at = deadline (now + window) (shown key now writes);
        }),
      )
          ∷ writes,
    )

-- A run of commands, each at its time; no time lies before the one before it.
abbrev pub Schedule : Type 0
Schedule = List (Command × ℕ)

abbrev pub InOrder : ℕ → Schedule → Type 0
InOrder now [] = Unit
InOrder now ((c, t) ∷ rest) = (now ≤ t) × InOrder t rest

abbrev pub responses : Schedule → MemoryCache → List Response
responses [] m = []
responses ((c, t) ∷ rest) m = (run c t m).0 ∷ responses rest (run c t m).1

abbrev pub specified_responses : Schedule → Writes → List Response
specified_responses [] writes = []
specified_responses ((c, t) ∷ rest) writes =
    (specified c t writes).0 ∷ specified_responses rest (specified c t writes).1

-- The cache shows what the history shows, now and later.
abbrev Agrees : ℕ → MemoryCache → Writes → Type 0
Agrees now m writes = (key t : ℕ) → now ≤ t → live t (m key) ≡ shown key t writes

-- What is expired stays expired.
expired_later : (now t : ℕ) (e : Entry) → now ≤ t → is_expired now e ≡ true → is_expired t e ≡ true
unfolding is_expired
expired_later now t e later h = elim (Option-cases e.expires_at) [
  | inl never ↦ absurd (ground (arith, never))
  | inr (d, at) ↦ ground (arith, at)
]

-- After the removal of an expired entry the map holds what is live, and shows what it showed.
module _ (key now : ℕ) (m : MemoryCache) where
  cleaned : MemoryCache
  cleaned = (remove_if key (is_expired now) m).1

  cleaned_self : cleaned key ≡ live now (m key)
  unfolding cleaned
  cleaned_self = elim (Option-cases (m key)) [
    | inl absent ↦ ground (arith, absent)
    | inr (e, present) ↦ ground (arith, present)
  ]

  live-cleaned : (k t : ℕ) → now ≤ t → live t (cleaned k) ≡ live t (m k)
  unfolding cleaned
  live-cleaned k t later = elim (Option-cases (m key)) [
    | inl absent ↦ ground (arith, absent)
    | inr (e, present) ↦ elim (Bool-cases (k == key)) [
      | inl self ↦
          let same : k ≡ key = ground arith in
          rw same (ground (arith, present, expired_later now t e))
      | inr other ↦ ground (arith, present)
    ]
  ]

  -- `incr_with_expire` counts on from what is live, and keeps its deadline.
  incr_cleaned :
      (delta : ℤ) (window : ℕ)
      → incr_with_expire key delta window now m ≡ (
        expected_count delta (live now (m key)),
        insert key
            (record {
              value = to_string (expected_count delta (live now (m key)));
              expires_at = deadline (now + window) (live now (m key));
            })
            cleaned,
      )
  unfolding incr_with_expire cleaned
  incr_cleaned delta window = elim (Option-cases (m key)) [
    | inl absent ↦ rw absent (ground (arith, absent))
    | inr (e, present) ↦ elim (Bool-cases (is_expired now e)) [
      | inl over ↦ rw (present, over) (ground arith)
      | inr valid ↦ rw (present, valid) (ground (arith, present))
    ]
  ]

write-Agrees :
    (key now : ℕ) (e : Option Entry) (m m' : MemoryCache) (writes : Writes)
    → ((k t : ℕ) → now ≤ t → live t (m' k) ≡ live t (if k == key then e else m k))
    → Agrees now m writes
    → Agrees now m' ((key, e) ∷ writes)
write-Agrees key now e m m' writes wrote agrees k t later = elim (Bool-cases (k == key)) [
  | inl self ↦ let w = wrote k t later in rw self (rw self at w)
  | inr other ↦ let w = wrote k t later in rw other ((rw other at w) ∙ agrees k t later)
]

module _ (now : ℕ) (m : MemoryCache) (writes : Writes) (agrees : Agrees now m writes) where
  Steps : Command → Type 0
  Steps c =
      ((run c now m).0 ≡ (specified c now writes).0)
      × Agrees now (run c now m).1 (specified c now writes).1

  get-Steps : (key : ℕ) → Steps (get key)
  unfolding Steps get_string cleaned
  get-Steps key = (
    ap (λ o. found (map_option (λ (e : Entry). e.value) o))
        (cleaned_self key now m ∙ agrees key now (omega arith)),
    λ k t later. live-cleaned key now m k t later ∙ agrees k t later,
  )

  put-Steps : (key : ℕ) (value : Bytes) (ttl : Option ℕ) → Steps (put key value ttl)
  unfolding Steps set_string
  put-Steps key value ttl = (refl, write-Agrees key now _ m _ writes (λ k t later. refl) agrees)

  drop-Steps : (key : ℕ) → Steps (drop key)
  unfolding Steps del
  drop-Steps key = (refl, write-Agrees key now none m _ writes (λ k t later. refl) agrees)

  incr-Steps : (key : ℕ) (delta : ℤ) (window : ℕ) → Steps (incr key delta window)
  unfolding Steps
  incr-Steps key delta window = rw (incr_cleaned key now m delta window) (
      rw (agrees key now (omega arith)) (
        refl,
        write-Agrees key now _ m _ writes
            (λ k t later. elim (Bool-cases (k == key)) [
              | inl self ↦ rw self refl
              | inr other ↦ rw other (live-cleaned key now m k t later)
            ])
            agrees,
      ))

  steps : (c : Command) → Steps c
  steps (get key) = get-Steps key
  steps (put key value ttl) = put-Steps key value ttl
  steps (drop key) = drop-Steps key
  steps (incr key delta window) = incr-Steps key delta window

-- Agreement lasts.
Agrees-later :
    (now t : ℕ) (m : MemoryCache) (writes : Writes)
    → now ≤ t
    → Agrees now m writes
    → Agrees t m writes
Agrees-later now t m writes later agrees key u h = agrees key u (omega arith)

responses_agree :
    (schedule : Schedule) (now : ℕ) (m : MemoryCache) (writes : Writes)
    → InOrder now schedule
    → Agrees now m writes
    → responses schedule m ≡ specified_responses schedule writes
unfolding Steps
responses_agree [] now m writes ordered agrees = refl
responses_agree ((c, t) ∷ rest) now m writes ordered agrees =
    let s = steps t m writes (Agrees-later now t m writes ordered.0 agrees) c in
    let after = responses_agree rest t _ _ ordered.1 s.1 in
    ap (λ r. r ∷ responses rest (run c t m).1) s.0 ∙ ap (λ rs. (specified c t writes).0 ∷ rs) after

-- Whatever commands an empty cache is given, at times that do not fall: it answers each of them as
-- the history of what was written does. So the removal of expired entries cannot be noticed, and an
-- increment within its window keeps the window's end.
pub responses_lem :
    (schedule : Schedule) (start : ℕ)
    → InOrder start schedule
    → responses schedule (λ k. none) ≡ specified_responses schedule []
responses_lem schedule start ordered =
    responses_agree schedule start (λ k. none) [] ordered (λ key t later. refl)
