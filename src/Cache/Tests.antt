-- ===== src/Cache/Tests.antt =====
-- crates/cache: the theorems at a few calls.
use token_hub.Prelude.{
  ℕ, ◌+◌, ◌*◌, ◌≤◌, none, some, [], ◌∷◌, ◌≡◌, refl, inl, inr, arith, leb, if◌then◌else◌,
}
use token_hub.Prelude.Int.{pos}
use token_hub.Prelude.Decimal.{to_string}
use token_hub.Cache.Memory.{MemoryCache, is_expired}
use token_hub.Cache.Memory.History.{
  Command, Schedule, responses, specified_responses, responses_lem,
}
use token_hub.Cache.Balance.{get, set, invalidate, get-set}
use token_hub.Cache.Limiter.Window.{allowed, allowed_window, allowed_stretch}

abbrev empty : MemoryCache
empty = λ k. none

-- A count of which the window is over at 105, a value that is over at 103, and a deletion.
abbrev schedule : Schedule
schedule =
    (Command.incr 1 (pos 1) 5, 100)
    ∷ (Command.put 2 (48 ∷ []) (some 3), 100)
    ∷ (Command.incr 1 (pos 1) 5, 104)
    ∷ (Command.get 2, 104)
    ∷ (Command.incr 1 (pos 1) 5, 105)
    ∷ (Command.drop 1, 106)
    ∷ (Command.get 1, 106)
    ∷ []

responses_lem_example : responses schedule empty ≡ specified_responses schedule []
responses_lem_example = responses_lem schedule 100 (ground arith)

abbrev same : ℕ → ℕ
same n = n

get-set_example :
    ((get same 7 110 (set same 7 (pos 40) 100 empty)).0
      ≡ (if leb (100 + 10) 110 then none else some (pos 40)))
    × ((get same 7 110 (invalidate same 7 (set same 7 (pos 40) 100 empty))).0 ≡ none)
get-set_example = get-set same 7 (pos 40) 100 110 empty (ground arith) (omega arith)

-- The count of a window that ended at 95, not yet removed.
abbrev stale : MemoryCache
stale = λ k. some (record { value = to_string (pos 7); expires_at = some 95 })

-- Three calls within a window of ten seconds, with a limit of two.
allowed_window_example :
    allowed same 1 2 10 (100 ∷ 103 ∷ 109 ∷ []) stale ≡ (if leb (2 + 1) 2 then 2 + 1 else 2)
unfolding is_expired
allowed_window_example =
    allowed_window same 1 2 10 100 (103 ∷ 109 ∷ []) stale (inr (_, refl, refl)) (ground arith)
      (ground arith)

allowed_stretch_example : allowed same 1 2 10 (100 ∷ 103 ∷ 109 ∷ []) empty ≤ 2 * 2
allowed_stretch_example =
    allowed_stretch same 1 2 10 100 (100 ∷ 103 ∷ 109 ∷ []) empty (inl refl) (ground arith)
      (ground arith)
