-- ===== src/Router/Selector.antt =====
-- crates/router-llm/src/selector.rs. The generator of the `rand` crate is a parameter, `gen_range`:
-- it takes its state and the end of the range. `none` stands for a panic.
pub mod Pieces
pub mod Order
pub mod Roulette
use token_hub.Prelude.{
  ℕ, zero, suc, ◌+◌, String, Bool, true, false, Option, none, some, List, [], ◌∷◌, ◌++◌, length,
  if◌then◌else◌,
}
use token_hub.Prelude.Int.{ℤ, pos, ltb_ℤ, leb_ℤ, eqb_ℤ, max_ℤ}
use token_hub.Prelude.I64.{add64, sub64}
use token_hub.Prelude.Sort.{sort_by}
use token_hub.Domain.Provider.{RoutingStrategy}

pub record RouteCandidate : Type 0 where
  pub mapping_id : ℕ
  pub provider_id : ℕ
  pub upstream_model : String
  pub level : ℤ
  pub weight : ℤ
  pub strategy : RoutingStrategy

-- `a.level.cmp(&b.level).then_with(|| b.weight.cmp(&a.weight))` is not `Greater`.
abbrev pub level_then_weight : RouteCandidate → RouteCandidate → Bool
level_then_weight a b =
    if ltb_ℤ a.level b.level
    then true
    else if ltb_ℤ b.level a.level
    then false
    else leb_ℤ b.weight a.weight

abbrev pub level_first : RouteCandidate → RouteCandidate → Bool
level_first a b = leb_ℤ a.level b.level

unfoldable pub sequential_order : List RouteCandidate → List RouteCandidate
sequential_order candidates = sort_by level_then_weight candidates

-- `c.weight.max(1) as i64`.
abbrev pub share : RouteCandidate → ℤ
share c = max_ℤ c.weight (pos 1)

abbrev pub total_share : List RouteCandidate → ℤ
total_share [] = pos 0
total_share (c ∷ items) = add64 (share c) (total_share items)

-- The `for` loop: the index at which `pick` falls below 0, or the 0 of `chosen_idx`.
abbrev pub chosen : (i : ℕ) → ℤ → List RouteCandidate → ℕ
chosen i pick [] = 0
chosen i pick (c ∷ items) =
    if ltb_ℤ (sub64 pick (share c)) (pos 0) then i else chosen (suc i) (sub64 pick (share c)) items

-- `Vec::remove`: the element and the rest, or a panic.
abbrev pub remove : ℕ → List RouteCandidate → Option (RouteCandidate × List RouteCandidate)
remove i [] = none
remove zero (c ∷ items) = some (c, items)
remove (suc i) (c ∷ items) = elim (remove i items) [
  | none ↦ none
  | some (x, rest) ↦ some (x, c ∷ rest)
]

-- `while idx < sorted.len() && sorted[idx].level == level`: the group, and what is behind it.
abbrev pub take_group : ℤ → List RouteCandidate → List RouteCandidate × List RouteCandidate
take_group level [] = ([], [])
take_group level (c ∷ sorted) =
    if eqb_ℤ c.level level
    then (let (group, rest) = take_group level sorted in (c ∷ group, rest))
    else ([], c ∷ sorted)

module _ {S : Type 0} (gen_range : S → ℤ → ℤ × S) where
  -- Each round removes one element, so that the number of elements is fuel enough.
  unfoldable pub weighted_shuffle :
      (fuel : ℕ) → S → List RouteCandidate → Option (List RouteCandidate × S)
  weighted_shuffle fuel rng [] = some ([], rng)
  weighted_shuffle zero rng (c ∷ items) = none
  weighted_shuffle (suc fuel) rng (c ∷ items) =
      let (pick, next) = gen_range rng (max_ℤ (total_share (c ∷ items)) (pos 1)) in
      elim (remove (chosen 0 pick (c ∷ items)) (c ∷ items)) [
        | none ↦ none
        | some (x, rest) ↦ elim (weighted_shuffle fuel next rest) [
          | none ↦ none
          | some (result, last) ↦ some (x ∷ result, last)
        ]
      ]

  -- Each round takes at least one element off the sorted list.
  unfoldable pub random_loop :
      (fuel : ℕ) → S → List RouteCandidate → Option (List RouteCandidate × S)
  random_loop fuel rng [] = some ([], rng)
  random_loop zero rng (c ∷ sorted) = none
  random_loop (suc fuel) rng (c ∷ sorted) =
      let (group, rest) = take_group c.level (c ∷ sorted) in
      elim (weighted_shuffle (length group) rng group) [
        | none ↦ none
        | some (shuffled, next) ↦ elim (random_loop fuel next rest) [
          | none ↦ none
          | some (result, last) ↦ some (shuffled ++ result, last)
        ]
      ]

  unfoldable pub random_order : S → List RouteCandidate → Option (List RouteCandidate × S)
  random_order rng candidates =
      let sorted = sort_by level_first candidates in random_loop (length sorted) rng sorted

  unfoldable pub select : S → List RouteCandidate → Option (List RouteCandidate × S)
  select rng [] = some ([], rng)
  select rng (c ∷ candidates) = elim c.strategy [
    | RoutingStrategy.sequential ↦ some (sequential_order (c ∷ candidates), rng)
    | RoutingStrategy.random ↦ random_order rng (c ∷ candidates)
  ]
