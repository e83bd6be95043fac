-- ===== src/Router/Tests.antt =====
-- crates/router-llm: the theorems on the routing at small inputs.
use token_hub.Prelude.{
  arith, length, ◌++◌, ℕ, String, true, false, none, some, List, [], ◌∷◌, ◌≡◌, refl,
}
use mathlib.Core.List.{Perm}
use token_hub.Prelude.Int.{ℤ, pos, ◌+ℤ◌, ◌≤ℤ◌, ◌<ℤ◌}
use token_hub.Prelude.I64.{wrap64}
use token_hub.Prelude.Sort.{Pairwise, sort_by}
use token_hub.Domain.Provider.{RoutingStrategy}
use token_hub.Router.Fallback.{UpstreamError, FallbackOutcome, classify}
use token_hub.Router.Fallback.Verdict.{gives_up, can_cut, quotes_body, classify_verdict}
use token_hub.Router.Selector.{RouteCandidate, select, sequential_order, chosen, share}
use token_hub.Router.Selector.Roulette.{weight_sum, roulette}
use token_hub.Router.Selector.Order.{Heavier, select_total, sequential_order_lem}
use token_hub.Router.Selector.Pieces.{Levels}

abbrev candidate : (id level weight : ℕ) → RoutingStrategy → RouteCandidate
candidate id level weight strategy = record {
  mapping_id = id;
  provider_id = id;
  upstream_model = "gpt-4o";
  level = pos level;
  weight = pos weight;
  strategy = strategy;
}

-- The candidates of the source's own test.
abbrev four : RoutingStrategy → List RouteCandidate
four s = candidate 1 3 100 s ∷ candidate 2 1 50 s ∷ candidate 3 1 100 s ∷ candidate 4 2 80 s ∷ []

abbrev always_zero : ℕ → ℤ → ℤ × ℕ
always_zero rng total = (pos 0, rng)

sequential_order_lem_example :
    Perm (sequential_order (four RoutingStrategy.sequential)) (four RoutingStrategy.sequential)
    × Pairwise Heavier (sequential_order (four RoutingStrategy.sequential))
sequential_order_lem_example = sequential_order_lem (four RoutingStrategy.sequential)

select_total_example :
    (ordered : List RouteCandidate) × (last : ℕ) × (select always_zero 0
        (four RoutingStrategy.random)
      ≡ some (ordered, last))
    × Perm ordered (four RoutingStrategy.random)
    × Pairwise Levels ordered
select_total_example = select_total always_zero 0 (four RoutingStrategy.random)

-- As in the source's test: level 1 before the others, and in it the heavier one.
four_in_order :
    sequential_order (four RoutingStrategy.sequential)
    ≡ candidate 3 1 100 RoutingStrategy.sequential
      ∷ candidate 2 1 50 RoutingStrategy.sequential
      ∷ candidate 4 2 80 RoutingStrategy.sequential
      ∷ candidate 1 3 100 RoutingStrategy.sequential
      ∷ []
unfolding sequential_order sort_by
four_in_order = refl

abbrev quota_error : UpstreamError
quota_error = UpstreamError.status 429 "You exceeded your current quota"

classify_verdict_example :
    (quotes_body quota_error ≡ true → can_cut quota_error ≡ false → classify quota_error ≡ none)
    × (can_cut quota_error ≡ true
        → gives_up quota_error ≡ true
        → (reason : String) × (classify quota_error
            ≡ some (FallbackOutcome.should_disable_and_fallback reason)))
    × (gives_up quota_error ≡ false → classify quota_error ≡ some FallbackOutcome.no_fallback)
classify_verdict_example = classify_verdict quota_error

-- A draw of 120 on the wheel of the shares 100, 50, 100 and 80.
roulette_example :
    (front : List RouteCandidate) × (c : RouteCandidate) × (back : List RouteCandidate) × (four
        RoutingStrategy.random
      ≡ front ++ c ∷ back)
    × (chosen 0 (pos 120) (four RoutingStrategy.random) ≡ length front)
    × (weight_sum front ≤ℤ pos 120)
    × (pos 120 <ℤ weight_sum front +ℤ share c)
unfolding ◌+ℤ◌ wrap64
roulette_example =
    roulette (pos 120) (four RoutingStrategy.random) (omega arith) (omega arith) (omega arith)
