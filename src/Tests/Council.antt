-- ===== src/Tests/Council.antt =====
-- The council on the small market.
use mathlib.Core.List.{Permᴰ}
use the_council.Prelude.{◌≡◌, refl, [], ◌∷◌, List}
use the_council.Prelude.Int.{ℤ}
use the_council.Floats.Fixed.{fixed_float}
use the_council.Result.{ok, err, duplicate_agents}
use the_council.Dict.{get}
use the_council.Schemas.Signal.{AgentSignal, validate_decision}
use the_council.Council.Aggregator.{
  validate_signal_source, check_volatility, weight, weighted_capacity, effective_weight,
  has_no_weight, conviction_of, expected_return_of, confidence_of, all_explicitly_flat,
  all_reduce_only, is_weak, intent_of, direction_of, decide, aggregate,
}
use the_council.Council.Unordered.{aggregate_unordered}
use the_council.Council.Decision.{IsDecision, aggregate-IsDecision}
use the_council.Tests.Data.{snapshot, signal_of, config, decision, decision_id}

-- All that a round computes with.
unfoldable pub round : Unit {0}
unfolding aggregate decide validate_signal_source check_volatility get weight weighted_capacity
    effective_weight has_no_weight conviction_of expected_return_of confidence_of
    all_explicitly_flat all_reduce_only is_weak intent_of direction_of validate_decision
round = tt

abbrev one : List (AgentSignal ℤ)
one = signal_of "trend" ∷ []

abbrev two : List (AgentSignal ℤ)
two = signal_of "trend" ∷ signal_of "reversion" ∷ []

one_decides : aggregate config decision_id snapshot one ≡ ok decision
unfolding round
one_decides = refl

twice_refused :
    aggregate config decision_id snapshot (signal_of "trend" ∷ one) ≡ err duplicate_agents
unfolding round
twice_refused = refl

aggregate_unordered_example :
    aggregate config decision_id snapshot two
    ≡ aggregate config decision_id snapshot (signal_of "reversion" ∷ signal_of "trend" ∷ [])
aggregate_unordered_example =
    aggregate_unordered config decision_id snapshot two
      (signal_of "reversion" ∷ signal_of "trend" ∷ []) (Permᴰ.swap refl refl)

aggregate-IsDecision_example : IsDecision config decision_id snapshot one decision
aggregate-IsDecision_example =
    aggregate-IsDecision config decision_id snapshot one decision one_decides
