-- ===== src/Council/Aggregator.antt =====
-- `CouncilConfig` and `DeterministicCouncil.aggregate`. The SHA-256 of a decision's fields is the
-- parameter `decision_id`; the rationale, a rendering of two counts, is left out.
use the_council.Prelude.{
  has_unique_texts, ℕ, Bool, not, ◌&&◌, ◌||◌, if◌then◌else◌, Option, none, some, List, [], ◌∷◌,
  String, ◌==◌, ltb, eqb, min, map, all, select, is_empty,
}
use the_council.Prelude.Sort.{sort_by}
use the_council.Floats.{Float, nought, of_nat, sum, or_zero, ◌⊗◌, ◌⊘◌, ◌<?◌, ◌≤?◌, ◌=?◌, unit_float}
use the_council.Result.{
  Result, ok, err, ◌>>◌, guard, refuse, each, no_signals, duplicate_agents, signal_market_mismatch,
  signal_source_mismatch, signal_too_early, signal_from_future, signal_stale, volatility_source,
  volatility_after_cutoff, invalid_weights, invalid_field,
}
use the_council.Dict.{Dict, get}
use the_council.Trading.{exposure_abs_tolerance}
use the_council.Schemas.Enums.{
  Direction, short, flat, long, ActionIntent, target_exposure, abstain, no_action, reduce_only,
  is_alpha, is_valid, is_actionable, is_reduce_only,
}
use the_council.Schemas.Market.{MarketSnapshot, VolatilityObservation}
use the_council.Schemas.Signal.{AgentSignal, CouncilDecision, validate_decision}

pub record CouncilConfig (F : Type 0) : Type 0 where
  pub agent_weights : Dict F
  pub minimum_confidence : F
  pub minimum_conviction : F

-- `min(signal.expires_at for signal in signals)` of a first signal and the others.
abbrev pub earliest_expiry : {F : Type 0} → ℕ → List (AgentSignal F) → ℕ
earliest_expiry t [] = t
earliest_expiry t (s ∷ signals) = min s.expires_at (earliest_expiry t signals)

module _ {F : Type 0} (snapshot : MarketSnapshot F) where
  unfoldable pub check_volatility : Option (VolatilityObservation F) → Result (Unit {0})
  check_volatility none = ok tt
  check_volatility (some v) = do
    guard (v.source_snapshot_id == snapshot.snapshot_id) volatility_source
    refuse (ltb snapshot.as_of v.observed_at) volatility_after_cutoff

  unfoldable pub validate_signal_source : AgentSignal F → Result (Unit {0})
  validate_signal_source s = do
    guard (s.symbol == snapshot.symbol && s.timeframe == snapshot.timeframe) signal_market_mismatch
    guard (s.source_snapshot_id == snapshot.snapshot_id && eqb s.source_as_of snapshot.as_of)
        signal_source_mismatch
    refuse (ltb s.generated_at snapshot.observed_at) signal_too_early
    refuse (ltb snapshot.observed_at s.generated_at) signal_from_future
    refuse (ltb s.expires_at snapshot.observed_at) signal_stale
    check_volatility s.volatility

-- A signal that votes: alpha, valid, and with an intent that asks for a position.
abbrev pub is_vote : {F : Type 0} → AgentSignal F → Bool
is_vote s = is_alpha s.signal_type && (is_valid s.validity && is_actionable s.action)

module _ {F : Type 0} ⦃f : Float F⦄ where
  unfoldable pub validate_config : CouncilConfig F → Result (CouncilConfig F)
  validate_config c = do
    guard (unit_float c.minimum_confidence && unit_float c.minimum_conviction) invalid_field
    guard (all (λ (e : String × F). f.is_finite e.1 && not (e.1 <? nought)) c.agent_weights)
        invalid_weights
    ok c

  abbrev pub get_weight : Option F → F
  get_weight none = of_nat 1
  get_weight (some w) = w

  unfoldable pub all_explicitly_flat : List (AgentSignal F) → Bool
  all_explicitly_flat votes =
      not (is_empty votes)
      && all (λ s. f.abs (or_zero s.target_exposure) ≤? exposure_abs_tolerance) votes

  unfoldable pub all_reduce_only : List (AgentSignal F) → Bool
  all_reduce_only votes = not (is_empty votes) && all (λ s. is_reduce_only s.action) votes

  unfoldable pub direction_of : Option F → Direction
  direction_of none = flat
  direction_of (some r) = if nought <? r then long else if r <? nought then short else flat

  module _ (config : CouncilConfig F) where
    unfoldable pub weight : AgentSignal F → F
    weight s = get_weight (get s.agent_id config.agent_weights)

    unfoldable pub weighted_capacity : List (AgentSignal F) → F
    weighted_capacity votes = sum (map weight votes)

    unfoldable pub effective_weight : List (AgentSignal F) → F
    effective_weight votes = sum (map (λ s. weight s ⊗ s.confidence) votes)

    -- The branch on `effective_weight == 0 or weighted_capacity == 0`.
    unfoldable pub has_no_weight : List (AgentSignal F) → Bool
    has_no_weight votes = effective_weight votes =? nought || weighted_capacity votes =? nought

    unfoldable pub conviction_of : List (AgentSignal F) → F
    conviction_of votes =
        if has_no_weight votes
        then (if weighted_capacity votes =? nought
            then nought
            else sum (map (λ s. weight s ⊗ or_zero s.target_exposure) votes)
              ⊘ weighted_capacity votes)
        else sum (map (λ s. weight s ⊗ s.confidence ⊗ or_zero s.target_exposure) votes)
          ⊘ effective_weight votes

    unfoldable pub expected_return_of : List (AgentSignal F) → Option F
    expected_return_of votes =
        if has_no_weight votes
        then none
        else some (
            sum (map (λ s. weight s ⊗ s.confidence ⊗ or_zero s.expected_return) votes)
            ⊘ effective_weight votes)

    unfoldable pub confidence_of : List (AgentSignal F) → F
    confidence_of votes =
        if has_no_weight votes then nought else effective_weight votes ⊘ weighted_capacity votes

    unfoldable pub is_weak : List (AgentSignal F) → Bool
    is_weak votes =
        not (all_explicitly_flat votes || all_reduce_only votes)
        && (confidence_of votes <? config.minimum_confidence
            || f.abs (conviction_of votes) <? config.minimum_conviction)

    -- The intent, and the exposure that goes with it.
    unfoldable pub intent_of : List (AgentSignal F) → ActionIntent × Option F
    intent_of votes =
        if is_empty votes then (abstain, none) else if is_weak votes then (no_action, none) else (
          (if all_reduce_only votes then reduce_only else target_exposure),
          some (if all_explicitly_flat votes then nought else conviction_of votes),
        )

    module _
        (decision_id : MarketSnapshot F → List (AgentSignal F) → ActionIntent → Option F → String)
        (snapshot : MarketSnapshot F) where
      -- The decision on signals that are sorted and validated; `first` and `others` are those signals.
      unfoldable pub decide : AgentSignal F → List (AgentSignal F) → Result (CouncilDecision F)
      decide first others =
          let ordered = first ∷ others in
          let votes = select is_vote ordered in
          let (action, exposure) = intent_of votes in
          validate_decision (record {
            decision_id = decision_id snapshot ordered action exposure;
            symbol = snapshot.symbol;
            timeframe = snapshot.timeframe;
            source_snapshot_id = snapshot.snapshot_id;
            source_as_of = snapshot.as_of;
            forecast_direction = direction_of (expected_return_of votes);
            expected_return = expected_return_of votes;
            target_exposure = exposure;
            action = action;
            conviction = conviction_of votes;
            confidence = confidence_of votes;
            decided_at = snapshot.observed_at;
            expires_at = earliest_expiry first.expires_at others;
            signals = ordered;
          })

      abbrev pub decide_sorted : List (AgentSignal F) → Result (CouncilDecision F)
      decide_sorted [] = err no_signals
      decide_sorted (first ∷ others) = do
        guard (has_unique_texts (map (λ s. s.agent_id) (first ∷ others))) duplicate_agents
        each (validate_signal_source snapshot) (first ∷ others)
        decide first others

      unfoldable pub aggregate : List (AgentSignal F) → Result (CouncilDecision F)
      aggregate signals = decide_sorted (sort_by (λ s. s.agent_id) signals)
