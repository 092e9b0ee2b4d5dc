-- ===== src/Risk/Causal.antt =====
-- `_causal_reasons`: everything that the governor holds against the timing and the sources.
use the_council.Prelude.{
  ℕ, not, ◌||◌, if◌then◌else◌, Option, none, some, List, [], ◌∷◌, ◌++◌, String, ◌==◌, ltb, eqb,
  note, gather,
}
use the_council.Datetime.{is_future, is_older}
use the_council.Schemas.Enums.{is_invalid}
use the_council.Schemas.Market.{MarketBar, MarketSnapshot, VolatilityObservation}
use the_council.Schemas.Signal.{AgentSignal, CouncilDecision}
use the_council.Schemas.Order.{Position, PortfolioState}
use the_council.Risk.Policy.{
  RiskPolicy, Reason, market_mismatch, source_mismatch, snapshot_future, observation_future,
  observation_stale, portfolio_not_marked, mark_future, mark_stale, decision_future, decision_stale,
  decision_expired, signal_future, signal_stale, signal_expired, signal_invalid,
  signal_wrong_source, signal_predates_source, volatility_future, volatility_stale,
}

-- `if age < 0: future elif age > limit: stale`.
abbrev pub age_reasons : ℕ → ℕ → ℕ → Reason → Reason → List Reason
age_reasons now time limit future stale =
    if is_future now time then future ∷ [] else note (is_older now time limit) stale

module _ {F : Type 0} (policy : RiskPolicy F) (snapshot : MarketSnapshot F) (now : ℕ) where
  abbrev pub mark_reasons : Position F → List Reason
  mark_reasons p =
      age_reasons now p.mark_observed_at policy.max_observation_age_seconds (mark_future p.symbol)
        (mark_stale p.symbol)

  abbrev pub volatility_reasons : String → Option (VolatilityObservation F) → List Reason
  volatility_reasons agent none = []
  volatility_reasons agent (some v) =
      age_reasons now v.observed_at policy.max_observation_age_seconds (volatility_future agent)
        (volatility_stale agent)

  unfoldable pub signal_reasons : AgentSignal F → List Reason
  signal_reasons s =
      age_reasons now s.generated_at policy.max_signal_age_seconds (signal_future s.agent_id)
        (signal_stale s.agent_id)
      ++ (note (ltb s.expires_at now) (signal_expired s.agent_id)
          ++ (note (is_invalid s.validity) (signal_invalid s.agent_id)
              ++ (note
                    (not (s.source_snapshot_id == snapshot.snapshot_id)
                      || not (eqb s.source_as_of snapshot.as_of))
                    (signal_wrong_source s.agent_id)
                  ++ (note (ltb s.generated_at snapshot.observed_at)
                        (signal_predates_source s.agent_id)
                      ++ volatility_reasons s.agent_id s.volatility))))

  -- `newest` is `snapshot.bars[-1]`.
  unfoldable pub causal_reasons : CouncilDecision F → MarketBar F → PortfolioState F → List Reason
  causal_reasons decision newest portfolio =
      note
        (not (decision.symbol == snapshot.symbol) || not (decision.timeframe == snapshot.timeframe))
        market_mismatch
      ++ (note
            (not (decision.source_snapshot_id == snapshot.snapshot_id)
              || not (eqb decision.source_as_of snapshot.as_of))
            source_mismatch
          ++ (note (ltb now snapshot.as_of || ltb now snapshot.observed_at) snapshot_future
              ++ (age_reasons now newest.available_at policy.max_observation_age_seconds
                    observation_future observation_stale
                  ++ (note (not (eqb portfolio.valued_at now)) portfolio_not_marked
                      ++ (gather mark_reasons portfolio.positions
                          ++ (age_reasons now decision.decided_at policy.max_signal_age_seconds
                                decision_future decision_stale
                              ++ (note (ltb decision.expires_at now) decision_expired
                                  ++ gather signal_reasons decision.signals)))))))
