-- ===== src/Risk/Timely.antt =====
-- When the governor has nothing against the timing and the sources.
use the_council.Prelude.{
  ℕ, ◌-◌, ◌≤◌, ◌≡◌, ◌≢◌, ◌↔◌, Option, none, some, List, [], ◌∷◌, String, eq_iff, arith, All,
  append-eq-nil, gather,
}
use the_council.Datetime.{microseconds}
use the_council.Schemas.Enums.{invalid}
use the_council.Schemas.Market.{MarketBar, MarketSnapshot, VolatilityObservation}
use the_council.Schemas.Signal.{AgentSignal, CouncilDecision}
use the_council.Schemas.Order.{Position, PortfolioState}
use the_council.Risk.Policy.{RiskPolicy, Reason}
use the_council.Risk.Causal.{
  age_reasons, mark_reasons, volatility_reasons, signal_reasons, causal_reasons,
}

-- The time is not after now, nor older than the limit.
abbrev pub IsTimely : ℕ → ℕ → ℕ → Type 0
IsTimely now time limit = (time ≤ now) × (now - time ≤ microseconds limit)

module _ {F : Type 0} (policy : RiskPolicy F) (snapshot : MarketSnapshot F) (now : ℕ) where
  abbrev pub IsVolatilityTimely : Option (VolatilityObservation F) → Type 0
  IsVolatilityTimely none = Unit
  IsVolatilityTimely (some v) = IsTimely now v.observed_at policy.max_observation_age_seconds

  pub record IsSignalTimely (s : AgentSignal F) : Type 0 where
    pub age : IsTimely now s.generated_at policy.max_signal_age_seconds
    pub alive : now ≤ s.expires_at
    pub usable : s.validity ≢ invalid
    pub source : (s.source_snapshot_id ≡ snapshot.snapshot_id) × (s.source_as_of ≡ snapshot.as_of)
    pub informed : snapshot.observed_at ≤ s.generated_at
    pub volatility : IsVolatilityTimely s.volatility

  pub record IsCausal (decision : CouncilDecision F) (newest : MarketBar F)
      (portfolio : PortfolioState F) : Type 0 where
    pub market : (decision.symbol ≡ snapshot.symbol) × (decision.timeframe ≡ snapshot.timeframe)
    pub source :
        (decision.source_snapshot_id ≡ snapshot.snapshot_id)
        × (decision.source_as_of ≡ snapshot.as_of)
    pub past : (snapshot.as_of ≤ now) × (snapshot.observed_at ≤ now)
    pub observation : IsTimely now newest.available_at policy.max_observation_age_seconds
    pub marked : portfolio.valued_at ≡ now
    pub marks :
        All
          (λ (p : Position F). IsTimely now p.mark_observed_at policy.max_observation_age_seconds)
          portfolio.positions
    pub decided : IsTimely now decision.decided_at policy.max_signal_age_seconds
    pub alive : now ≤ decision.expires_at
    pub signals : All IsSignalTimely decision.signals

  age_reasons-eq-nil :
      (time limit : ℕ) (future stale : Reason)
      → (age_reasons now time limit future stale ≡ []) ↔ IsTimely now time limit
  age_reasons-eq-nil time limit future stale = ground arith

  volatility_reasons-eq-nil :
      (agent : String) (o : Option (VolatilityObservation F))
      → (volatility_reasons policy snapshot now agent o ≡ []) ↔ IsVolatilityTimely o
  volatility_reasons-eq-nil agent none = ground arith
  volatility_reasons-eq-nil agent (some v) = ground arith

  signal_reasons-eq-nil :
      (s : AgentSignal F) → (signal_reasons policy snapshot now s ≡ []) ↔ IsSignalTimely s
  unfolding signal_reasons
  signal_reasons-eq-nil s = ground (
    arith,
    eq_iff s.source_snapshot_id snapshot.snapshot_id,
    volatility_reasons-eq-nil s.agent_id s.volatility,
  )

  marks-eq-nil :
      (ps : List (Position F))
      → (gather (mark_reasons policy snapshot now) ps ≡ [])
        ↔ All
            (λ (p : Position F). IsTimely now p.mark_observed_at policy.max_observation_age_seconds)
            ps
  marks-eq-nil [] = ground arith
  marks-eq-nil (p ∷ ps) = ground (
    arith,
    append-eq-nil (mark_reasons policy snapshot now p)
        (gather (mark_reasons policy snapshot now) ps),
    marks-eq-nil ps,
  )

  signals-eq-nil :
      (ss : List (AgentSignal F))
      → (gather (signal_reasons policy snapshot now) ss ≡ []) ↔ All IsSignalTimely ss
  signals-eq-nil [] = ground arith
  signals-eq-nil (s ∷ ss) = ground (
    arith,
    append-eq-nil (signal_reasons policy snapshot now s)
        (gather (signal_reasons policy snapshot now) ss),
    signal_reasons-eq-nil s,
    signals-eq-nil ss,
  )

  -- The governor has nothing to hold against the timing and the sources exactly if the decision is
  -- on the market and on the snapshot, which are past; the newest bar, every mark, the decision,
  -- every signal and every volatility are neither from the future nor stale; the portfolio is marked
  -- at this instant; and the decision and every signal are unexpired, every signal is not invalid, is
  -- of the snapshot and was not made before it was observed.
  pub causal_reasons_iff :
      (decision : CouncilDecision F) (newest : MarketBar F) (portfolio : PortfolioState F)
      → (causal_reasons policy snapshot now decision newest portfolio ≡ [])
        ↔ IsCausal decision newest portfolio
  unfolding causal_reasons
  causal_reasons_iff decision newest portfolio = ground (
    arith,
    eq_iff decision.symbol snapshot.symbol,
    eq_iff decision.timeframe snapshot.timeframe,
    eq_iff decision.source_snapshot_id snapshot.snapshot_id,
    marks-eq-nil portfolio.positions,
    signals-eq-nil decision.signals,
  )
