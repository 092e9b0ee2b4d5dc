-- ===== src/Pipeline/Desk.antt =====
-- The collaborators of a pipeline, and what it makes of the market data for the positions that are held.
use the_council.Prelude.{ℕ, Bool, ◌||◌, if◌then◌else◌, Option, List, String, ◌==◌, ltb}
use the_council.Floats.{Float, positive_finite}
use the_council.Result.{
  Result, ok, ◌>>=◌, ◌>>◌, refuse, guard, future_portfolio_mark, invalid_field,
}
use the_council.Schemas.Enums.{ActionIntent, OrderSide}
use the_council.Schemas.Market.{MarketSnapshot, PriceObservation, newest_bar}
use the_council.Schemas.Signal.{AgentSignal, CouncilDecision}
use the_council.Schemas.Order.{Position, PortfolioState, ExecutionReport, ExecutionCostBounds}
use the_council.Council.Aggregator.{CouncilConfig}
use the_council.Risk.Policy.{RiskPolicy, RiskDecision, RiskReconciliation}

-- The collaborators of a pipeline. `M` is the type of market contexts.
pub record Desk (F M : Type 0) : Type 0 where
  pub snapshot : String → String → ℕ → Result (MarketSnapshot F)
  pub enrich : MarketSnapshot F → Result M
  pub agents : List (M → Result (AgentSignal F))
  pub config : CouncilConfig F
  pub decision_id : MarketSnapshot F → List (AgentSignal F) → ActionIntent → Option F → String
  pub policy : RiskPolicy F
  pub authorization_id : CouncilDecision F → OrderSide → F → F → ℕ → String

pub record PipelineResult (F : Type 0) : Type 0 where
  pub snapshot : MarketSnapshot F
  pub signals : List (AgentSignal F)
  pub council_decision : CouncilDecision F
  pub risk_decision : RiskDecision F
  pub execution_report : Option (ExecutionReport F)
  pub post_fill_reconciliation : Option RiskReconciliation

-- What is known when the governor has decided.
pub record Prepared (F : Type 0) : Type 0 where
  pub snapshot : MarketSnapshot F
  pub signals : List (AgentSignal F)
  pub council_decision : CouncilDecision F
  pub marked : PortfolioState F
  pub costs : ExecutionCostBounds F
  pub risk_decision : RiskDecision F

-- `snapshot.as_of > evaluated_at or snapshot.observed_at > evaluated_at`.
abbrev pub is_late : {F : Type 0} → ℕ → MarketSnapshot F → Bool
is_late evaluated s = ltb evaluated s.as_of || ltb evaluated s.observed_at

module _ {F M : Type 0} ⦃f : Float F⦄ (desk : Desk F M) (snapshot : MarketSnapshot F)
    (symbol timeframe : String) (evaluated : ℕ) where
  abbrev held_snapshot : String → Result (MarketSnapshot F)
  held_snapshot held =
      let other = desk.snapshot held timeframe evaluated in
      if held == symbol then ok snapshot else other

  -- One round of the loop over the held positions.
  unfoldable pub observe : Position F → Result (PriceObservation F)
  observe position = do
    held ← held_snapshot position.symbol
    refuse (is_late evaluated held) future_portfolio_mark
    newest ← newest_bar held
    guard (positive_finite newest.close) invalid_field
    ok (record {
      symbol = position.symbol;
      price = newest.close;
      observed_at = newest.available_at;
      source_snapshot_id = held.snapshot_id;
    })
