-- ===== src/Experiments/Forecasting.antt =====
-- experiments/forecasting.py. The SHA-256 of the forecast's material is `forecast_id`.
use the_council.Prelude.{List, String, ◌==◌, any, ltb, map}
use the_council.Prelude.Sort.{sort_by}
use the_council.Floats.{Float}
use the_council.Agents.{SpecialistAgent}
use the_council.Result.{Result, ◌>>=◌, ◌>>◌, guard, refuse, traverse, raised}
use the_council.Schemas.Enums.{ActionIntent}
use the_council.Schemas.Market.{MarketSnapshot}
use the_council.Schemas.Signal.{AgentSignal, CouncilDecision}
use the_council.Prelude.{Option}
use the_council.Council.Aggregator.{aggregate}
use the_council.Experiments.Models.{
  ExperimentAgentConfig, ExperimentRequest, ExperimentContext, BlindInputProvenance, Forecast,
  Equality, validate_forecast,
}

module _ {F : Type 0} ⦃f : Float F⦄ (eq : Equality F)
    (build_agents : List (ExperimentAgentConfig F) → Result (List (SpecialistAgent F)))
    (identity : ExperimentRequest F → String)
    (decision_id : MarketSnapshot F → List (AgentSignal F) → ActionIntent → Option F → String)
    (forecast_id : String → CouncilDecision F → BlindInputProvenance → String) where
  -- The forecast that agents, signals and decision make up.
  unfoldable pub forecast_of :
      ExperimentRequest F
      → ExperimentContext F
      → List (SpecialistAgent F)
      → List (AgentSignal F)
      → CouncilDecision F
      → Result (Forecast F)
  forecast_of request context agents signals decision = validate_forecast eq (record {
    forecast_id = forecast_id (identity request) decision context.provenance;
    experiment_id = identity request;
    evaluation_time = request.evaluation_time;
    instrument = request.instrument;
    forecast_horizon = request.forecast_horizon;
    expected_return = decision.expected_return;
    direction = decision.forecast_direction;
    confidence = decision.confidence;
    agent_forecasts = signals;
    council_decision = decision;
    council_weights = sort_by (λ (e : String × F). e.0) request.council.agent_weights;
    source_provenance = context.provenance;
    agent_versions = map (λ agent. (agent.agent_id, agent.agent_version)) agents;
    finalized_at = request.evaluation_time;
  })

  -- `BlindForecaster.forecast`.
  unfoldable pub forecast : ExperimentRequest F → ExperimentContext F → Result (Forecast F)
  forecast request context = do
    guard (context.experiment_id == identity request)
        (raised "context belongs to a different experiment")
    refuse (any (λ bar. ltb request.evaluation_time bar.available_at) context.snapshot.bars)
        (raised "forecasting context contains future data")
    agents ← build_agents request.agents
    signals ← traverse (λ agent. agent.analyze context.snapshot context.agent_context) agents
    decision ← aggregate request.council decision_id context.snapshot signals
    forecast_of request context agents signals decision
