-- ===== src/Experiments/Composed.antt =====
-- The collaborators that `ExperimentService.__init__` builds from a historical provider, with all that
-- they take from other packages: regular expressions, SHA-256, Pydantic's equality; and the agents.
use the_council.Prelude.{ℕ, Bool, List, Option, String}
use the_council.Floats.{Float}
use the_council.Agents.{SpecialistAgent}
use the_council.Result.{Result}
use the_council.Schemas.Enums.{ActionIntent}
use the_council.Schemas.Market.{MarketBar, MarketSnapshot}
use the_council.Schemas.Signal.{AgentSignal, CouncilDecision}
use the_council.MarketData.Models.{ProviderId, HistoricalRequest, HistoricalBars}
use the_council.Experiments.Models.{
  ExperimentAgentConfig, ExperimentRequest, BlindInputProvenance, Equality,
}
use the_council.Experiments.Context.{build}
use the_council.Experiments.Forecasting.{forecast}
use the_council.Experiments.Oracle.{historical_outcome, evaluate_forecast}
use the_council.Experiments.Service.{Collaborators}

pub record Setting (F : Type 0) : Type 0 where
  pub eq : Equality F
  pub matches : String → Bool
  pub digest : String → String → ℕ → List (MarketBar F) → String
  pub cache_key : ProviderId → HistoricalRequest → String
  pub content_identity : HistoricalBars F → String
  pub identity : ExperimentRequest F → String
  pub decision_id : MarketSnapshot F → List (AgentSignal F) → ActionIntent → Option F → String
  pub forecast_id : String → CouncilDecision F → BlindInputProvenance → String
  pub build_agents : List (ExperimentAgentConfig F) → Result (List (SpecialistAgent F))

module _ {F : Type 0} ⦃f : Float F⦄ (s : Setting F) where
  abbrev pub collaborators : (HistoricalRequest → Result (HistoricalBars F)) → Collaborators F
  collaborators fetch = record {
    build = build s.build_agents s.matches s.digest s.content_identity s.identity fetch;
    forecast = forecast s.eq s.build_agents s.identity s.decision_id s.forecast_id;
    outcome = historical_outcome s.content_identity s.identity fetch;
    evaluate = evaluate_forecast;
  }
