-- ===== src/Pipeline/Contextual.antt =====
-- The part of ResearchTradingPipeline.run that asks for the market context, with and without a context
-- service, and the specialists it consults.
use the_council.Prelude.{ℕ, Option, none, some, List, [], String, map}
use the_council.Floats.{Float}
use the_council.Result.{Result, ◌>>=◌}
use the_council.Schemas.Market.{MarketSnapshot}
use the_council.Schemas.Signal.{AgentSignal}
use the_council.Context.Capabilities.{Capabilities, price_history, only, minus}
use the_council.Context.Models.{
  ContextRequest, MarketContext, validate_market_context, validate_context_request,
}
use the_council.Context.Providers.{ContextProvider}
use the_council.Context.Service.{Cache, enrich}
use the_council.Context.Dispatch.{ContextAgent, requested_capabilities, analyze_with_context}

-- A context service: its providers, and its cache at the time of the run.
pub record ContextService (F : Type 0) : Type 0 where
  pub providers : List (ContextProvider F)
  pub cache : Cache F

module _ {F : Type 0} where
  abbrev pub context_request :
      (symbol timeframe : String) (evaluated : ℕ) → Capabilities × Capabilities → ContextRequest F
  context_request symbol timeframe evaluated (required, optional) = record {
    instrument = symbol;
    timeframe = timeframe;
    as_of = evaluated;
    required = required;
    optional = optional;
    configuration = [];
  }

  abbrev pub bare_context : MarketSnapshot F → ContextRequest F → MarketContext F
  bare_context snapshot request = record {
    snapshot = snapshot;
    as_of = request.as_of;
    data_items = [];
    requested_required = request.required;
    requested_optional = request.optional;
    missing_required = minus request.required (only price_history);
    missing_optional = minus request.optional (only price_history);
    context_id = "";
  }

module _ {F : Type 0} ⦃f : Float F⦄ (context_identity : MarketContext F → String)
    (request_identity : ContextRequest F → String) (symbol timeframe : String) (evaluated : ℕ) where
  abbrev pub context_by :
      Option (ContextService F) → MarketSnapshot F → ContextRequest F → Result (MarketContext F)
  context_by none snapshot request =
      validate_market_context context_identity (bare_context snapshot request)
  context_by (some service) snapshot request =
      (enrich request_identity context_identity service.providers snapshot request service.cache).0

  unfoldable pub market_context :
      Option (ContextService F)
      → List (ContextAgent F)
      → MarketSnapshot F
      → Result (MarketContext F)
  market_context service agents snapshot = do
    requested ← requested_capabilities agents
    request ← validate_context_request (context_request symbol timeframe evaluated requested)
    context_by service snapshot request

-- The specialists, as the pipeline calls them.
abbrev pub consulted :
    {F : Type 0} ⦃f : Float F⦄ (rationale : List String → String) (run_id : String)
    → List (ContextAgent F)
    → List (MarketContext F → Result (AgentSignal F))
consulted rationale run_id agents =
    map (λ a c. analyze_with_context rationale a c (record { run_id = run_id; parameters = [] }))
      agents
