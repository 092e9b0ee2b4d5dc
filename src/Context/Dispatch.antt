-- ===== src/Context/Dispatch.antt =====
-- context/dispatch.py: what context an agent declares, and the call of an agent with a market context.
use the_council.Datetime.{add_time}
use the_council.Prelude.{max, if◌then◌else◌, none, List, [], ◌∷◌, String, ℕ}
use the_council.Floats.{Float, nought}
use the_council.Dict.{Dict, put}
use the_council.Result.{Result, ok, err, ◌>>=◌, invalid_declaration}
use the_council.Schemas.Enums.{flat, abstain, SignalValidity}
use the_council.Schemas.Signal.{AgentSignal, validate_signal}
use the_council.Agents.{
  SpecialistAgent, AgentContext, Parameter, word, words, warmup_bars, timeframe_delta,
}
use the_council.Context.Capabilities.{
  price_history, Capabilities, no_capabilities, only, union, minus, is_none, names,
}
use the_council.Context.Models.{MarketContext, available_in}

-- A declaration of an agent: left out, a frozen set of capabilities, or something else.
pub data Declaration : Type 0 where
  undeclared : Declaration
  declared : Capabilities → Declaration
  malformed : Declaration

pub record ContextAgent (F : Type 0) : Type 0 where
  pub agent : SpecialistAgent F
  pub required_context_capabilities : Declaration
  pub optional_context_capabilities : Declaration

abbrev pub declaration : String → Declaration → Result Capabilities
declaration agent undeclared = ok no_capabilities
declaration agent (declared capabilities) = ok capabilities
declaration agent malformed = err (invalid_declaration agent)

module _ {F : Type 0} where
  unfoldable pub required_capabilities : ContextAgent F → Result Capabilities
  required_capabilities a = do
    capabilities ← declaration a.agent.agent_id a.required_context_capabilities
    ok (union capabilities (only price_history))

  unfoldable pub optional_capabilities : ContextAgent F → Result Capabilities
  optional_capabilities a = do
    capabilities ← declaration a.agent.agent_id a.optional_context_capabilities
    required ← required_capabilities a
    ok (minus capabilities required)

  -- The loop over the agents.
  abbrev pub requested_from :
      Capabilities → Capabilities → List (ContextAgent F) → Result (Capabilities × Capabilities)
  requested_from required optional [] = ok (required, minus optional required)
  requested_from required optional (a ∷ agents) = do
    more_required ← required_capabilities a
    more_optional ← optional_capabilities a
    requested_from (union required more_required) (union optional more_optional) agents

  unfoldable pub requested_capabilities :
      List (ContextAgent F) → Result (Capabilities × Capabilities)
  requested_capabilities agents = requested_from (only price_history) no_capabilities agents

  -- `MarketContext.available_capabilities`.
  abbrev pub available_capabilities : MarketContext F → Capabilities
  available_capabilities c = available_in c.data_items

  -- The parameters that the agent is called with.
  unfoldable pub context_parameters :
      MarketContext F → Capabilities → Dict Parameter → Dict Parameter
  context_parameters c missing_optional parameters =
      put "missing_optional_context" (words (names missing_optional)) (
        put "available_context_capabilities" (words (names (available_capabilities c)))
          (put "market_context_id" (word c.context_id) parameters))

module _ {F : Type 0} ⦃f : Float F⦄ where
  -- The signal of an agent whose required context is missing; `rationale` renders the names.
  unfoldable pub abstaining :
      (rationale : List String → String)
      → ContextAgent F
      → MarketContext F
      → Capabilities
      → (bars expires : ℕ) → AgentSignal F
  abstaining rationale a c missing_required bars expires = record {
    version = "1.1";
    agent_id = a.agent.agent_id;
    agent_version = a.agent.agent_version;
    signal_type = a.agent.signal_type;
    symbol = c.snapshot.symbol;
    timeframe = c.snapshot.timeframe;
    source_snapshot_id = c.snapshot.snapshot_id;
    source_as_of = c.as_of;
    forecast_direction = flat;
    expected_return = none;
    target_exposure = none;
    action = abstain;
    validity = SignalValidity.insufficient_data;
    confidence = nought;
    horizon_bars = max 1 bars;
    generated_at = c.snapshot.observed_at;
    expires_at = expires;
    rationale = rationale (names missing_required);
    volatility = none;
  }

  unfoldable pub abstention :
      (rationale : List String → String)
      → ContextAgent F
      → MarketContext F
      → Capabilities
      → Result (AgentSignal F)
  abstention rationale a c missing_required = do
    bars ← warmup_bars a.agent c.snapshot.timeframe
    delta ← timeframe_delta c.snapshot.timeframe
    expires ← add_time c.snapshot.observed_at delta
    validate_signal (abstaining rationale a c missing_required bars expires)

  unfoldable pub consult :
      ContextAgent F → MarketContext F → Capabilities → AgentContext → Result (AgentSignal F)
  consult a c missing_optional agent_context = do
    signal ← a.agent.analyze c.snapshot (record {
      run_id = agent_context.run_id;
      parameters = context_parameters c missing_optional agent_context.parameters;
    })
    validate_signal signal

  unfoldable pub analyze_with_context :
      (rationale : List String → String)
      → ContextAgent F
      → MarketContext F
      → AgentContext
      → Result (AgentSignal F)
  analyze_with_context rationale a c agent_context = do
    required ← required_capabilities a
    optional ← optional_capabilities a
    let missing_required = minus required (available_capabilities c)
    let missing_optional = minus optional (available_capabilities c)
    if is_none missing_required
        then consult a c missing_optional agent_context
        else abstention rationale a c missing_required
