-- ===== src/Experiments/Ordered.antt =====
-- A forecast repeats the council's signals, which the council has sorted.
use the_council.Prelude.{
  arith, ◌≡◌, sym, ap, ◌∙◌, Option, List, [], ◌∷◌, String, map, any, ltb, ◌==◌, has_unique_texts,
  true,
}
use the_council.Prelude.Sort.{sort_by}
use the_council.Floats.{Float}
use the_council.Agents.{SpecialistAgent}
use the_council.Result.{
  Result, ok, guard, refuse, each, traverse, raised, duplicate_agents, >>=-eq-ok,
}
use the_council.Schemas.Enums.{ActionIntent}
use the_council.Schemas.Market.{MarketSnapshot}
use the_council.Schemas.Signal.{AgentSignal, CouncilDecision}
use the_council.Council.Aggregator.{
  CouncilConfig, aggregate, decide_sorted, decide, validate_signal_source,
}
use the_council.Council.Decision.{validate_decision-eq-ok}
use the_council.Experiments.Models.{
  ExperimentAgentConfig, ExperimentRequest, ExperimentContext, BlindInputProvenance, Forecast,
  Equality, IsEquality, validate_forecast,
}
use the_council.Experiments.Forecasting.{forecast, forecast_of}

module _ {F : Type 0} ⦃f : Float F⦄ where
  abbrev pub agent_ids : List (AgentSignal F) → List String
  agent_ids = map (λ s. s.agent_id)

  abbrev pub by_agent : List (AgentSignal F) → List (AgentSignal F)
  by_agent = sort_by (λ s. s.agent_id)

  signals-decide_sorted :
      (config : CouncilConfig F)
      (decision_id : MarketSnapshot F → List (AgentSignal F) → ActionIntent → Option F → String)
      (snapshot : MarketSnapshot F) (sorted : List (AgentSignal F)) (d : CouncilDecision F)
      → decide_sorted config decision_id snapshot sorted ≡ ok d
      → d.signals ≡ sorted
  unfolding decide
  signals-decide_sorted config decision_id snapshot [] d h = absurd (cc)
  signals-decide_sorted config decision_id snapshot (s ∷ others) d h =
      let (_, u, h1) =
        >>=-eq-ok (guard (has_unique_texts (agent_ids (s ∷ others))) duplicate_agents) _ h in
      let (_, v, h2) = >>=-eq-ok (each (validate_signal_source snapshot) (s ∷ others)) _ h1 in
      ap (λ q. q.signals) (validate_decision-eq-ok _ d h2).0

  module _ (eq : Equality F)
      (build_agents : List (ExperimentAgentConfig F) → Result (List (SpecialistAgent F)))
      (identity : ExperimentRequest F → String)
      (decision_id : MarketSnapshot F → List (AgentSignal F) → ActionIntent → Option F → String)
      (forecast_id : String → CouncilDecision F → BlindInputProvenance → String)
      (laws : IsEquality eq) where
    validate_forecast-eq-ok :
        (r q : Forecast F)
        → validate_forecast eq r ≡ ok q
        → (q ≡ r) × (eq.same_signals r.council_decision.signals r.agent_forecasts ≡ true)
    unfolding validate_forecast
    validate_forecast-eq-ok r q h = ground arith

    -- Where equal signals have equal names, a forecast is made only if the agents' signals came in the
    -- order of their agents' names: the signals that it keeps have the names that they have when they
    -- are sorted.
    pub forecast_in_order :
        (request : ExperimentRequest F) (context : ExperimentContext F) (made : Forecast F)
        → forecast eq build_agents identity decision_id forecast_id request context ≡ ok made
        → agent_ids made.agent_forecasts ≡ agent_ids (by_agent made.agent_forecasts)
    unfolding forecast forecast_of aggregate
    forecast_in_order request context made h =
        let (_, a, h1) =
          >>=-eq-ok
            (guard (context.experiment_id == identity request)
              (raised "context belongs to a different experiment"))
            _ h in
        let (_, b, h2) =
          >>=-eq-ok
            (refuse
              (any (λ bar. ltb request.evaluation_time bar.available_at) context.snapshot.bars)
              (raised "forecasting context contains future data"))
            _ h1 in
        let (agents, c, h3) = >>=-eq-ok (build_agents request.agents) _ h2 in
        let (signals, d, h4) =
          >>=-eq-ok
            (traverse (λ agent. agent.analyze context.snapshot context.agent_context) agents) _
            h3 in
        let (decision, e, h5) =
          >>=-eq-ok (aggregate request.council decision_id context.snapshot signals) _ h4 in
        let (same, frozen) = validate_forecast-eq-ok _ made h5 in
        let sorted =
          signals-decide_sorted request.council decision_id context.snapshot (by_agent signals)
            decision e in
        let kept : made.agent_forecasts ≡ signals = ap (λ q. q.agent_forecasts) same in
        ap agent_ids kept
        ∙ sym (laws.signals_ids decision.signals signals frozen)
        ∙ ap agent_ids sorted
        ∙ sym (ap (λ xs. agent_ids (by_agent xs)) kept)
