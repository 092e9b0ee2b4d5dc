-- ===== src/Experience/Episode.antt =====
-- `episode_from_experiment` of experience/models.py.
use the_council.Prelude.{Bool, Option, none, some, List, String, map}
use Prim.Native.String.{◌++◌}
use the_council.Floats.{Float, nonneg_finite}
use the_council.Result.{
  Result, ok, ◌>>=◌, ◌>>◌, guard, of_option, traverse, invalid_field, not_complete,
  missing_artifacts,
}
use the_council.Schemas.Signal.{AgentSignal}
use the_council.MarketData.Models.{provider_value}
use the_council.Experiments.Models.{
  ExperimentRecord, ExperimentContext, Forecast, BlindInputProvenance, is_state, complete,
}
use the_council.Experience.Models.{
  AppliedWeight, DecisionEvidence, ExperienceEpisode, Identities, validate_evidence, validate_truth,
  validate_episode, experience_schema_version,
}

-- The keyword arguments, with `weights-v0000`, `not-applicable` and twice `None` where they are left out.
pub record EpisodeOptions : Type 0 where
  pub weight_generation_id : String
  pub risk_policy_version : String
  pub regime : Option String
  pub asset_class : Option String

abbrev pub default_options : EpisodeOptions
default_options = record {
  weight_generation_id = "weights-v0000";
  risk_policy_version = "not-applicable";
  regime = none;
  asset_class = none;
}

module _ {F : Type 0} ⦃f : Float F⦄
    (same_signals : List (AgentSignal F) → List (AgentSignal F) → Bool)
    (identities : Identities F) where
  abbrev applied_weight : String × F → Result (AppliedWeight F)
  applied_weight (agent, weight) = do
    guard (nonneg_finite weight) invalid_field
    ok (record { agent_id = agent; weight = weight })

  abbrev data_version : BlindInputProvenance → String
  data_version p =
      provider_value p.provider
      ++ (":" ++ (p.source_version ++ (":" ++ p.adapter_semantic_version)))

  unfoldable pub evidence_of :
      EpisodeOptions
      → ExperimentRecord F
      → ExperimentContext F
      → Forecast F
      → Result (DecisionEvidence F)
  evidence_of options r context forecast = do
    weights ← traverse applied_weight forecast.council_weights
    validate_evidence same_signals (record {
      symbol = r.request.instrument;
      asset_class = options.asset_class;
      timeframe = r.request.timeframe;
      decision_timestamp = forecast.council_decision.decided_at;
      market_data_content_identity = context.provenance.content_identity;
      market_data_version = data_version context.provenance;
      snapshot = context.snapshot;
      specialist_outputs = forecast.agent_forecasts;
      agent_versions =
          map (λ (v : String × String). record { agent_id = v.0; version = v.1 })
            forecast.agent_versions;
      council_config = r.request.council;
      applied_weights = weights;
      weight_generation_id = options.weight_generation_id;
      council_decision = forecast.council_decision;
      risk_policy_version = options.risk_policy_version;
      risk_decision = none;
      execution_report = none;
      portfolio_state = r.request.starting_portfolio;
      backtest_run_id = r.experiment_id;
      regime = options.regime;
    })

  unfoldable pub episode_from_experiment :
      EpisodeOptions → ExperimentRecord F → Result (ExperienceEpisode F)
  episode_from_experiment options r = do
    guard (is_state r.state complete) not_complete
    context ← of_option missing_artifacts r.context
    forecast ← of_option missing_artifacts r.forecast
    outcome ← of_option missing_artifacts r.oracle_outcome
    evaluation ← of_option missing_artifacts r.evaluation
    evidence ← evidence_of options r context forecast
    truth ← validate_truth (record {
      oracle_outcome = outcome;
      judge_evaluation = evaluation;
      available_at = evaluation.evaluated_at;
    })
    validate_episode identities (record {
      schema_version = experience_schema_version;
      evidence = evidence;
      truth = some truth;
      episode_id = "";
      equivalence_id = "";
      decision_cache_key = "";
    })
