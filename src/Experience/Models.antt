-- ===== src/Experience/Models.antt =====
-- experience/models.py: what is kept of a decision, and of its outcome. The SHA-256 identities of evidence
-- and truth, and Pydantic's `==` on nested models, are parameters.
use the_council.Prelude.{
  ℕ, Bool, true, false, not, ◌&&◌, ◌||◌, Option, none, some, List, [], ◌∷◌, String, ◌==◌, map, ltb,
  leb, eqb, has_unique_texts,
}
use the_council.Result.{
  Result, ok, ◌>>◌, guard, refuse, episode_market, decision_time_mismatch, snapshot_after_decision,
  outputs_not_frozen, versions_mismatch, duplicate_weights, episode_provenance,
  risk_identity_mismatch, execution_without_risk, truth_experiments, truth_incomplete,
  truth_before_horizon, truth_before_judge, episode_schema, truth_time_mismatch,
  episode_identity_mismatch, query_range, version_without_agent,
}
use the_council.Schemas.Market.{MarketSnapshot, is_some}
use the_council.Schemas.Signal.{AgentSignal, CouncilDecision}
use the_council.Schemas.Order.{PortfolioState, ExecutionReport, ApprovedOrder}
use the_council.Council.Aggregator.{CouncilConfig}
use the_council.Risk.Policy.{RiskDecision}
use the_council.Experiments.Models.{OracleOutcome, ForecastEvaluation}

pub record AgentVersion : Type 0 where
  pub agent_id : String
  pub version : String

pub record AppliedWeight (F : Type 0) : Type 0 where
  pub agent_id : String
  pub weight : F

pub record DecisionEvidence (F : Type 0) : Type 0 where
  pub symbol : String
  pub asset_class : Option String
  pub timeframe : String
  pub decision_timestamp : ℕ
  pub market_data_content_identity : String
  pub market_data_version : String
  pub snapshot : MarketSnapshot F
  pub specialist_outputs : List (AgentSignal F)
  pub agent_versions : List AgentVersion
  pub council_config : CouncilConfig F
  pub applied_weights : List (AppliedWeight F)
  pub weight_generation_id : String
  pub council_decision : CouncilDecision F
  pub risk_policy_version : String
  pub risk_decision : Option (RiskDecision F)
  pub execution_report : Option (ExecutionReport F)
  pub portfolio_state : Option (PortfolioState F)
  pub backtest_run_id : String
  pub regime : Option String

pub record OutcomeTruth (F : Type 0) : Type 0 where
  pub oracle_outcome : OracleOutcome F
  pub judge_evaluation : ForecastEvaluation F
  pub available_at : ℕ

pub record ExperienceEpisode (F : Type 0) : Type 0 where
  pub schema_version : String
  pub evidence : DecisionEvidence F
  pub truth : Option (OutcomeTruth F)
  pub episode_id : String
  pub equivalence_id : String
  pub decision_cache_key : String

pub record EpisodeQuery : Type 0 where
  pub symbol : Option String
  pub start : Option ℕ
  pub end : Option ℕ
  pub weight_generation_id : Option String
  pub regime : Option String
  pub agent_id : Option String
  pub agent_version : Option String
  pub training_only : Bool

pub record CouncilReplay (F : Type 0) : Type 0 where
  pub episode_id : String
  pub snapshot : MarketSnapshot F
  pub specialist_outputs : List (AgentSignal F)
  pub original_council_config : CouncilConfig F
  pub original_weight_generation_id : String
  pub original_decision_id : String

pub record TemporalReplaySplit (F : Type 0) : Type 0 where
  pub cutoff : ℕ
  pub training : List (CouncilReplay F)
  pub held_out : List (CouncilReplay F)
  pub excluded_unavailable_truth : List String

-- The three identities of an episode: `_identity` of its materials.
pub record Identities (F : Type 0) : Type 0 where
  pub episode : DecisionEvidence F → Option (OutcomeTruth F) → String
  pub equivalence : DecisionEvidence F → Option (OutcomeTruth F) → String
  pub decision : DecisionEvidence F → String

abbrev pub experience_schema_version : String
experience_schema_version = "1.0"

abbrev same_versions : List AgentVersion → List AgentVersion → Bool
same_versions [] [] = true
same_versions (a ∷ as_) (b ∷ bs) =
    a.agent_id == b.agent_id && a.version == b.version && same_versions as_ bs
same_versions _ _ = false

abbrev starts_after : Option ℕ → Option ℕ → Bool
starts_after (some start) (some end_) = leb end_ start
starts_after _ _ = false

-- `EpisodeQuery.validate_range`.
unfoldable pub validate_query : EpisodeQuery → Result EpisodeQuery
validate_query q = do
  refuse (starts_after q.start q.end) query_range
  refuse (is_some q.agent_version && not (is_some q.agent_id)) version_without_agent
  ok q

-- `EpisodeQuery()`.
abbrev pub any_episode : EpisodeQuery
any_episode = record {
  symbol = none;
  start = none;
  end = none;
  weight_generation_id = none;
  regime = none;
  agent_id = none;
  agent_version = none;
  training_only = false;
}

module _ {F : Type 0} where
  abbrev pub versions_of : List (AgentSignal F) → List AgentVersion
  versions_of outputs =
      map (λ (s : AgentSignal F). record { agent_id = s.agent_id; version = s.agent_version })
        outputs

  abbrev order_differs : CouncilDecision F → Option (ApprovedOrder F) → Bool
  order_differs decision none = false
  order_differs decision (some order) = not (order.decision_id == decision.decision_id)

  abbrev risk_differs : CouncilDecision F → Option (RiskDecision F) → Bool
  risk_differs decision none = false
  risk_differs decision (some risk) = order_differs decision risk.approved_order

  -- `DecisionEvidence.validate_evidence`.
  unfoldable pub validate_evidence :
      (same_signals : List (AgentSignal F) → List (AgentSignal F) → Bool)
      → DecisionEvidence F
      → Result (DecisionEvidence F)
  validate_evidence same_signals e = do
    guard (e.symbol == e.snapshot.symbol && e.timeframe == e.snapshot.timeframe) episode_market
    guard (eqb e.decision_timestamp e.council_decision.decided_at) decision_time_mismatch
    refuse (ltb e.decision_timestamp e.snapshot.as_of) snapshot_after_decision
    guard (same_signals e.specialist_outputs e.council_decision.signals) outputs_not_frozen
    guard (same_versions e.agent_versions (versions_of e.specialist_outputs)) versions_mismatch
    guard (has_unique_texts (map (λ (w : AppliedWeight F). w.agent_id) e.applied_weights))
        duplicate_weights
    refuse
        (e.market_data_content_identity == ""
          || e.market_data_version == ""
          || e.weight_generation_id == ""
          || e.risk_policy_version == ""
          || e.backtest_run_id == "")
        episode_provenance
    refuse (risk_differs e.council_decision e.risk_decision) risk_identity_mismatch
    refuse (is_some e.execution_report && not (is_some e.risk_decision)) execution_without_risk
    ok e

  -- `OutcomeTruth.validate_truth`.
  unfoldable pub validate_truth : OutcomeTruth F → Result (OutcomeTruth F)
  validate_truth t = do
    guard (t.oracle_outcome.experiment_id == t.judge_evaluation.experiment_id) truth_experiments
    guard t.oracle_outcome.horizon_complete truth_incomplete
    refuse (ltb t.available_at t.oracle_outcome.horizon_end) truth_before_horizon
    refuse (ltb t.available_at t.judge_evaluation.evaluated_at) truth_before_judge
    ok t

  abbrev time_differs : DecisionEvidence F → Option (OutcomeTruth F) → Bool
  time_differs e none = false
  time_differs e (some t) = not (eqb t.oracle_outcome.evaluation_time e.snapshot.as_of)

  -- `ExperienceEpisode.validate_episode`.
  unfoldable pub validate_episode :
      Identities F → ExperienceEpisode F → Result (ExperienceEpisode F)
  validate_episode identities e = do
    guard (e.schema_version == experience_schema_version) episode_schema
    refuse (time_differs e.evidence e.truth) truth_time_mismatch
    let episode = identities.episode e.evidence e.truth
    let equivalence = identities.equivalence e.evidence e.truth
    let decision = identities.decision e.evidence
    guard (e.episode_id == "" || e.episode_id == episode) episode_identity_mismatch
    guard (e.equivalence_id == "" || e.equivalence_id == equivalence) episode_identity_mismatch
    guard (e.decision_cache_key == "" || e.decision_cache_key == decision) episode_identity_mismatch
    ok (record e {
      episode_id = episode;
      equivalence_id = equivalence;
      decision_cache_key = decision;
    })

  abbrev pub training_eligible : ExperienceEpisode F → Bool
  training_eligible e = is_some e.truth
