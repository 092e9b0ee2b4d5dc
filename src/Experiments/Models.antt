-- ===== src/Experiments/Models.antt =====
-- The models of experiments/models.py. A model's nested models have passed their own validators.
-- `identity` is the SHA-256 of a request's canonical text.
use the_council.Datetime.{add_time}
use the_council.Prelude.{
  ℕ, ◌%◌, Bool, true, false, ◌&&◌, ◌||◌, not, Option, none, some, List, [], ◌∷◌, String, ◌==◌,
  is_empty, map, has_unique_texts, any, ltb, leb, eqb, get_last?, ◌≡◌,
}
use the_council.Prelude.Int.{ℤ}
use the_council.Floats.{Float, unit_float, opt_all}
use the_council.Dict.{Dict}
use the_council.Agents.{AgentContext, duration_of}
use the_council.Result.{
  Result, ok, ◌>>=◌, ◌>>◌, guard, refuse, invalid_field, agents_required, duplicate_kinds,
  horizon_not_multiple, context_cutoff, context_future, context_snapshot, context_run,
  forecast_snapshot, outcome_measurements, record_identity, lifecycle_tail, lifecycle_not_monotonic,
  forecast_before_lock, outcome_before_forecast, evaluation_without_outcome,
  complete_without_evaluation, signals_not_frozen,
}
use the_council.Schemas.Enums.{Direction}
use the_council.Schemas.Market.{MarketSnapshot, is_some, same}
use the_council.Schemas.Signal.{AgentSignal, CouncilDecision}
use the_council.Schemas.Order.{PortfolioState}
use the_council.Council.Aggregator.{CouncilConfig}
use the_council.MarketData.Models.{ProviderId, HistoricalRequest}

pub data ExperimentState : Type 0 where
  created context_ready forecasting forecast_locked evaluating complete failed : ExperimentState

abbrev pub state_value : ExperimentState → String
state_value created = "created"
state_value context_ready = "context_ready"
state_value forecasting = "forecasting"
state_value forecast_locked = "forecast_locked"
state_value evaluating = "evaluating"
state_value complete = "complete"
state_value failed = "failed"

-- `state in {CREATED, CONTEXT_READY, FORECASTING}`.
abbrev pub is_before_lock : ExperimentState → Bool
is_before_lock created = true
is_before_lock context_ready = true
is_before_lock forecasting = true
is_before_lock forecast_locked = false
is_before_lock evaluating = false
is_before_lock complete = false
is_before_lock failed = false

-- `state in {COMPLETE, FAILED}`.
abbrev pub is_ended : ExperimentState → Bool
is_ended created = false
is_ended context_ready = false
is_ended forecasting = false
is_ended forecast_locked = false
is_ended evaluating = false
is_ended complete = true
is_ended failed = true

abbrev pub is_state : ExperimentState → ExperimentState → Bool
is_state created created = true
is_state context_ready context_ready = true
is_state forecasting forecasting = true
is_state forecast_locked forecast_locked = true
is_state evaluating evaluating = true
is_state complete complete = true
is_state failed failed = true
is_state _ _ = false

pub record ExperimentAgentConfig (F : Type 0) : Type 0 where
  pub kind : String
  pub parameters : Dict F

pub record ExperimentRequest (F : Type 0) : Type 0 where
  pub instrument : String
  pub provider : ProviderId
  pub evaluation_time : ℕ
  pub forecast_horizon : String
  pub timeframe : String
  pub agents : List (ExperimentAgentConfig F)
  pub council : CouncilConfig F
  pub starting_portfolio : Option (PortfolioState F)
  pub random_seed : Option ℤ
  pub context_bars : Option ℕ

pub record BlindInputProvenance : Type 0 where
  pub request : HistoricalRequest
  pub provider : ProviderId
  pub fetched_at : ℕ
  pub source_version : String
  pub adapter_semantic_version : String
  pub cache_key : String
  pub content_identity : String
  pub snapshot_id : String

pub record ExperimentContext (F : Type 0) : Type 0 where
  pub experiment_id : String
  pub evaluation_time : ℕ
  pub snapshot : MarketSnapshot F
  pub agent_context : AgentContext
  pub provenance : BlindInputProvenance

pub record Forecast (F : Type 0) : Type 0 where
  pub forecast_id : String
  pub experiment_id : String
  pub evaluation_time : ℕ
  pub instrument : String
  pub forecast_horizon : String
  pub expected_return : Option F
  pub direction : Direction
  pub confidence : F
  pub agent_forecasts : List (AgentSignal F)
  pub council_decision : CouncilDecision F
  pub council_weights : List (String × F)
  pub source_provenance : BlindInputProvenance
  pub agent_versions : List (String × String)
  pub finalized_at : ℕ

pub record OracleProvenance : Type 0 where
  pub request : HistoricalRequest
  pub provider : ProviderId
  pub fetched_at : ℕ
  pub source_version : String
  pub adapter_semantic_version : String
  pub cache_key : String
  pub content_identity : String

pub record OracleOutcome (F : Type 0) : Type 0 where
  pub experiment_id : String
  pub evaluation_time : ℕ
  pub horizon_end : ℕ
  pub start_price : Option F
  pub endpoint_price : Option F
  pub realized_return : Option F
  pub realized_direction : Option Direction
  pub maximum_favorable_excursion : Option F
  pub maximum_adverse_excursion : Option F
  pub provenance : OracleProvenance
  pub horizon_complete : Bool

pub record ForecastEvaluation (F : Type 0) : Type 0 where
  pub experiment_id : String
  pub forecast_id : String
  pub directional_correctness : Bool
  pub forecast_direction : Direction
  pub realized_direction : Direction
  pub expected_return : Option F
  pub realized_return : F
  pub absolute_return_error : Option F
  pub signed_return_error : Option F
  pub confidence : F
  pub calibration_bucket : String
  pub evaluated_at : ℕ

pub record LifecycleEvent : Type 0 where
  pub state : ExperimentState
  pub occurred_at : ℕ
  pub message : String

pub record ExperimentRecord (F : Type 0) : Type 0 where
  pub experiment_id : String
  pub request : ExperimentRequest F
  pub state : ExperimentState
  pub lifecycle : List LifecycleEvent
  pub context : Option (ExperimentContext F)
  pub forecast : Option (Forecast F)
  pub oracle_outcome : Option (OracleOutcome F)
  pub evaluation : Option (ForecastEvaluation F)
  pub error : Option String

-- No event is earlier than the one before it.
abbrev pub is_monotonic : List LifecycleEvent → Bool
is_monotonic [] = true
is_monotonic (a ∷ []) = true
is_monotonic (a ∷ b ∷ events) = leb a.occurred_at b.occurred_at && is_monotonic (b ∷ events)

abbrev pub tail_is : ExperimentState → Option LifecycleEvent → Bool
tail_is state none = false
tail_is state (some event) = is_state event.state state

module _ {F : Type 0} where
  -- `evaluation_time + duration(forecast_horizon)`.
  unfoldable pub horizon_end : ExperimentRequest F → Result ℕ
  horizon_end r = do horizon ← duration_of r.forecast_horizon; add_time r.evaluation_time horizon

  unfoldable pub validate_experiment_request : ExperimentRequest F → Result (ExperimentRequest F)
  validate_experiment_request r = do
    horizon ← duration_of r.forecast_horizon
    timeframe ← duration_of r.timeframe
    refuse (r.instrument == "" || is_empty r.agents) agents_required
    guard (has_unique_texts (map (λ a. a.kind) r.agents)) duplicate_kinds
    guard (eqb (horizon % timeframe) 0) horizon_not_multiple
    ok r

  unfoldable pub validate_context : ExperimentContext F → Result (ExperimentContext F)
  validate_context c = do
    guard (eqb c.snapshot.as_of c.evaluation_time) context_cutoff
    refuse (any (λ bar. ltb c.evaluation_time bar.available_at) c.snapshot.bars) context_future
    guard (c.snapshot.snapshot_id == c.provenance.snapshot_id) context_snapshot
    guard (c.agent_context.run_id == c.experiment_id) context_run
    ok c

  unfoldable pub validate_outcome : OracleOutcome F → Result (OracleOutcome F)
  validate_outcome o = do
    guard
        (same o.horizon_complete (
          is_some o.start_price
          && is_some o.endpoint_price
          && is_some o.realized_return
          && is_some o.realized_direction
          && is_some o.maximum_favorable_excursion
          && is_some o.maximum_adverse_excursion))
        outcome_measurements
    ok o

  module _ (identity : ExperimentRequest F → String) where
    unfoldable pub validate_record : ExperimentRecord F → Result (ExperimentRecord F)
    validate_record r = do
      guard (r.experiment_id == identity r.request) record_identity
      guard (tail_is r.state (get_last? r.lifecycle)) lifecycle_tail
      guard (is_monotonic r.lifecycle) lifecycle_not_monotonic
      refuse (is_some r.forecast && is_before_lock r.state) forecast_before_lock
      refuse (is_some r.oracle_outcome && not (is_some r.forecast)) outcome_before_forecast
      refuse (is_some r.evaluation && not (is_some r.oracle_outcome)) evaluation_without_outcome
      refuse (is_state r.state complete && not (is_some r.evaluation)) complete_without_evaluation
      ok r

-- Pydantic's `==` on the models, which the third-party package derives from their fields.
pub record Equality (F : Type 0) : Type 0 where
  pub same_request : ExperimentRequest F → ExperimentRequest F → Bool
  pub same_forecast : Option (Forecast F) → Option (Forecast F) → Bool
  pub same_signals : List (AgentSignal F) → List (AgentSignal F) → Bool

-- An object is equal to itself: the fields are compared with `is` first. Equal signals have equal texts.
pub record IsEquality {F : Type 0} (eq : Equality F) : Type 0 where
  pub request_refl : (r : ExperimentRequest F) → eq.same_request r r ≡ true
  pub forecast_refl : (o : Option (Forecast F)) → eq.same_forecast o o ≡ true
  pub signals_ids :
      (xs ys : List (AgentSignal F))
      → eq.same_signals xs ys ≡ true
      → map (λ s. s.agent_id) xs ≡ map (λ s. s.agent_id) ys

module _ {F : Type 0} ⦃f : Float F⦄ (eq : Equality F) where
  unfoldable pub validate_forecast : Forecast F → Result (Forecast F)
  validate_forecast r = do
    guard (unit_float r.confidence && opt_all f.is_finite r.expected_return) invalid_field
    guard (eq.same_signals r.council_decision.signals r.agent_forecasts) signals_not_frozen
    guard (r.council_decision.source_snapshot_id == r.source_provenance.snapshot_id)
        forecast_snapshot
    ok r
