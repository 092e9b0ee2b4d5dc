-- ===== src/Experiments/Service.antt =====
-- `ExperimentService` of experiments/service.py, on the in-memory repository. What it builds in its
-- constructor from the market data is the record `Collaborators`.
use the_council.Prelude.{
  ℕ, Bool, true, false, ◌&&◌, ◌||◌, if◌then◌else◌, Option, none, some, [], ◌∷◌, String, ◌==◌,
  get_last?,
}
use the_council.Dict.{get}
use the_council.Result.{Result, ok, err, Error, guard, of_option, index_error, raised}
use the_council.Experiments.Models.{
  created, context_ready, forecasting, forecast_locked, evaluating, complete, failed, is_state,
  is_ended, is_before_lock, ExperimentRequest, ExperimentContext, ExperimentRecord, Forecast,
  OracleOutcome, ForecastEvaluation, Equality, horizon_end, validate_record, LifecycleEvent,
}
use the_council.Experiments.Lifecycle.{transition}
use the_council.Experiments.Repository.{Repository, find, save}
use the_council.Experiments.Attempt.{
  Progress, Attempt, ◌>>=◌, ◌>>◌, lift, assign, load, save_current, move,
}

pub record Collaborators (F : Type 0) : Type 0 where
  pub build : ExperimentRequest F → Result (ExperimentContext F)
  pub forecast : ExperimentRequest F → ExperimentContext F → Result (Forecast F)
  pub outcome : ExperimentRequest F → Result (OracleOutcome F)
  pub evaluate : Forecast F → OracleOutcome F → Result (ForecastEvaluation F)

-- The message of an error, where it is one that may be shown; else the general one.
unfoldable pub safe_failure : Error → String
safe_failure (raised message) =
    if message == "insufficient complete historical context"
      || message == "oracle horizon is incomplete"
    then message
    else "experiment run failed"
safe_failure _ = "experiment run failed"

module _ {F : Type 0} (eq : Equality F) (identity : ExperimentRequest F → String) where
  abbrev pub new_record : ExperimentRequest F → ExperimentRecord F
  new_record request = record {
    experiment_id = identity request;
    request = request;
    state = created;
    lifecycle =
        record {
          state = created;
          occurred_at = request.evaluation_time;
          message = "experiment created";
        }
        ∷ [];
    context = none;
    forecast = none;
    oracle_outcome = none;
    evaluation = none;
    error = none;
  }

  abbrev pub saved :
      Repository F
      → ExperimentRecord F
      → Result (Repository F)
      → Result (ExperimentRecord F) × Repository F
  saved records r (ok after) = (ok r, after)
  saved records r (err e) = (err e, records)

  abbrev pub store :
      Repository F → Result (ExperimentRecord F) → Result (ExperimentRecord F) × Repository F
  store records (ok r) = saved records r (save eq records r)
  store records (err e) = (err e, records)

  abbrev pub create_unless :
      Repository F
      → ExperimentRequest F
      → Option (ExperimentRecord F)
      → Result (ExperimentRecord F) × Repository F
  create_unless records request (some existing) =
      if eq.same_request existing.request request
      then (ok existing, records)
      else (err (raised "experiment identity collision"), records)
  create_unless records request none = store records (validate_record identity (new_record request))

  unfoldable pub create :
      Repository F → ExperimentRequest F → Result (ExperimentRecord F) × Repository F
  create records request = create_unless records request (get (identity request) records)

  module _ (service : Collaborators F) where
    -- The first part of the `try` block: everything up to the lock of the forecast and its release to
    -- the oracle.
    unfoldable pub lock : ExperimentRequest F → String → Attempt F (Forecast F)
    lock request experiment_id = do
      context ← lift (service.build request)
      move identity context_ready request.evaluation_time ""
          (λ r. record r { context = some context })
      save_current eq
      move identity forecasting request.evaluation_time "" (λ r. r)
      save_current eq
      forecast ← lift (service.forecast request context)
      move identity forecast_locked forecast.finalized_at ""
          (λ r. record r { forecast = some forecast })
      save_current eq
      locked ← load experiment_id
      lift (
          guard
            (eq.same_forecast locked.forecast (some forecast)
              && is_state locked.state forecast_locked)
            (raised "forecast lock was not durably persisted"))
      end ← lift (horizon_end request)
      assign (λ r. transition identity locked evaluating end "" (λ q. q))
      save_current eq
      lift (ok forecast)

    abbrev pub conclude : Forecast F → OracleOutcome F → ℕ → Bool → Attempt F (Unit {0})
    conclude forecast outcome end false =
        move identity failed end "oracle horizon is incomplete" (λ r. record r {
          oracle_outcome = some outcome;
          error = some "oracle horizon is incomplete";
        })
    conclude forecast outcome end true = do
      evaluation ← lift (service.evaluate forecast outcome)
      move identity complete evaluation.evaluated_at ""
          (λ r. record r { oracle_outcome = some outcome; evaluation = some evaluation })

    -- The second part: the oracle, and the evaluation.
    unfoldable pub resolve : ExperimentRequest F → Forecast F → Attempt F (Unit {0})
    resolve request forecast = do
      outcome ← lift (service.outcome request)
      end ← lift (horizon_end request)
      conclude forecast outcome end outcome.horizon_complete

    -- The handler's own transition, to FAILED at the time of the last event.
    abbrev pub fail_after :
        ExperimentRecord F → Error → Option LifecycleEvent → Result (ExperimentRecord F)
    fail_after r e none = err index_error
    fail_after r e (some last) =
        transition identity r failed last.occurred_at (safe_failure e)
          (λ q. record q { error = some (safe_failure e) })

    unfoldable pub fail_record : ExperimentRecord F → Error → Result (ExperimentRecord F)
    fail_record r e = fail_after r e (get_last? r.lifecycle)

    abbrev pub handle : Error → Progress F → Bool → Result (ExperimentRecord F) × Repository F
    handle e p true = (err e, p.records)
    handle e p false = store p.records (fail_record p.current e)

    -- What follows the block: its `except` clause, and the last `save`.
    abbrev pub finish : Result (Unit {0}) × Progress F → Result (ExperimentRecord F) × Repository F
    finish (ok u, p) = store p.records (ok p.current)
    finish (err e, p) = handle e p (is_ended p.current.state)

    unfoldable pub run_created :
        Repository F → String → ExperimentRecord F → Result (ExperimentRecord F) × Repository F
    run_created records experiment_id r = finish (
        (lock r.request experiment_id >>= λ forecast. resolve r.request forecast)
          (record { current = r; records = records }))

    abbrev pub run_found :
        Repository F
        → String
        → Result (ExperimentRecord F)
        → Result (ExperimentRecord F) × Repository F
    run_found records experiment_id (err e) = (err e, records)
    run_found records experiment_id (ok r) =
        if is_ended r.state
        then (ok r, records)
        else if is_state r.state created
        then run_created records experiment_id r
        else (err (raised "experiment is already in progress"), records)

    unfoldable pub run : Repository F → String → Result (ExperimentRecord F) × Repository F
    run records experiment_id = run_found records experiment_id (find records experiment_id)

-- The readers `forecast`, `oracle_outcome` and `evaluation`, of the record that was found.
module _ {F : Type 0} where
  abbrev visible_forecast : Result (ExperimentRecord F) → Result (Forecast F)
  visible_forecast (err e) = err e
  visible_forecast (ok r) = of_option (raised "forecast is not locked") r.forecast

  abbrev outcome_unless : ExperimentRecord F → Bool → Result (OracleOutcome F)
  outcome_unless r true = err (raised "oracle outcome is hidden until FORECAST_LOCKED")
  outcome_unless r false = of_option (raised "oracle outcome is not available") r.oracle_outcome

  abbrev visible_outcome : Result (ExperimentRecord F) → Result (OracleOutcome F)
  visible_outcome (err e) = err e
  visible_outcome (ok r) = outcome_unless r (is_before_lock r.state)

  abbrev visible_evaluation : Result (ExperimentRecord F) → Result (ForecastEvaluation F)
  visible_evaluation (err e) = err e
  visible_evaluation (ok r) = of_option (raised "evaluation is not available") r.evaluation

  unfoldable pub read_forecast : Repository F → String → Result (Forecast F)
  read_forecast records experiment_id = visible_forecast (find records experiment_id)

  unfoldable pub read_outcome : Repository F → String → Result (OracleOutcome F)
  read_outcome records experiment_id = visible_outcome (find records experiment_id)

  unfoldable pub read_evaluation : Repository F → String → Result (ForecastEvaluation F)
  read_evaluation records experiment_id = visible_evaluation (find records experiment_id)
