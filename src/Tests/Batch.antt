-- ===== src/Tests/Batch.antt =====
-- A batch of two complete experiments, and one that has failed.
use the_council.Prelude.{◌≡◌, refl, true, Option, some, none, List, [], ◌∷◌, String, length}
use the_council.Prelude.Int.{ℤ, pos}
use the_council.Floats.Fixed.{fixed_float}
use the_council.Result.{Result, ok, err}
use the_council.Schemas.Enums.{long}
use the_council.MarketData.Models.{in_memory}
use the_council.Experiments.Models.{
  ExperimentRecord, ExperimentRequest, ExperimentState, ForecastEvaluation, complete, failed,
}
use the_council.Experiments.Batch.{
  BatchResult, calibration_of, configuration_performance, completed_of, aggregate_batch,
}
use the_council.Experiments.Counted.{total_count, aggregate_batch-Counts}
use the_council.Tests.Data.{num, config}

abbrev evaluation : String → ForecastEvaluation ℤ
evaluation bucket = record {
  experiment_id = "e";
  forecast_id = "forecast";
  directional_correctness = true;
  forecast_direction = long;
  realized_direction = long;
  expected_return = some (num 5 2);
  realized_return = num 1 1;
  absolute_return_error = some (num 5 2);
  signed_return_error = some (num 5 2);
  confidence = num 8 1;
  calibration_bucket = bucket;
  evaluated_at = 0;
}

abbrev ended : String → ExperimentState → Option (ForecastEvaluation ℤ) → ExperimentRecord ℤ
ended name state value = record {
  experiment_id = name;
  request = record {
    instrument = "BTC/USD";
    provider = in_memory;
    evaluation_time = 0;
    forecast_horizon = "1h";
    timeframe = "1h";
    agents = [];
    council = config;
    starting_portfolio = none;
    random_seed = none;
    context_bars = none;
  };
  state = state;
  lifecycle = [];
  context = none;
  forecast = none;
  oracle_outcome = none;
  evaluation = value;
  error = none;
}

abbrev records : List (ExperimentRecord ℤ)
records =
    ended "a" complete (some (evaluation "0.8-1.0"))
    ∷ ended "b" failed none
    ∷ ended "c" complete (some (evaluation "0.6-0.8"))
    ∷ []

abbrev configuration : ExperimentRequest ℤ → String
configuration request = "configuration"

abbrev batch_name : ℤ → List String → String
batch_name seed names = "batch"

-- What the examples compute with.
unfoldable batching : Unit {0}
unfolding aggregate_batch calibration_of configuration_performance
batching = tt

abbrev nothing : BatchResult ℤ
nothing = record {
  batch_id = "";
  selection_seed = pos 0;
  experiment_ids = [];
  experiment_count = 0;
  directional_accuracy = num 0 0;
  mean_absolute_return_error = none;
  forecast_bias = none;
  confidence_calibration = [];
  performance_by_configuration = [];
}

abbrev result_or : BatchResult ℤ → Result (BatchResult ℤ) → BatchResult ℤ
result_or b (ok c) = c
result_or b (err e) = b

abbrev aggregated : BatchResult ℤ
aggregated = result_or nothing (aggregate_batch configuration batch_name records (pos 7))

aggregates : aggregate_batch configuration batch_name records (pos 7) ≡ ok aggregated
unfolding batching
aggregates = refl

two_buckets : length aggregated.confidence_calibration ≡ 2
unfolding batching
two_buckets = refl

aggregate_batch-Counts_example :
    (aggregated.experiment_count ≡ length (completed_of records))
    × (total_count aggregated.confidence_calibration ≡ aggregated.experiment_count)
unfolding batching
aggregate_batch-Counts_example =
    aggregate_batch-Counts configuration batch_name records (pos 7) aggregated aggregates
