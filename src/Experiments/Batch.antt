-- ===== src/Experiments/Batch.antt =====
-- `aggregate_batch` of experiments/batch.py; `configuration_id` and `batch_id` render and hash.
use the_council.Prelude.{
  ℕ, ◌+◌, Bool, true, false, ◌&&◌, if◌then◌else◌, Option, none, some, List, [], ◌∷◌, ◌++◌, String,
  ◌==◌, is_empty, length, map, select,
}
use the_council.Prelude.Int.{ℤ}
use the_council.Prelude.Sort.{sort_by}
use the_council.Floats.{Float, of_nat, nonneg_finite, unit_float, opt_all, sum, ◌⊘◌}
use the_council.Dict.{Dict}
use the_council.Result.{
  Result, ok, ◌>>=◌, ◌>>◌, guard, refuse, of_option, traverse, raised, invalid_field,
}
use the_council.Experiments.Models.{
  ExperimentRecord, ExperimentRequest, ForecastEvaluation, complete, is_state,
}

pub record CalibrationBucket (F : Type 0) : Type 0 where
  pub bucket : String
  pub count : ℕ
  pub mean_confidence : F
  pub directional_accuracy : F

pub record ConfigurationPerformance (F : Type 0) : Type 0 where
  pub configuration_id : String
  pub experiment_count : ℕ
  pub directional_accuracy : F
  pub mean_absolute_return_error : Option F
  pub forecast_bias : Option F

pub record BatchResult (F : Type 0) : Type 0 where
  pub batch_id : String
  pub selection_seed : ℤ
  pub experiment_ids : List String
  pub experiment_count : ℕ
  pub directional_accuracy : F
  pub mean_absolute_return_error : Option F
  pub forecast_bias : Option F
  pub confidence_calibration : List (CalibrationBucket F)
  pub performance_by_configuration : List (ConfigurationPerformance F)

-- `by_bucket[key].append(item)` of a `defaultdict(list)`, and the loop of it.
module _ {A : Type 0} where
  abbrev pub append_at : String → A → Dict (List A) → Dict (List A)
  append_at key x [] = (key, x ∷ []) ∷ []
  append_at key x ((k, xs) ∷ groups) =
      let rest = append_at key x groups in
      if k == key then (k, xs ++ (x ∷ [])) ∷ groups else (k, xs) ∷ rest

  abbrev pub group_by : (A → String) → Dict (List A) → List A → Dict (List A)
  group_by key groups [] = groups
  group_by key groups (x ∷ xs) = group_by key (append_at (key x) x groups) xs

  -- `sorted(groups.items())`: the keys differ.
  abbrev pub sorted_groups : Dict (List A) → Dict (List A)
  sorted_groups groups = sort_by (λ (g : String × List A). g.0) groups

abbrev count_true : List Bool → ℕ
count_true [] = 0
count_true (true ∷ bs) = 1 + count_true bs
count_true (false ∷ bs) = count_true bs

module _ {F : Type 0} ⦃f : Float F⦄ where
  abbrev add_error : Option F → List F → List F
  add_error none errors = errors
  add_error (some e) errors = e ∷ errors

  abbrev errors_of : List (ForecastEvaluation F) → List F
  errors_of [] = []
  errors_of (e ∷ evaluations) = add_error e.signed_return_error (errors_of evaluations)

  abbrev average : List F → F
  average values = sum values ⊘ of_nat (length values)

  abbrev average_if_any : List F → Option F
  average_if_any [] = none
  average_if_any (v ∷ values) = some (average (v ∷ values))

  abbrev pub accuracy_in : List (ForecastEvaluation F) → F
  accuracy_in items =
      of_nat (count_true (map (λ (e : ForecastEvaluation F). e.directional_correctness) items))
      ⊘ of_nat (length items)

  abbrev pub mean_error : List (ForecastEvaluation F) → Option F
  mean_error items = average_if_any (map f.abs (errors_of items))

  abbrev pub bias_of : List (ForecastEvaluation F) → Option F
  bias_of items = average_if_any (errors_of items)

  -- The field constraints that the three results share.
  abbrev pub check_performance : F → Option F → Option F → Result (Unit {0})
  check_performance accuracy error bias =
      guard (unit_float accuracy && opt_all nonneg_finite error && opt_all f.is_finite bias)
        invalid_field

  unfoldable pub calibration_of :
      String × List (ForecastEvaluation F) → Result (CalibrationBucket F)
  calibration_of (bucket, items) = do
    let confidence =
        sum (map (λ (e : ForecastEvaluation F). e.confidence) items) ⊘ of_nat (length items)
    guard (unit_float confidence && unit_float (accuracy_in items)) invalid_field
    ok (record {
      bucket = bucket;
      count = length items;
      mean_confidence = confidence;
      directional_accuracy = accuracy_in items;
    })

  abbrev add_evaluation :
      Option (ForecastEvaluation F) → List (ForecastEvaluation F) → List (ForecastEvaluation F)
  add_evaluation none evaluations = evaluations
  add_evaluation (some e) evaluations = e ∷ evaluations

  abbrev evaluations_of : List (ExperimentRecord F) → List (ForecastEvaluation F)
  evaluations_of [] = []
  evaluations_of (r ∷ records) = add_evaluation r.evaluation (evaluations_of records)

  -- `_configuration_performance`.
  unfoldable pub configuration_performance :
      String × List (ExperimentRecord F) → Result (ConfigurationPerformance F)
  configuration_performance (configuration_id, records) = do
    let items = evaluations_of records
    check_performance (accuracy_in items) (mean_error items) (bias_of items)
    ok (record {
      configuration_id = configuration_id;
      experiment_count = length items;
      directional_accuracy = accuracy_in items;
      mean_absolute_return_error = mean_error items;
      forecast_bias = bias_of items;
    })

  abbrev pub completed_of : List (ExperimentRecord F) → List (ExperimentRecord F)
  completed_of records = select (λ (r : ExperimentRecord F). is_state r.state complete) records

  module _ (configuration_id : ExperimentRequest F → String)
      (batch_id : ℤ → List String → String) where
    unfoldable pub aggregate_batch : List (ExperimentRecord F) → ℤ → Result (BatchResult F)
    aggregate_batch records seed = do
      let completed = completed_of records
      refuse (is_empty completed) (raised "batch contains no complete experiments")
      measured ←
          traverse
            (λ (r : ExperimentRecord F).
              of_option (raised "complete experiment is missing its evaluation") r.evaluation)
            completed
      calibration ← traverse calibration_of (
          sorted_groups (group_by (λ (e : ForecastEvaluation F). e.calibration_bucket) [] measured))
      performance ← traverse configuration_performance (
          sorted_groups
            (group_by (λ (r : ExperimentRecord F). configuration_id r.request) [] completed))
      let ids = map (λ (r : ExperimentRecord F). r.experiment_id) records
      check_performance (accuracy_in measured) (mean_error measured) (bias_of measured)
      ok (record {
        batch_id = batch_id seed ids;
        selection_seed = seed;
        experiment_ids = ids;
        experiment_count = length completed;
        directional_accuracy = accuracy_in measured;
        mean_absolute_return_error = mean_error measured;
        forecast_bias = bias_of measured;
        confidence_calibration = calibration;
        performance_by_configuration = performance;
      })
