-- ===== src/Experiments/Oracle.antt =====
-- experiments/oracle.py and experiments/evaluation.py: what happened, and how the forecast fared.
use the_council.Prelude.{
  ℕ, ◌+◌, Bool, true, false, ◌&&◌, if◌then◌else◌, Option, none, some, List, [], ◌∷◌, String, ◌==◌,
  all, length, ltb, leb, eqb, select, map, foldl, ◌-◌,
}
use the_council.Floats.{
  Float, nought, of_nat, fmax, fmin, ◌⊖◌, ◌⊗◌, ◌⊘◌, ◌<?◌, ◌≤?◌, unit_float, nonneg_finite, opt_all,
}
use the_council.Result.{Result, ok, err, ◌>>=◌, ◌>>◌, guard, raised, invalid_field}
use the_council.Schemas.Enums.{Direction, long, short, flat}
use the_council.Schemas.Market.{MarketBar}
use the_council.MarketData.Models.{
  HistoricalRequest, HistoricalBars, provider_value, duration, validate_request, same_request,
}
use the_council.Experiments.Models.{
  ExperimentRequest, Forecast, ForecastEvaluation, OracleOutcome, OracleProvenance, horizon_end,
  validate_outcome,
}
use the_council.Experiments.Context.{timeframe_of, instrument_of, subtract_time, horizon_bars}

abbrev nth_text : List String → ℕ → String
nth_text [] n = ""
nth_text (t ∷ ts) n = let rest = nth_text ts (n - 1) in if eqb n 0 then t else rest

abbrev pub bucket_text : ℕ → String
bucket_text = nth_text (
    "00-10%" ∷ "10-20%" ∷ "20-30%" ∷ "30-40%" ∷ "40-50%" ∷ "50-60%" ∷ "60-70%" ∷ "70-80%" ∷ "80-90%"
    ∷ "90-100%" ∷ [])

abbrev same_direction : Direction → Direction → Bool
same_direction long long = true
same_direction short short = true
same_direction flat flat = true
same_direction _ _ = false

module _ {F : Type 0} where
  -- `{bar.closed_at: bar for bar in bars}.get(t)`: of bars that close together, the last.
  abbrev or_else : Option (MarketBar F) → MarketBar F → Bool → Option (MarketBar F)
  or_else (some b) bar test = some b
  or_else none bar test = if test then some bar else none

  abbrev pub closing_at : ℕ → List (MarketBar F) → Option (MarketBar F)
  closing_at t [] = none
  closing_at t (bar ∷ bars) = or_else (closing_at t bars) bar (eqb bar.closed_at t)

  abbrev pub price_path : ℕ → ℕ → List (MarketBar F) → List (MarketBar F)
  price_path from until = select (λ bar. ltb from bar.closed_at && leb bar.closed_at until)

  unfoldable pub oracle_request : ExperimentRequest F → Result HistoricalRequest
  oracle_request request = do
    timeframe ← timeframe_of request.timeframe
    instrument ← instrument_of request.instrument
    start ← subtract_time request.evaluation_time (duration timeframe)
    end ← horizon_end request
    validate_request (record {
      instrument = instrument;
      timeframe = timeframe;
      start = start;
      end = end;
      as_of = end;
      market = "";
    })

module _ {F : Type 0} ⦃f : Float F⦄ where
  abbrev best_of : (F → F → F) → List F → Result F
  best_of choose [] = err (raised "max() arg is an empty sequence")
  best_of choose (x ∷ xs) = ok (foldl choose x xs)

  abbrev direction_of_return : F → Direction
  direction_of_return r = if nought <? r then long else if r <? nought then short else flat

  abbrev change : F → F → F
  change from to = to ⊘ from ⊖ of_nat 1

  abbrev tenths_from : F → List ℕ → ℕ
  tenths_from x [] = 0
  tenths_from x (k ∷ ks) = (if of_nat k ≤? x then 1 else 0) + tenths_from x ks

  -- `min(int(confidence * 10), 9)`: how many of 1, ..., 9 are at most `confidence * 10`.
  abbrev pub bucket_of : F → ℕ
  bucket_of confidence =
      tenths_from (confidence ⊗ of_nat 10) (1 ∷ 2 ∷ 3 ∷ 4 ∷ 5 ∷ 6 ∷ 7 ∷ 8 ∷ 9 ∷ [])

  module _ (content_identity : HistoricalBars F → String)
      (identity : ExperimentRequest F → String) where
    abbrev oracle_provenance : HistoricalRequest → HistoricalBars F → OracleProvenance
    oracle_provenance asked history = record {
      request = asked;
      provider = history.provider;
      fetched_at = history.fetched_at;
      source_version = history.source_version;
      adapter_semantic_version = history.adapter_semantic_version;
      cache_key = history.cache_key;
      content_identity = content_identity history;
    }

    abbrev incomplete_outcome :
        ExperimentRequest F → HistoricalRequest → HistoricalBars F → Result (OracleOutcome F)
    incomplete_outcome request asked history = validate_outcome (record {
      experiment_id = identity request;
      evaluation_time = request.evaluation_time;
      horizon_end = asked.end;
      start_price = none;
      endpoint_price = none;
      realized_return = none;
      realized_direction = none;
      maximum_favorable_excursion = none;
      maximum_adverse_excursion = none;
      provenance = oracle_provenance asked history;
      horizon_complete = false;
    })

    abbrev complete_outcome :
        ExperimentRequest F
        → HistoricalRequest
        → HistoricalBars F
        → MarketBar F
        → MarketBar F
        → List (MarketBar F)
        → Result (OracleOutcome F)
    complete_outcome request asked history start endpoint path = do
      let realized_return = change start.close endpoint.close
      favorable ← best_of fmax (map (λ bar. change start.close bar.high) path)
      adverse ← best_of fmin (map (λ bar. change start.close bar.low) path)
      guard (f.is_finite realized_return && f.is_finite favorable && f.is_finite adverse)
          invalid_field
      validate_outcome (record {
        experiment_id = identity request;
        evaluation_time = request.evaluation_time;
        horizon_end = asked.end;
        start_price = some start.close;
        endpoint_price = some endpoint.close;
        realized_return = some realized_return;
        realized_direction = some (direction_of_return realized_return);
        maximum_favorable_excursion = some favorable;
        maximum_adverse_excursion = some adverse;
        provenance = oracle_provenance asked history;
        horizon_complete = true;
      })

    abbrev measured :
        ExperimentRequest F
        → HistoricalRequest
        → HistoricalBars F
        → Bool
        → List (MarketBar F)
        → Option (MarketBar F)
        → Option (MarketBar F)
        → Result (OracleOutcome F)
    measured request asked history true path (some start) (some endpoint) =
        complete_outcome request asked history start endpoint path
    measured request asked history _ path _ _ = incomplete_outcome request asked history

    unfoldable pub outcome_of :
        ExperimentRequest F → HistoricalRequest → HistoricalBars F → Result (OracleOutcome F)
    outcome_of request asked history = do
      guard
          (same_request history.request asked
            && provider_value history.provider == provider_value request.provider)
          (raised "historical provider returned data for a different oracle request")
      expected ← horizon_bars request
      let path = price_path request.evaluation_time asked.end history.bars
      let is_measured =
          history.quality.coverage_complete
          && eqb (length path) expected
          && all (λ bar. leb bar.available_at asked.end) path
      measured request asked history is_measured path
          (closing_at request.evaluation_time history.bars) (closing_at asked.end history.bars)

    -- `HistoricalOracle.outcome` on the provider `fetch`.
    unfoldable pub historical_outcome :
        (HistoricalRequest → Result (HistoricalBars F))
        → ExperimentRequest F
        → Result (OracleOutcome F)
    historical_outcome fetch request = do
      asked ← oracle_request request
      history ← fetch asked
      outcome_of request asked history

  abbrev evaluation_of : Forecast F → OracleOutcome F → F → Direction → ForecastEvaluation F
  evaluation_of forecast outcome realized direction =
      let signed_error = minus forecast.expected_return realized in
      record {
        experiment_id = forecast.experiment_id;
        forecast_id = forecast.forecast_id;
        directional_correctness = same_direction forecast.direction direction;
        forecast_direction = forecast.direction;
        realized_direction = direction;
        expected_return = forecast.expected_return;
        realized_return = realized;
        absolute_return_error = size_of signed_error;
        signed_return_error = signed_error;
        confidence = forecast.confidence;
        calibration_bucket = bucket_text (bucket_of forecast.confidence);
        evaluated_at = outcome.horizon_end;
      }
    where
      minus : Option F → F → Option F
      minus none r = none
      minus (some e) r = some (e ⊖ r)

      size_of : Option F → Option F
      size_of none = none
      size_of (some e) = some (f.abs e)

  unfoldable pub validate_evaluation : ForecastEvaluation F → Result (ForecastEvaluation F)
  validate_evaluation e = do
    guard
        (opt_all f.is_finite e.expected_return
          && f.is_finite e.realized_return
          && opt_all nonneg_finite e.absolute_return_error
          && opt_all f.is_finite e.signed_return_error
          && unit_float e.confidence)
        invalid_field
    ok e

  abbrev evaluate_measured :
      Forecast F → OracleOutcome F → Option F → Option Direction → Result (ForecastEvaluation F)
  evaluate_measured forecast outcome (some realized) (some direction) =
      validate_evaluation (evaluation_of forecast outcome realized direction)
  evaluate_measured forecast outcome _ _ =
      err (raised "complete oracle outcome is missing measurements")

  -- `evaluate` of experiments/evaluation.py.
  unfoldable pub evaluate_forecast : Forecast F → OracleOutcome F → Result (ForecastEvaluation F)
  evaluate_forecast forecast outcome = do
    guard (forecast.experiment_id == outcome.experiment_id)
        (raised "forecast and oracle outcome belong to different experiments")
    guard outcome.horizon_complete (raised "cannot evaluate an incomplete oracle horizon")
    evaluate_measured forecast outcome outcome.realized_return outcome.realized_direction
