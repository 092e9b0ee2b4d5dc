-- ===== src/Experiments/Context.antt =====
-- experiments/context.py: the blind context, built from the history before the evaluation time. The
-- provider is its `fetch_historical`; SHA-256 gives `content_identity` and the snapshot's `digest`.
use the_council.Prelude.{
  ℕ, ◌-◌, ◌*◌, ◌/◌, Bool, ◌&&◌, ◌||◌, not, if◌then◌else◌, Option, none, some, List, [], ◌∷◌, ◌==◌,
  any, length, ltb, leb, max, find?, get_last?, eqb,
}
use Prim.Native.String.{String}
use Prim.Native.Char.{Char, code}
use the_council.Prelude.Int.{ℤ}
use the_council.Dict.{Dict}
use the_council.Agents.{SpecialistAgent, warmup_bars, duration_of, Parameter, number}
use the_council.Result.{
  Result, ok, err, ◌>>=◌, ◌>>◌, guard, refuse, traverse, of_option, date_overflow, raised,
  index_error,
}
use the_council.Schemas.Market.{MarketBar, SnapshotProvenance, validate_snapshot}
use the_council.MarketData.Models.{
  Asset, btc, eth, usd, usdt, Timeframe, minute_1, minute_5, minute_15, hour_1, hour_4, day_1,
  Instrument, HistoricalRequest, HistoricalBars, asset_value, provider_value, timeframe_value,
  duration, validate_instrument, validate_request, same_request,
}
use the_council.Experiments.Models.{
  ExperimentAgentConfig, ExperimentRequest, ExperimentContext, validate_context,
}

-- `Asset(text)` and `Timeframe(text)`: the member with that value.
abbrev asset_of : String → Option Asset
asset_of text = find? (λ a. asset_value a == text) (btc ∷ eth ∷ usd ∷ usdt ∷ [])

abbrev pub timeframe_of : String → Result Timeframe
timeframe_of text = of_option (raised "not a valid Timeframe") (
    find? (λ t. timeframe_value t == text)
      (minute_1 ∷ minute_5 ∷ minute_15 ∷ hour_1 ∷ hour_4 ∷ day_1 ∷ []))

abbrev push : Char → String × String → String × String
push c (base, quote) = (String.◌∷◌ c base, quote)

abbrev extend : Char → Option (String × String) → Option (String × String)
extend c none = none
extend c (some parts) = some (push c parts)

-- `symbol.split("/", maxsplit=1)`, if that gives two parts.
abbrev split_symbol : String → Option (String × String)
split_symbol String.[] = none
split_symbol (String.◌∷◌ c s) =
    let rest = split_symbol s in if eqb (code c) 47 then some (String.[], s) else extend c rest

abbrev unsupported_instrument : Result Instrument → Result Instrument
unsupported_instrument (ok i) = ok i
unsupported_instrument (err e) = err (raised "unsupported canonical experiment instrument")

-- Every `ValueError` on the way is raised as another.
unfoldable pub instrument_of : String → Result Instrument
instrument_of symbol = unsupported_instrument (do
  (base_text, quote_text) ← of_option (raised "not enough values to unpack") (split_symbol symbol)
  base ← of_option (raised "not a valid Asset") (asset_of base_text)
  quote ← of_option (raised "not a valid Asset") (asset_of quote_text)
  validate_instrument (record { base = base; quote = quote }))

-- `time - span`, where Python raises `OverflowError` before the year 1.
abbrev pub subtract_time : ℕ → ℕ → Result ℕ
subtract_time time span = do guard (leb span time) date_overflow; ok (time - span)

-- `max(xs, default=1)`.
abbrev largest : List ℕ → ℕ
largest [] = 1
largest (n ∷ []) = n
largest (m ∷ n ∷ ns) = max m (largest (n ∷ ns))

abbrev or_one : Option ℕ → ℕ
or_one none = 1
or_one (some n) = n

abbrev seed_parameters : Option ℤ → Dict Parameter
seed_parameters none = []
seed_parameters (some seed) = ("random_seed", number seed) ∷ []

module _ {F : Type 0}
    (build_agents : List (ExperimentAgentConfig F) → Result (List (SpecialistAgent F))) where
  unfoldable pub required_context_bars : ExperimentRequest F → Result ℕ
  required_context_bars request = do
    agents ← build_agents request.agents
    warmups ← traverse (λ agent. warmup_bars agent request.timeframe) agents
    ok (max (largest warmups) (or_one request.context_bars))

  -- The one request that the builder makes of the provider.
  unfoldable pub blind_request : ExperimentRequest F → ℕ → Result HistoricalRequest
  blind_request request required = do
    timeframe ← timeframe_of request.timeframe
    instrument ← instrument_of request.instrument
    start ← subtract_time request.evaluation_time (required * duration timeframe)
    validate_request (record {
      instrument = instrument;
      timeframe = timeframe;
      start = start;
      end = request.evaluation_time;
      as_of = request.evaluation_time;
      market = "";
    })

  module _ (matches : String → Bool) (digest : String → String → ℕ → List (MarketBar F) → String)
      (content_identity : HistoricalBars F → String) (identity : ExperimentRequest F → String) where
    abbrev snapshot_provenance :
        ExperimentRequest F
        → HistoricalRequest
        → HistoricalBars F
        → MarketBar F
        → SnapshotProvenance
    snapshot_provenance request asked history latest = record {
      provider = provider_value history.provider;
      instrument = request.instrument;
      timeframe = request.timeframe;
      requested_start = asked.start;
      requested_end = asked.end;
      as_of = request.evaluation_time;
      fetched_at = history.fetched_at;
      latest_observation_time = latest.closed_at;
      latest_available_at = latest.available_at;
      source_version = history.source_version;
      adapter_semantic_version = history.adapter_semantic_version;
      coverage_complete = history.quality.coverage_complete;
      cache_key = history.cache_key;
    }

    -- The context of a history that was fetched.
    unfoldable pub context_of :
        ExperimentRequest F
        → ℕ
        → HistoricalRequest
        → HistoricalBars F
        → Result (ExperimentContext F)
    context_of request required asked history = do
      guard
          (same_request history.request asked
            && provider_value history.provider == provider_value request.provider)
          (raised "historical provider returned data for a different blind request")
      refuse (not history.quality.coverage_complete || ltb (length history.bars) required)
          (raised "insufficient complete historical context")
      refuse (any (λ bar. ltb request.evaluation_time bar.available_at) history.bars)
          (raised "future market data reached the blind context builder")
      latest ← of_option index_error (get_last? history.bars)
      snapshot ← validate_snapshot matches digest (record {
        symbol = request.instrument;
        timeframe = request.timeframe;
        as_of = request.evaluation_time;
        observed_at = request.evaluation_time;
        bars = history.bars;
        provenance = some (snapshot_provenance request asked history latest);
        snapshot_id = "";
      })
      validate_context (record {
        experiment_id = identity request;
        evaluation_time = request.evaluation_time;
        snapshot = snapshot;
        agent_context = record {
          run_id = identity request;
          parameters = seed_parameters request.random_seed;
        };
        provenance = record {
          request = asked;
          provider = history.provider;
          fetched_at = history.fetched_at;
          source_version = history.source_version;
          adapter_semantic_version = history.adapter_semantic_version;
          cache_key = history.cache_key;
          content_identity = content_identity history;
          snapshot_id = snapshot.snapshot_id;
        };
      })

    -- `ExperimentContextBuilder.build` on the provider `fetch`.
    unfoldable pub build :
        (HistoricalRequest → Result (HistoricalBars F))
        → ExperimentRequest F
        → Result (ExperimentContext F)
    build fetch request = do
      timeframe ← timeframe_of request.timeframe
      required ← required_context_bars request
      asked ← blind_request request required
      history ← fetch asked
      context_of request required asked history

-- `horizon_bars`.
unfoldable pub horizon_bars : {F : Type 0} → ExperimentRequest F → Result ℕ
horizon_bars request = do
  horizon ← duration_of request.forecast_horizon
  timeframe ← duration_of request.timeframe
  ok (horizon / timeframe)
