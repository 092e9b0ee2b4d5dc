-- ===== src/Tests/Experiments.antt =====
-- An experiment on four hours of prices, of which the last is not seen.
use the_council.Datetime.{span_of, add_time}
use the_council.Experiments.Lawful.{AreLawful}
use the_council.Experiments.Histories.{creation, running, serve_calls, serve_calls-AreLawful}
use the_council.Prelude.{
  ℕ, ◌*◌, ◌+◌, ◌≡◌, refl, Bool, true, false, ◌&&◌, none, some, List, [], ◌∷◌, String, ◌==◌, map,
  arith, eq_iff,
}
use the_council.Prelude.Int.{ℤ}
use the_council.Floats.Fixed.{fixed_float}
use the_council.Dict.{get, put}
use the_council.Agents.{SpecialistAgent, AgentContext, warmup_bars, timeframe_delta, duration_of}
use the_council.Result.{Result, ok, err, signals_not_frozen}
use the_council.Schemas.Enums.{alpha, long}
use the_council.Schemas.Market.{MarketBar, MarketSnapshot, validate_snapshot, newest_bar}
use the_council.Schemas.Signal.{AgentSignal}
use the_council.MarketData.Models.{
  in_memory, btc, usd, hour_1, validate_instrument, validate_request, validate_result,
}
use the_council.MarketData.Quality.{
  normalize_and_assess, keep_all, keep, same_bar, find_gaps, gap_between, validate_gap, assess,
  is_complete, expected_of, leading_of, trailing_of,
}
use the_council.MarketData.InMemory.{InMemoryHistoricalProvider, select_bars, fetch_historical}
use the_council.Experiments.Models.{
  created, failed, complete, ExperimentRequest, ExperimentRecord, Forecast, Equality, IsEquality,
  horizon_end, validate_context, validate_forecast, validate_outcome, validate_record,
  ExperimentContext,
}
use the_council.Experiments.Context.{
  instrument_of, required_context_bars, blind_request, context_of, build, horizon_bars,
}
use the_council.Experiments.Forecasting.{forecast, forecast_of}
use the_council.Experiments.Oracle.{
  oracle_request, outcome_of, historical_outcome, validate_evaluation, evaluate_forecast,
}
use the_council.Experiments.Lifecycle.{transition}
use the_council.Experiments.Repository.{Repository, find, protect_forecast, save}
use the_council.Experiments.Service.{
  create, lock, resolve, fail_record, safe_failure, run_created, run,
}
use the_council.Experiments.Composed.{Setting, collaborators}
use the_council.Experiments.Lookahead.{fetch, ran, run_blind}
use the_council.Experiments.Ordered.{agent_ids, by_agent, forecast_in_order}
use the_council.Tests.Data.{num, config, decision_id, signal_of, snapshot, decision}
use the_council.Tests.Council.{round}

abbrev pub hour : ℕ
hour = 3_600_000_000

abbrev pub hour_bar : ℕ → ℕ → MarketBar ℤ
hour_bar n price = record {
  opened_at = n * hour;
  closed_at = (n + 1) * hour;
  available_at = (n + 1) * hour;
  open_price = num price 0;
  high = num price 0;
  low = num price 0;
  close = num price 0;
  volume = num 1 0;
}

abbrev pub provider_of : List (MarketBar ℤ) → InMemoryHistoricalProvider ℤ
provider_of bars = record {
  instrument = record { base = btc; quote = usd };
  timeframe = hour_1;
  bars = bars;
  fetched_at = 9 * hour;
}

abbrev past : List (MarketBar ℤ) → List (MarketBar ℤ)
past later = hour_bar 0 100 ∷ hour_bar 1 101 ∷ hour_bar 2 102 ∷ later

abbrev speak : String → MarketSnapshot ℤ → AgentContext → Result (AgentSignal ℤ)
speak name snapshot context = ok (record (signal_of name) {
  symbol = snapshot.symbol;
  timeframe = snapshot.timeframe;
  source_snapshot_id = snapshot.snapshot_id;
  source_as_of = snapshot.as_of;
  generated_at = snapshot.observed_at;
  expires_at = snapshot.observed_at + hour;
})

abbrev agent_of : String → SpecialistAgent ℤ
agent_of name = record {
  agent_id = name;
  agent_version = "1.0";
  signal_type = alpha;
  warmup_days = none;
  declared_bars = 2;
  analyze = speak name;
}

abbrev same_texts : List String → List String → Bool
same_texts [] [] = true
same_texts (s ∷ ss) (t ∷ ts) = s == t && same_texts ss ts
same_texts _ _ = false

same_texts-eq : (ss ts : List String) → same_texts ss ts ≡ true → ss ≡ ts
same_texts-eq [] [] h = refl
same_texts-eq [] (t ∷ ts) h = absurd (cc)
same_texts-eq (s ∷ ss) [] h = absurd (cc)
same_texts-eq (s ∷ ss) (t ∷ ts) h = ground (arith, eq_iff s t, same_texts-eq ss ts)

abbrev equality : Equality ℤ
equality = record {
  same_request = λ _ _. true;
  same_forecast = λ _ _. true;
  same_signals = λ xs ys. same_texts (map (λ s. s.agent_id) xs) (map (λ s. s.agent_id) ys);
}

equality_laws : IsEquality equality
equality_laws = record {
  request_refl = λ r. refl;
  forecast_refl = λ o. refl;
  signals_ids = λ xs ys h. same_texts-eq _ _ h;
}

abbrev setting : Setting ℤ
setting = record {
  eq = equality;
  matches = λ _. true;
  digest = λ _ _ _ _. "snap";
  cache_key = λ _ _. "key";
  content_identity = λ _. "content";
  identity = λ _. "e1";
  decision_id = decision_id;
  forecast_id = λ _ _ _. "forecast";
  build_agents = λ specifications. ok (map (λ a. agent_of a.kind) specifications);
}

abbrev request : ExperimentRequest ℤ
request = record {
  instrument = "BTC/USD";
  provider = in_memory;
  evaluation_time = 3 * hour;
  forecast_horizon = "1h";
  timeframe = "1h";
  agents = record { kind = "trend"; parameters = [] } ∷ [];
  council = config;
  starting_portfolio = none;
  random_seed = none;
  context_bars = some 2;
}

-- All that a run of an experiment computes with.
unfoldable experimenting : Unit {0}
unfolding span_of add_time run run_created lock resolve fail_record safe_failure create transition
    find protect_forecast save build context_of blind_request required_context_bars instrument_of
    horizon_bars forecast forecast_of oracle_request outcome_of historical_outcome
    validate_evaluation evaluate_forecast horizon_end validate_context validate_forecast
    validate_outcome validate_record normalize_and_assess keep_all keep same_bar find_gaps
    gap_between validate_gap assess is_complete expected_of leading_of trailing_of select_bars
    fetch_historical validate_instrument validate_request validate_result warmup_bars
    timeframe_delta duration_of validate_snapshot newest_bar get put round
experimenting = tt

abbrev stored : Repository ℤ
stored = (create equality setting.identity [] request).1

abbrev record_or : ExperimentRecord ℤ → Result (ExperimentRecord ℤ) → ExperimentRecord ℤ
record_or r (ok q) = q
record_or r (err e) = r

abbrev new : ExperimentRecord ℤ
new = record {
  experiment_id = "e1";
  request = request;
  state = created;
  lifecycle =
      record { state = created; occurred_at = 3 * hour; message = "experiment created" } ∷ [];
  context = none;
  forecast = none;
  oracle_outcome = none;
  evaluation = none;
  error = none;
}

abbrev end_of : List (MarketBar ℤ) → ExperimentRecord ℤ
end_of later = record_or new (ran setting (provider_of (past later)) stored "e1")

abbrev seen : List (MarketBar ℤ)
seen = past (hour_bar 3 103 ∷ [])

abbrev unseen : List (MarketBar ℤ)
unseen = past (hour_bar 3 90 ∷ [])

stored-new : find stored "e1" ≡ ok new
unfolding experimenting
stored-new = refl

-- With the fourth hour the experiment completes; without it, it fails, and keeps its forecast.
completes : (end_of (hour_bar 3 103 ∷ [])).state ≡ complete
unfolding experimenting
completes = refl

fails : (end_of []).state ≡ failed
unfolding experimenting
fails = refl

abbrev returns : Result (ExperimentRecord ℤ) → Bool
returns (ok q) = true
returns (err e) = false

returned : (m : Result (ExperimentRecord ℤ)) → returns m ≡ true → m ≡ ok (record_or new m)
returned (ok q) h = refl
returned (err e) h = absurd (cc)

seen_runs : returns (ran setting (provider_of seen) stored "e1") ≡ true
unfolding experimenting
seen_runs = refl

unseen_runs : returns (ran setting (provider_of unseen) stored "e1") ≡ true
unfolding experimenting
unseen_runs = refl

run_blind_example : (end_of (hour_bar 3 103 ∷ [])).forecast ≡ (end_of (hour_bar 3 90 ∷ [])).forecast
run_blind_example =
    run_blind setting (provider_of seen) unseen stored "e1" new (end_of (hour_bar 3 103 ∷ []))
      (end_of (hour_bar 3 90 ∷ [])) stored-new refl (returned _ seen_runs) (returned _ unseen_runs)

abbrev context_or : {A : Type 0} → A → Result A → A
context_or a (ok b) = b
context_or a (err e) = a

abbrev empty_context : ExperimentContext ℤ
empty_context = record {
  experiment_id = "";
  evaluation_time = 0;
  snapshot = snapshot;
  agent_context = record { run_id = ""; parameters = [] };
  provenance = record {
    request = record {
      instrument = record { base = btc; quote = usd };
      timeframe = hour_1;
      start = 0;
      end = 1;
      as_of = 1;
      market = "";
    };
    provider = in_memory;
    fetched_at = 0;
    source_version = "";
    adapter_semantic_version = "";
    cache_key = "";
    content_identity = "";
    snapshot_id = "";
  };
}

abbrev seen_context : ExperimentContext ℤ
seen_context =
    context_or empty_context
      ((collaborators setting (fetch setting (provider_of seen))).build request)

abbrev made_of : ExperimentRequest ℤ → Result (Forecast ℤ)
made_of asked =
    (collaborators setting (fetch setting (provider_of seen))).forecast asked seen_context

abbrev in_order : ExperimentRequest ℤ
in_order = record request {
  agents =
      record { kind = "reversion"; parameters = [] }
      ∷ record { kind = "trend"; parameters = [] }
      ∷ [];
}

-- The same two agents in the other order.
abbrev out_of_order : ExperimentRequest ℤ
out_of_order = record request {
  agents =
      record { kind = "trend"; parameters = [] }
      ∷ record { kind = "reversion"; parameters = [] }
      ∷ [];
}

out_of_order_raises : made_of out_of_order ≡ err signals_not_frozen
unfolding experimenting
out_of_order_raises = refl

abbrev forecasts : Result (Forecast ℤ) → Bool
forecasts (ok q) = true
forecasts (err e) = false

abbrev forecast_or : Forecast ℤ → Result (Forecast ℤ) → Forecast ℤ
forecast_or q (ok r) = r
forecast_or q (err e) = q

forecast_returned :
    (q : Forecast ℤ) (m : Result (Forecast ℤ)) → forecasts m ≡ true → m ≡ ok (forecast_or q m)
forecast_returned q (ok r) h = refl
forecast_returned q (err e) h = absurd (cc)

in_order-forecasts : forecasts (made_of in_order) ≡ true
unfolding experimenting
in_order-forecasts = refl

abbrev spare : Forecast ℤ
spare = record {
  forecast_id = "";
  experiment_id = "";
  evaluation_time = 0;
  instrument = "";
  forecast_horizon = "";
  expected_return = none;
  direction = long;
  confidence = num 0 0;
  agent_forecasts = [];
  council_decision = decision;
  council_weights = [];
  source_provenance = empty_context.provenance;
  agent_versions = [];
  finalized_at = 0;
}

forecast_in_order_example :
    agent_ids (forecast_or spare (made_of in_order)).agent_forecasts
    ≡ agent_ids (by_agent (forecast_or spare (made_of in_order)).agent_forecasts)
forecast_in_order_example =
    forecast_in_order equality setting.build_agents setting.identity decision_id setting.forecast_id
      equality_laws in_order seen_context (forecast_or spare (made_of in_order))
      (forecast_returned spare (made_of in_order) in_order-forecasts)

serve_calls-AreLawful_example : AreLawful setting.identity (
    serve_calls equality setting.identity
      (collaborators setting (fetch setting (provider_of seen)))
      []
      (creation request ∷ running "e1" ∷ []))
serve_calls-AreLawful_example =
    serve_calls-AreLawful equality setting.identity
      (collaborators setting (fetch setting (provider_of seen))) []
      (creation request ∷ running "e1" ∷ []) tt
