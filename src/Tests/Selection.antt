-- ===== src/Tests/Selection.antt =====
-- Two markets of the same times and other prices, and the same batch of experiments.
use the_council.Datetime.{span_of, add_time}
use the_council.Prelude.{◌≡◌, refl, ℕ, ◌*◌, ◌+◌, true, some, none, List, [], ◌∷◌, map, false}
use the_council.Prelude.Int.{ℤ, pos}
use the_council.Floats.Fixed.{fixed_float}
use the_council.Agents.{SpecialistAgent, timeframe_delta, duration_of}
use the_council.Result.{Result, ok, err}
use the_council.Schemas.Market.{MarketBar}
use the_council.MarketData.Models.{
  HistoricalRequest, HistoricalBars, in_memory, validate_request, validate_instrument,
}
use the_council.Experiments.Models.{ExperimentRequest, ExperimentAgentConfig}
use the_council.Experiments.Context.{required_context_bars, instrument_of, horizon_bars}
use the_council.Experiments.Selection.{
  RandomExperimentRequest, is_selectable, candidates, chosen_from, plan_of, select_points,
}
use the_council.Experiments.Selected.{both_answer, select_points-Blind}
use the_council.Tests.Data.{bar, config}

abbrev hour : ℕ
hour = 3_600_000_000

abbrev bars_at : ℕ → List (MarketBar ℤ)
bars_at price =
    bar (1 * hour) price
    ∷ bar (2 * hour) price
    ∷ bar (3 * hour) (price + 1)
    ∷ bar (4 * hour) (price + 2)
    ∷ []

abbrev history_at : ℕ → HistoricalRequest → HistoricalBars ℤ
history_at price asked = record {
  provider = in_memory;
  request = asked;
  fetched_at = 9 * hour;
  bars = bars_at price;
  quality = record {
    input_rows = 4;
    output_rows = 4;
    duplicate_rows_removed = 0;
    input_was_out_of_order = false;
    gaps = [];
    expected_intervals = 4;
    leading_missing_intervals = 0;
    trailing_missing_intervals = 0;
    coverage_complete = true;
  };
  source_version = "1";
  adapter_semantic_version = "1";
  cache_key = "key";
}

abbrev market_at : ℕ → HistoricalRequest → Result (HistoricalBars ℤ)
market_at price asked = ok (history_at price asked)

abbrev no_agents : List (ExperimentAgentConfig ℤ) → Result (List (SpecialistAgent ℤ))
no_agents specifications = ok []

abbrev rank : ℤ → ℕ → ℕ
rank seed time = time

abbrev batch : RandomExperimentRequest ℤ
batch = record {
  template = record {
    instrument = "BTC/USD";
    provider = in_memory;
    evaluation_time = 3 * hour;
    forecast_horizon = "1h";
    timeframe = "1h";
    agents = [];
    council = config;
    starting_portfolio = none;
    random_seed = none;
    context_bars = some 2;
  };
  range_start = 2 * hour;
  range_end = 4 * hour;
  samples = 2;
  seed = pos 7;
}

-- What the examples compute with.
unfoldable selecting : Unit {0}
unfolding span_of add_time select_points plan_of chosen_from candidates is_selectable
    required_context_bars instrument_of horizon_bars timeframe_delta duration_of validate_request
    validate_instrument
selecting = tt

abbrev times_in : Result (List (ExperimentRequest ℤ)) → List ℕ
times_in (ok requests) = map (λ (r : ExperimentRequest ℤ). r.evaluation_time) requests
times_in (err e) = []

-- Two bars before and one after: the second hour and the third.
selects : times_in (select_points rank no_agents (market_at 100) batch) ≡ 2 * hour ∷ 3 * hour ∷ []
unfolding selecting
selects = refl

select_points-Blind_example :
    select_points rank no_agents (market_at 100) batch
    ≡ select_points rank no_agents (market_at 50) batch
unfolding selecting
select_points-Blind_example =
    select_points-Blind rank no_agents (market_at 100) (market_at 50) batch (λ asked.
      both_answer (history_at 100 asked) (history_at 50 asked)
        (record { request = refl; provider = refl; times = refl }))
