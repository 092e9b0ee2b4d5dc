-- ===== src/Tests/Agents.antt =====
-- The trend agent on the small market.
use the_council.Datetime.{span_of, add_time}
use the_council.Agents.Returned.{IsAnswer, analyze_trend-Returns}
use the_council.Prelude.{◌≡◌, refl, ℕ, Bool, true, List, [], ◌∷◌, String, arith}
use the_council.Prelude.Int.{ℤ}
use the_council.Floats.Fixed.{fixed_float, fixed-IsIeee}
use the_council.Result.{Result, ok, err}
use the_council.Schemas.Enums.{alpha, long}
use the_council.Schemas.Market.{MarketBar, MarketSnapshot, validate_snapshot, newest_bar}
use the_council.Schemas.Signal.{AgentSignal, validate_signal, check_signal}
use the_council.Agents.{timeframe_delta}
use the_council.Agents.Signals.{Identity, direction_for, signal_from}
use the_council.Agents.Trend.{TrendAgent, trend_view, analyze_trend, new_trend}
use the_council.Agents.Prices.{trend_agent}
use the_council.Agents.Accepted.{IsAccepted, analyze-IsAccepted}
use the_council.Tests.Data.{bar, snapshot, signal_of}

abbrev identity : Identity
identity = record { agent_id = "trend"; agent_version = "1.0"; signal_type = alpha }

abbrev trend : TrendAgent
trend = record { identity = identity; fast_window = 1; slow_window = 2 }

abbrev rising : MarketSnapshot ℤ
rising = record snapshot { bars = bar 1000 100 ∷ bar 2000 101 ∷ bar 3000 120 ∷ [] }

abbrev any_timeframe : String → Bool
any_timeframe _ = true

abbrev digest : String → String → ℕ → List (MarketBar ℤ) → String
digest _ _ _ _ = "snap"

-- What the examples compute with.
unfoldable analyzing : Unit {0}
unfolding span_of add_time analyze_trend new_trend trend_view signal_from direction_for
    validate_signal check_signal timeframe_delta validate_snapshot newest_bar
analyzing = tt

abbrev signal_or : AgentSignal ℤ → Result (AgentSignal ℤ) → AgentSignal ℤ
signal_or s (ok t) = t
signal_or s (err e) = s

abbrev found : AgentSignal ℤ
found = signal_or (signal_of "none") (analyze_trend trend rising)

goes_long : found.forecast_direction ≡ long
unfolding analyzing
goes_long = refl

finds : analyze_trend trend rising ≡ ok found
unfolding analyzing
finds = refl

analyze-IsAccepted_example : IsAccepted rising identity 2 found
unfolding analyzing
analyze-IsAccepted_example =
    analyze-IsAccepted any_timeframe digest rising rising (trend_agent trend) found refl finds

analyze_trend-Returns_example :
    (s : AgentSignal ℤ) × (analyze_trend trend rising ≡ ok s) × IsAnswer trend rising s
unfolding analyzing
analyze_trend-Returns_example =
    analyze_trend-Returns fixed-IsIeee trend rising 3_600_000_000
      (record { settings = refl; alpha_type = refl; agent = refl; market = refl }) refl
      (omega arith) refl
