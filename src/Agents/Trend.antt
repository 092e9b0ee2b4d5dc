-- ===== src/Agents/Trend.antt =====
-- `TrendAgent` of agents/trend.py.
use the_council.Prelude.{ℕ, ◌||◌, if◌then◌else◌, none, some, List, length, ltb, leb, eqb}
use the_council.Floats.{Float, nought, of_nat, ◌⊖◌, ◌⊗◌, ◌⊘◌}
use the_council.Result.{Result, ok, ◌>>◌, refuse, trend_windows}
use the_council.Schemas.Enums.{Direction, target_exposure, SignalValidity}
use the_council.Schemas.Market.{MarketSnapshot}
use the_council.Schemas.Signal.{AgentSignal}
use the_council.Agents.Signals.{
  Identity, View, last_of, closes_of, clamp, direction_for, insufficient, signal_from, is_flat,
}

pub record TrendAgent : Type 0 where
  pub identity : Identity
  pub fast_window : ℕ
  pub slow_window : ℕ

-- `__post_init__`.
unfoldable pub new_trend : TrendAgent → Result TrendAgent
new_trend a = refuse (eqb a.fast_window 0 || leb a.slow_window a.fast_window) trend_windows >> ok a

module _ {F : Type 0} ⦃f : Float F⦄ where
  abbrev pub trend_forecast : F → Direction × F → View F
  trend_forecast spread (direction, exposure) =
      let expected = if is_flat direction then nought else spread in
      record {
        forecast_direction = direction;
        expected_return = some expected;
        target_exposure = some exposure;
        action = target_exposure;
        validity = SignalValidity.valid;
        confidence = clamp (f.abs expected ⊗ of_nat 50) (f.scientific 5 2) (of_nat 1);
        rationale = "Fast/slow spread forecasts a decimal return over the stated horizon.";
        volatility = none;
      }

  -- `(fast - slow) / slow`.
  abbrev pub spread_of : TrendAgent → List F → F
  spread_of a closes =
      let fast = f.fmean (last_of a.fast_window closes) in
      let slow = f.fmean (last_of a.slow_window closes) in (fast ⊖ slow) ⊘ slow

  unfoldable pub trend_view : TrendAgent → List F → View F
  trend_view a closes =
      if ltb (length closes) a.slow_window
      then insufficient (direction_for {F = F} nought).0 a.slow_window (length closes)
      else trend_forecast (spread_of a closes) (direction_for (spread_of a closes ⊗ of_nat 20))

  -- `analyze`.
  unfoldable pub analyze_trend : TrendAgent → MarketSnapshot F → Result (AgentSignal F)
  analyze_trend a snapshot =
      signal_from a.identity a.slow_window snapshot (trend_view a (closes_of snapshot.bars))
