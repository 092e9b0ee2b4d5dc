-- ===== src/Agents/Regime.antt =====
-- `RegimeClassificationAgent` of agents/regime.py.
use the_council.Prelude.{
  ℕ, ◌/◌, max, Bool, false, not, ◌||◌, if◌then◌else◌, Option, none, some, List, String, length, ltb,
  take,
}
use the_council.Floats.{Float, nought, of_nat, ◌⊖◌, ◌⊘◌, ◌≤?◌, ◌<?◌}
use the_council.Result.{Result, ok, ◌>>=◌, ◌>>◌, refuse, regime_settings}
use the_council.Schemas.Enums.{flat, ActionIntent, abstain, no_action, SignalValidity, was_observed}
use the_council.Schemas.Market.{MarketSnapshot, VolatilityObservation, newest_bar}
use the_council.Schemas.Signal.{AgentSignal}
use the_council.Risk.Restrictions.{drop, realized_volatility}
use the_council.Agents.Signals.{Identity, View, last_of, closes_of, clamp, signal_from}

pub record RegimeAgent (F : Type 0) : Type 0 where
  pub identity : Identity
  pub window : ℕ
  pub trend_threshold : F
  pub high_volatility_threshold : F

-- What `analyze` computes before it makes the signal; `regime` and `slope` go into the metadata.
pub record Reading (F : Type 0) : Type 0 where
  pub slope : F
  pub regime : String
  pub confidence : F
  pub validity : SignalValidity
  pub action : ActionIntent

module _ {F : Type 0} ⦃f : Float F⦄ where
  abbrev is_setting : F → Bool
  is_setting x = not (not (f.is_finite x) || x ≤? nought)

  -- `__post_init__`.
  unfoldable pub new_regime : RegimeAgent F → Result (RegimeAgent F)
  new_regime a = do
    refuse
        (ltb a.window 3
          || not (is_setting a.trend_threshold)
          || not (is_setting a.high_volatility_threshold))
        regime_settings
    ok a

  abbrev pub is_high : F → Option F → Bool
  is_high threshold none = false
  is_high threshold (some value) = threshold ≤? value

  -- `(late - early) / early`.
  abbrev pub slope_of : List F → F
  slope_of closes =
      let midpoint = max 1 (length closes / 2) in
      let early = f.fmean (take midpoint closes) in
      let late = f.fmean (drop midpoint closes) in (late ⊖ early) ⊘ early

  abbrev pub regime_of : RegimeAgent F → Option F → F → String
  regime_of a value slope =
      if is_high a.high_volatility_threshold value
      then "high_volatility"
      else if a.trend_threshold ≤? f.abs slope
      then (if nought <? slope then "trending_up" else "trending_down")
      else "range_bound"

  unfoldable pub read_regime : RegimeAgent F → VolatilityObservation F → List F → Reading F
  read_regime a observation closes =
      if was_observed observation.status
      then record {
        slope = slope_of closes;
        regime = regime_of a observation.value (slope_of closes);
        confidence = clamp (of_nat (length closes) ⊘ of_nat a.window) nought (of_nat 1);
        validity = SignalValidity.valid;
        action = no_action;
      }
      else record {
        slope = nought;
        regime = "unknown";
        confidence = nought;
        validity = SignalValidity.insufficient_data;
        action = abstain;
      }

  abbrev pub regime_view : Reading F → VolatilityObservation F → View F
  regime_view reading observation = record {
    forecast_direction = flat;
    expected_return = none;
    target_exposure = none;
    action = reading.action;
    validity = reading.validity;
    confidence = reading.confidence;
    rationale = "Deterministic slope and typed volatility classify the regime.";
    volatility = some observation;
  }

  -- `analyze`.
  unfoldable pub analyze_regime : RegimeAgent F → MarketSnapshot F → Result (AgentSignal F)
  analyze_regime a snapshot = do
    newest ← newest_bar snapshot
    observation ← realized_volatility snapshot newest a.window
    let closes = closes_of (last_of a.window snapshot.bars)
    signal_from a.identity a.window snapshot
        (regime_view (read_regime a observation closes) observation)
