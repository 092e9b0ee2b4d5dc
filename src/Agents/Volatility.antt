-- ===== src/Agents/Volatility.antt =====
-- `VolatilityAgent` of agents/volatility.py.
use the_council.Prelude.{ℕ, not, ◌||◌, if◌then◌else◌, Option, none, some, String, length, ltb}
use the_council.Floats.{Float, nought, of_nat, ◌⊘◌, ◌≤?◌}
use the_council.Result.{Result, ok, ◌>>=◌, ◌>>◌, refuse, volatility_settings}
use the_council.Schemas.Enums.{flat, abstain, no_action, SignalValidity, was_observed}
use the_council.Schemas.Market.{MarketSnapshot, VolatilityObservation, newest_bar}
use the_council.Schemas.Signal.{AgentSignal}
use the_council.Risk.Restrictions.{realized_volatility}
use the_council.Agents.Signals.{Identity, View, last_of, clamp, signal_from}

pub record VolatilityAgent (F : Type 0) : Type 0 where
  pub identity : Identity
  pub window : ℕ
  pub elevated_threshold : F

module _ {F : Type 0} ⦃f : Float F⦄ where
  -- `__post_init__`.
  unfoldable pub new_volatility : VolatilityAgent F → Result (VolatilityAgent F)
  new_volatility a = do
    refuse
        (ltb a.window 3 || not (f.is_finite a.elevated_threshold) || a.elevated_threshold ≤? nought)
        volatility_settings
    ok a

  -- `state`, which goes into the metadata.
  abbrev pub state_of : VolatilityAgent F → Option F → String
  state_of a none = "insufficient_data"
  state_of a (some value) = if a.elevated_threshold ≤? value then "elevated" else "normal"

  abbrev pub volatility_view : F → VolatilityObservation F → View F
  volatility_view confidence observation =
      let valid = was_observed observation.status in
      record {
        forecast_direction = flat;
        expected_return = none;
        target_exposure = none;
        action = if valid then no_action else abstain;
        validity = if valid then SignalValidity.valid else SignalValidity.insufficient_data;
        confidence = confidence;
        rationale = "Typed per-bar log-return dispersion classifies current volatility.";
        volatility = some observation;
      }

  -- `analyze`.
  unfoldable pub analyze_volatility : VolatilityAgent F → MarketSnapshot F → Result (AgentSignal F)
  analyze_volatility a snapshot = do
    newest ← newest_bar snapshot
    observation ← realized_volatility snapshot newest a.window
    let received = length (last_of a.window snapshot.bars)
    signal_from a.identity a.window snapshot
        (volatility_view (clamp (of_nat received ⊘ of_nat a.window) nought (of_nat 1)) observation)
