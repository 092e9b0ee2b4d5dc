-- ===== src/Agents/Signals.antt =====
-- What the agents of agents/ share: `clamp`, `direction_for` and `mean` of agents/_math.py, and the signal
-- that each of them makes of its view of a snapshot.
use the_council.Datetime.{add_time}
use the_council.Prelude.{
  Bool, true, false, ℕ, ◌-◌, if◌then◌else◌, Option, none, List, String, length, map,
}
use Prim.Native.String.{◌++◌}
use the_council.Prelude.Digits.{decimal}
use the_council.Floats.{Float, nought, of_nat, fmin, fmax, ◌<?◌}
use the_council.Result.{Result, ◌>>=◌}
use the_council.Schemas.Enums.{
  Direction, short, flat, long, ActionIntent, abstain, SignalType, SignalValidity,
}
use the_council.Schemas.Market.{MarketBar, MarketSnapshot, VolatilityObservation}
use the_council.Schemas.Signal.{AgentSignal, validate_signal}
use the_council.Risk.Restrictions.{drop}
use the_council.Agents.{timeframe_delta}

-- `xs[-n:]` for a positive n.
abbrev pub last_of {ℓ} : {A : Type ℓ} → ℕ → List A → List A
last_of n xs = drop (length xs - n) xs

abbrev pub closes_of : {F : Type 0} → List (MarketBar F) → List F
closes_of {F} bars = map (λ (b : MarketBar F). b.close) bars

abbrev pub is_flat : Direction → Bool
is_flat flat = true
is_flat short = false
is_flat long = false

-- What an agent says of the market.
pub record View (F : Type 0) : Type 0 where
  pub forecast_direction : Direction
  pub expected_return : Option F
  pub target_exposure : Option F
  pub action : ActionIntent
  pub validity : SignalValidity
  pub confidence : F
  pub rationale : String
  pub volatility : Option (VolatilityObservation F)

-- The fields that tell an agent's signals from those of others.
pub record Identity : Type 0 where
  pub agent_id : String
  pub agent_version : String
  pub signal_type : SignalType

module _ {F : Type 0} ⦃f : Float F⦄ where
  abbrev pub clamp : F → F → F → F
  clamp value lower upper = fmax lower (fmin upper value)

  -- `direction_for` with the deadband that is left out, 0.05.
  unfoldable pub direction_for : F → Direction × F
  direction_for value =
      if f.abs value <? f.scientific 5 2
      then (flat, nought)
      else (if nought <? value then long else short, clamp value (f.neg (of_nat 1)) (of_nat 1))

  -- The view of an agent that needs more bars.
  abbrev pub insufficient : Direction → ℕ → ℕ → View F
  insufficient direction needed received = record {
    forecast_direction = direction;
    expected_return = none;
    target_exposure = none;
    action = abstain;
    validity = SignalValidity.insufficient_data;
    confidence = nought;
    rationale = "Need " ++ decimal needed ++ " bars; received " ++ decimal received ++ ".";
    volatility = none;
  }

  abbrev pub signal_with : Identity → ℕ → MarketSnapshot F → View F → ℕ → AgentSignal F
  signal_with identity bars snapshot view expires = record {
    version = "1.1";
    agent_id = identity.agent_id;
    agent_version = identity.agent_version;
    signal_type = identity.signal_type;
    symbol = snapshot.symbol;
    timeframe = snapshot.timeframe;
    source_snapshot_id = snapshot.snapshot_id;
    source_as_of = snapshot.as_of;
    forecast_direction = view.forecast_direction;
    expected_return = view.expected_return;
    target_exposure = view.target_exposure;
    action = view.action;
    validity = view.validity;
    confidence = view.confidence;
    horizon_bars = bars;
    generated_at = snapshot.observed_at;
    expires_at = expires;
    rationale = view.rationale;
    volatility = view.volatility;
  }

  -- The signal that `analyze` ends with.
  unfoldable pub signal_from : Identity → ℕ → MarketSnapshot F → View F → Result (AgentSignal F)
  signal_from identity bars snapshot view = do
    delta ← timeframe_delta snapshot.timeframe
    expires ← add_time snapshot.observed_at delta
    validate_signal (signal_with identity bars snapshot view expires)
