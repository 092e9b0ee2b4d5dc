-- ===== src/Agents.antt =====
-- agents/base.py and agents/_math.py: what the program knows of a specialist agent.
pub mod Signals
pub mod Trend
pub mod Reversion
pub mod Regime
pub mod Volatility
pub mod Prices
pub mod Accepted
pub mod Forecasts
pub mod Returned
use the_council.Prelude.{
  ℕ, ◌+◌, ◌-◌, ◌*◌, ◌/◌, Bool, ◌&&◌, if◌then◌else◌, Option, none, some, List, leb, ltb, eqb,
}
use Prim.Native.String.{String, [], ◌∷◌}
use Prim.Native.Char.{code}
use the_council.Prelude.Int.{ℤ}
use the_council.Dict.{Dict}
use the_council.Datetime.{span_of, microseconds}
use the_council.Result.{Result, ok, ◌>>=◌, ◌>>◌, guard, of_option, duration_format, date_overflow}
use the_council.Schemas.Enums.{SignalType}
use the_council.Schemas.Market.{MarketSnapshot}
use the_council.Schemas.Signal.{AgentSignal}

-- The values that the program puts among an agent's parameters.
pub data Parameter : Type 0 where
  number : ℤ → Parameter
  word : String → Parameter
  words : List String → Parameter

-- `AgentContext` of schemas.py.
pub record AgentContext : Type 0 where
  pub run_id : String
  pub parameters : Dict Parameter

-- `SpecialistAgent`, with the two history requirements that an agent may declare.
pub record SpecialistAgent (F : Type 0) : Type 0 where
  pub agent_id : String
  pub agent_version : String
  pub signal_type : SignalType
  pub warmup_days : Option ℕ
  pub declared_bars : ℕ
  pub analyze : MarketSnapshot F → AgentContext → Result (AgentSignal F)

abbrev is_digit : ℕ → Bool
is_digit c = leb 48 c && leb c 57

-- Seconds of the unit `m`, `h` or `d`.
abbrev unit_seconds : ℕ → Option ℕ
unit_seconds c =
    if eqb c 109
    then some 60
    else if eqb c 104
    then some 3_600
    else if eqb c 100
    then some 86_400
    else none

abbrev with_unit : ℕ → Option ℕ → Option (ℕ × ℕ)
with_unit amount none = none
with_unit amount (some seconds) = some (amount, seconds)

abbrev amount_of : ℕ → String → Option (ℕ × ℕ)
amount_of amount [] = none
amount_of amount (c ∷ []) = with_unit amount (unit_seconds (code c))
amount_of amount (c ∷ d ∷ s) =
    let rest = amount_of (amount * 10 + (code c - 48)) (d ∷ s) in
    if is_digit (code c) then rest else none

-- The number and the seconds of the unit of a text that matches `([1-9][0-9]*)([mhd])`.
abbrev parts_in : String → Option (ℕ × ℕ)
parts_in [] = none
parts_in (c ∷ s) = if leb 49 (code c) && leb (code c) 57 then amount_of (code c - 48) s else none

abbrev seconds_of : Option (ℕ × ℕ) → Option ℕ
seconds_of none = none
seconds_of (some (amount, seconds)) = some (amount * seconds)

abbrev pub seconds_in : String → Option ℕ
seconds_in text = seconds_of (parts_in text)

-- `duration` of experiments/models.py, which makes a timedelta of as many minutes, of as many hours and of
-- as many days before it takes the one that is asked for.
unfoldable pub duration_of : String → Result ℕ
duration_of text = do
  parts ← of_option duration_format (parts_in text)
  guard (ltb parts.0 1_000_000_000) date_overflow
  ok (microseconds (parts.0 * parts.1))

unfoldable pub timeframe_delta : String → Result ℕ
timeframe_delta timeframe = do
  seconds ← of_option duration_format (seconds_in timeframe)
  span_of seconds

-- `ceil(days * 86_400 / seconds)`, or the number of bars.
abbrev required_bars : ℕ → Option ℕ → String → Result ℕ
required_bars bars none timeframe = ok bars
required_bars bars (some days) timeframe = do
  seconds ← of_option duration_format (seconds_in timeframe)
  span ← span_of seconds
  ok ((days * 86_400 + seconds - 1) / seconds)

unfoldable pub warmup_bars : {F : Type 0} → SpecialistAgent F → String → Result ℕ
warmup_bars agent timeframe = required_bars agent.declared_bars agent.warmup_days timeframe
