-- ===== src/Schemas/Enums.antt =====
-- The enumerations of schemas.py. `VolatilityEstimator`, `VolatilityUnits` and `FillPolicy` have one
-- member each.
use the_council.Prelude.{Bool, true, false}

pub data SignalType : Type 0 where
  alpha volatility regime : SignalType

pub data Direction : Type 0 where
  short flat long : Direction

pub data ActionIntent : Type 0 where
  target_exposure abstain no_action reduce_only : ActionIntent

pub data SignalValidity : Type 0 where
  valid insufficient_data invalid : SignalValidity

pub data ObservationStatus : Type 0 where
  valid insufficient_data : ObservationStatus

pub data VolatilityEstimator : Type 0 where
  log_return_population_stddev : VolatilityEstimator

pub data VolatilityUnits : Type 0 where
  per_bar_decimal : VolatilityUnits

pub data FillPolicy : Type 0 where
  next_bar_open : FillPolicy

pub data OrderSide : Type 0 where
  buy sell : OrderSide

pub data RiskStatus : Type 0 where
  approved vetoed : RiskStatus

pub data ExecutionStatus : Type 0 where
  filled rejected : ExecutionStatus

-- `action in (TARGET_EXPOSURE, REDUCE_ONLY)`.
abbrev pub is_actionable : ActionIntent → Bool
is_actionable target_exposure = true
is_actionable abstain = false
is_actionable no_action = false
is_actionable reduce_only = true

abbrev pub is_reduce_only : ActionIntent → Bool
is_reduce_only reduce_only = true
is_reduce_only target_exposure = false
is_reduce_only abstain = false
is_reduce_only no_action = false

abbrev pub is_abstain : ActionIntent → Bool
is_abstain abstain = true
is_abstain target_exposure = false
is_abstain no_action = false
is_abstain reduce_only = false

abbrev pub is_alpha : SignalType → Bool
is_alpha alpha = true
is_alpha volatility = false
is_alpha regime = false

abbrev pub is_valid : SignalValidity → Bool
is_valid SignalValidity.valid = true
is_valid SignalValidity.insufficient_data = false
is_valid invalid = false

abbrev pub is_invalid : SignalValidity → Bool
is_invalid SignalValidity.valid = false
is_invalid SignalValidity.insufficient_data = false
is_invalid invalid = true

abbrev pub was_observed : ObservationStatus → Bool
was_observed ObservationStatus.valid = true
was_observed ObservationStatus.insufficient_data = false

abbrev pub is_filled : ExecutionStatus → Bool
is_filled filled = true
is_filled rejected = false

abbrev pub is_approved : RiskStatus → Bool
is_approved approved = true
is_approved vetoed = false

abbrev pub same_side : OrderSide → OrderSide → Bool
same_side buy buy = true
same_side sell sell = true
same_side _ _ = false
