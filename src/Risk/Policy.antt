-- ===== src/Risk/Policy.antt =====
-- `RiskPolicy`, the inputs of an evaluation and the messages of the governor.
use the_council.Prelude.{Option, ℕ, Bool, ◌&&◌, List, String, ltb}
use the_council.Floats.{Float, of_nat, ◌<?◌, ◌≤?◌, positive_finite, nonneg_finite, unit_float}
use the_council.Result.{
  Result, ok, ◌>>◌, guard, refuse, invalid_field, position_limit_above_gross, status_order_mismatch,
}
use the_council.Schemas.Enums.{RiskStatus, is_approved}
use the_council.Schemas.Market.{is_some, same}
use the_council.Schemas.Order.{ApprovedOrder}

pub record RiskPolicy (F : Type 0) : Type 0 where
  pub minimum_confidence : F
  pub max_position_fraction : F
  pub max_gross_exposure_fraction : F
  pub max_order_notional : F
  pub minimum_cash_reserve_fraction : F
  pub max_realized_volatility : F
  pub max_signal_age_seconds : ℕ
  pub max_observation_age_seconds : ℕ
  pub order_validity_seconds : ℕ
  pub max_fee_bps : F
  pub max_slippage_bps : F
  pub allow_shorting : Bool
  pub allowed_symbols : List String

-- One constructor for each message; the texts that a message quotes are its arguments.
pub data Reason : Type 0 where
  market_mismatch : Reason
  source_mismatch : Reason
  snapshot_future : Reason
  observation_future : Reason
  observation_stale : Reason
  portfolio_not_marked : Reason
  mark_future : String → Reason
  mark_stale : String → Reason
  decision_future : Reason
  decision_stale : Reason
  decision_expired : Reason
  signal_future : String → Reason
  signal_stale : String → Reason
  signal_expired : String → Reason
  signal_invalid : String → Reason
  signal_wrong_source : String → Reason
  signal_predates_source : String → Reason
  volatility_future : String → Reason
  volatility_stale : String → Reason
  fee_bound : Reason
  slippage_bound : Reason
  intent_abstain : Reason
  intent_no_action : Reason
  no_target : Reason
  already_matched : Reason
  not_reducing : Reason
  shorting_disabled : Reason
  low_confidence : Reason
  symbol_not_permitted : Reason
  portfolio_invalid : Reason
  volatility_unknown : Reason
  volatility_exceeded : Reason
  fill_price_not_positive : Reason
  cash_reserve : Reason
  equity_not_positive : Reason
  gross_exceeded : Reason
  position_exceeded : Reason
  decision_expired_early : Reason
  all_passed : Reason
  not_filled : Reason
  authorization_mismatch : Reason
  terms_mismatch : Reason
  slippage_exceeded : Reason
  slippage_misreported : Reason
  fee_exceeded : Reason
  submitted_early : Reason
  filled_before_submission : Reason
  filled_early : Reason
  filled_late : Reason
  not_valued_at_fill : Reason
  quantity_unreconciled : Reason
  cash_unreconciled : Reason
  reduce_only_violated : Reason
  post_equity : Reason
  post_gross : Reason
  post_reserve : Reason
  post_notional : Reason
  post_position : String → Reason
  post_short : String → Reason
  post_symbol : Reason
  reconciled : Reason

pub record RiskDecision (F : Type 0) : Type 0 where
  pub status : RiskStatus
  pub evaluated_at : ℕ
  pub reasons : List Reason
  pub approved_order : Option (ApprovedOrder F)

pub record RiskReconciliation : Type 0 where
  pub compliant : Bool
  pub reconciled_at : ℕ
  pub reasons : List Reason

unfoldable pub validate_status : {F : Type 0} → RiskDecision F → Result (RiskDecision F)
validate_status d = do
  guard (same (is_approved d.status) (is_some d.approved_order)) status_order_mismatch
  ok d

module _ {F : Type 0} ⦃f : Float F⦄ where
  unfoldable pub validate_policy : RiskPolicy F → Result (RiskPolicy F)
  validate_policy p = do
    guard
        (unit_float p.minimum_confidence
          && positive_finite p.max_position_fraction
          && p.max_position_fraction ≤? of_nat 1
          && positive_finite p.max_gross_exposure_fraction
          && p.max_gross_exposure_fraction ≤? of_nat 1
          && positive_finite p.max_order_notional
          && unit_float p.minimum_cash_reserve_fraction
          && positive_finite p.max_realized_volatility
          && ltb 0 p.order_validity_seconds
          && nonneg_finite p.max_fee_bps
          && p.max_fee_bps ≤? of_nat 10_000
          && nonneg_finite p.max_slippage_bps
          && p.max_slippage_bps ≤? of_nat 10_000)
        invalid_field
    refuse (p.max_gross_exposure_fraction <? p.max_position_fraction) position_limit_above_gross
    ok p
