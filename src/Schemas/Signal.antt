-- ===== src/Schemas/Signal.antt =====
-- Signals and council decisions of schemas.py.
use the_council.Prelude.{ℕ, Bool, true, false, ◌&&◌, ◌||◌, Option, List, String, ◌==◌, ltb}
use the_council.Floats.{Float, nought, or_zero, ◌<?◌, ◌=?◌, unit_float, signed_unit_float, opt_all}
use the_council.Result.{
  Result, ok, ◌>>◌, guard, refuse, invalid_field, schema_version, identity_required,
  expires_before_generated, target_exposure_mismatch, nonvalid_must_abstain,
  expected_return_required, expected_return_forbidden, long_negative, short_positive, flat_nonzero,
  decision_expires_before_decided,
}
use the_council.Schemas.Enums.{
  SignalType, Direction, ActionIntent, SignalValidity, short, flat, long, is_actionable, is_abstain,
  is_alpha, is_valid,
}
use the_council.Schemas.Market.{VolatilityObservation, is_some, same}

-- `metadata` and `parameters` are carried along and decide nothing: they are left out.
pub record AgentSignal (F : Type 0) : Type 0 where
  pub version : String
  pub agent_id : String
  pub agent_version : String
  pub signal_type : SignalType
  pub symbol : String
  pub timeframe : String
  pub source_snapshot_id : String
  pub source_as_of : ℕ
  pub forecast_direction : Direction
  pub expected_return : Option F
  pub target_exposure : Option F
  pub action : ActionIntent
  pub validity : SignalValidity
  pub confidence : F
  pub horizon_bars : ℕ
  pub generated_at : ℕ
  pub expires_at : ℕ
  pub rationale : String
  pub volatility : Option (VolatilityObservation F)

pub record CouncilDecision (F : Type 0) : Type 0 where
  pub decision_id : String
  pub symbol : String
  pub timeframe : String
  pub source_snapshot_id : String
  pub source_as_of : ℕ
  pub forecast_direction : Direction
  pub expected_return : Option F
  pub target_exposure : Option F
  pub action : ActionIntent
  pub conviction : F
  pub confidence : F
  pub decided_at : ℕ
  pub expires_at : ℕ
  pub signals : List (AgentSignal F)

module _ {F : Type 0} ⦃f : Float F⦄ where
  -- The three tests on the forecast's direction, the same for signals and decisions.
  abbrev pub check_direction : Direction → Option F → Result (Unit {0})
  check_direction long r = refuse (or_zero r <? nought) long_negative
  check_direction short r = refuse (nought <? or_zero r) short_positive
  check_direction flat r = guard (opt_all (λ x. x =? nought) r) flat_nonzero

  abbrev pub check_expected_return : Bool → Option F → Result (Unit {0})
  check_expected_return true r = guard (is_some r) expected_return_required
  check_expected_return false r = refuse (is_some r) expected_return_forbidden

  -- What the validators of a signal refuse.
  unfoldable pub check_signal : AgentSignal F → Result (Unit {0})
  check_signal s = do
    guard
        (opt_all f.is_finite s.expected_return
          && opt_all signed_unit_float s.target_exposure
          && unit_float s.confidence
          && ltb 0 s.horizon_bars)
        invalid_field
    guard (s.version == "1.1") schema_version
    refuse
        (s.agent_id == ""
          || s.agent_version == ""
          || s.symbol == ""
          || s.timeframe == ""
          || s.source_snapshot_id == "")
        identity_required
    refuse (ltb s.expires_at s.generated_at) expires_before_generated
    guard (same (is_actionable s.action) (is_some s.target_exposure)) target_exposure_mismatch
    guard (is_valid s.validity || is_abstain s.action) nonvalid_must_abstain
    check_expected_return (is_alpha s.signal_type && is_valid s.validity) s.expected_return
    check_direction s.forecast_direction s.expected_return

  unfoldable pub validate_signal : AgentSignal F → Result (AgentSignal F)
  validate_signal s = check_signal s >> ok s

  unfoldable pub validate_decision : CouncilDecision F → Result (CouncilDecision F)
  validate_decision d = do
    guard
        (opt_all f.is_finite d.expected_return
          && opt_all signed_unit_float d.target_exposure
          && signed_unit_float d.conviction
          && unit_float d.confidence)
        invalid_field
    guard (same (is_actionable d.action) (is_some d.target_exposure)) target_exposure_mismatch
    refuse (ltb d.expires_at d.decided_at) decision_expires_before_decided
    check_direction d.forecast_direction d.expected_return
    ok d
