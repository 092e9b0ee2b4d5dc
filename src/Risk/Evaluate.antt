-- ===== src/Risk/Evaluate.antt =====
-- `DeterministicRiskGovernor.evaluate`. The SHA-256 of an authorization's fields is the parameter
-- `authorization_id`.
use the_council.Prelude.{
  ℕ, Bool, true, false, not, ◌&&◌, if◌then◌else◌, Option, none, some, List, [], ◌∷◌, ◌++◌, String,
  ltb, min, note, is_empty,
}
use the_council.Floats.{Float, nought, of_nat, fmin, ◌⊕◌, ◌⊖◌, ◌⊗◌, ◌⊘◌, ◌<?◌, ◌≤?◌}
use the_council.Result.{Result, ok, ◌>>=◌}
use the_council.Datetime.{Datetime, utc, span_of, add_time}
use the_council.Trading.{
  notional_abs_tolerance, settle, signed_quantity, strictly_reduces, find_position, held_quantity,
}
use the_council.Schemas.Enums.{
  OrderSide, buy, sell, ActionIntent, target_exposure, abstain, no_action, reduce_only, approved,
  vetoed, next_bar_open, is_reduce_only,
}
use the_council.Schemas.Market.{MarketBar, MarketSnapshot, newest_bar, is_some}
use the_council.Schemas.Signal.{CouncilDecision}
use the_council.Schemas.Order.{
  Position, PortfolioState, ExecutionCostBounds, ApprovedOrder, gross_exposure, notional,
  validate_order,
}
use the_council.Risk.Policy.{
  RiskPolicy, RiskDecision, Reason, validate_status, fee_bound, slippage_bound, intent_abstain,
  intent_no_action, no_target, already_matched, not_reducing, fill_price_not_positive, cash_reserve,
  equity_not_positive, gross_exceeded, position_exceeded, decision_expired_early, all_passed,
}
use the_council.Risk.Causal.{causal_reasons}
use the_council.Risk.Restrictions.{restriction_reasons}

-- Intents that ask for no trade.
abbrev pub intent_reasons : ActionIntent → List Reason
intent_reasons abstain = intent_abstain ∷ []
intent_reasons no_action = intent_no_action ∷ []
intent_reasons target_exposure = []
intent_reasons reduce_only = []

module _ {F : Type 0} ⦃f : Float F⦄ where
  -- `_veto`.
  unfoldable pub veto : ℕ → List Reason → Result (RiskDecision F)
  veto now reasons =
      validate_status
        (record { status = vetoed; evaluated_at = now; reasons = reasons; approved_order = none })

  -- `if test: return self._veto(...)`, and the rest of the method.
  unfoldable pub veto_if :
      Bool → ℕ → List Reason → Result (RiskDecision F) → Result (RiskDecision F)
  veto_if true now reasons rest = veto now reasons
  veto_if false now reasons rest = rest

  abbrev pub current_value : Option (Position F) → F → F
  current_value none last_price = nought ⊗ last_price
  current_value (some p) last_price = notional p

  -- The values that an evaluation computes once the intent is known to be a target.
  module _ (policy : RiskPolicy F) (portfolio : PortfolioState F) (symbol : String)
      (target last_price : F) where
    unfoldable pub current : Option (Position F)
    current = find_position symbol portfolio.positions

    unfoldable pub current_notional : F
    current_notional = current_value current last_price

    unfoldable pub target_notional : F
    target_notional = target ⊗ portfolio.equity ⊗ policy.max_position_fraction

    unfoldable pub delta_notional : F
    delta_notional = target_notional ⊖ current_notional

    unfoldable pub order_notional : F
    order_notional = fmin (f.abs delta_notional) policy.max_order_notional

    unfoldable pub order_side : OrderSide
    order_side = if nought <? delta_notional then buy else sell

    unfoldable pub is_flattening : Bool
    is_flattening =
        f.abs target_notional ≤? notional_abs_tolerance
        && is_some current
        && f.abs current_notional ≤? policy.max_order_notional ⊕ notional_abs_tolerance

    unfoldable pub order_quantity : F
    order_quantity =
        if is_flattening then f.abs (held_quantity current) else order_notional ⊘ last_price

    unfoldable pub order_signed_quantity : F
    order_signed_quantity = signed_quantity order_side order_quantity

    unfoldable pub prospective_quantity : F
    prospective_quantity = settle (held_quantity current ⊕ order_signed_quantity)

    unfoldable pub is_reducing : Bool
    is_reducing = strictly_reduces (held_quantity current) prospective_quantity

    module _ (costs : ExecutionCostBounds F) where
      abbrev worst_factor : OrderSide → F
      worst_factor buy = of_nat 1 ⊕ costs.slippage_bps ⊘ of_nat 10_000
      worst_factor sell = of_nat 1 ⊖ costs.slippage_bps ⊘ of_nat 10_000

      unfoldable pub worst_fill_price : F
      worst_fill_price = last_price ⊗ worst_factor order_side

      unfoldable pub worst_fee : F
      worst_fee = order_quantity ⊗ worst_fill_price ⊗ costs.fee_bps ⊘ of_nat 10_000

      abbrev cash_after : OrderSide → F
      cash_after buy = portfolio.cash ⊖ order_quantity ⊗ worst_fill_price ⊖ worst_fee
      cash_after sell = portfolio.cash ⊕ order_quantity ⊗ worst_fill_price ⊖ worst_fee

      unfoldable pub prospective_cash : F
      prospective_cash = cash_after order_side

      unfoldable pub prospective_equity : F
      prospective_equity =
          portfolio.equity
          ⊕ order_signed_quantity ⊗ last_price
          ⊕ (prospective_cash ⊖ portfolio.cash)

      unfoldable pub prospective_symbol_notional : F
      prospective_symbol_notional = prospective_quantity ⊗ last_price

      unfoldable pub prospective_gross : F
      prospective_gross =
          gross_exposure portfolio ⊖ f.abs current_notional ⊕ f.abs prospective_symbol_notional

      unfoldable pub limit_reasons : List Reason
      limit_reasons =
          note (prospective_cash <? prospective_equity ⊗ policy.minimum_cash_reserve_fraction)
            cash_reserve
          ++ ((if prospective_equity ≤? nought
                then equity_not_positive ∷ []
                else note
                    (prospective_equity ⊗ policy.max_gross_exposure_fraction <? prospective_gross)
                    gross_exceeded)
              ++ note
                  (nought <? prospective_equity
                    && prospective_equity ⊗ policy.max_position_fraction ⊕ f.scientific 1 9
                      <? f.abs prospective_symbol_notional)
                  position_exceeded)

  module _ (authorization_id : CouncilDecision F → OrderSide → F → F → ℕ → String)
      (policy : RiskPolicy F) (decision : CouncilDecision F) (snapshot : MarketSnapshot F)
      (portfolio : PortfolioState F) (costs : ExecutionCostBounds F) where
    unfoldable pub order_expiry : ℕ → Result ℕ
    order_expiry now = do
      span ← span_of policy.order_validity_seconds
      later ← add_time now span
      ok (min decision.expires_at later)

    unfoldable pub build_order : F → F → (now expires : ℕ) → ApprovedOrder F
    build_order target price now expires =
        let side = order_side policy portfolio decision.symbol target price in
        let quantity = order_quantity policy portfolio decision.symbol target price in
        record {
          authorization_id = authorization_id decision side quantity price now;
          decision_id = decision.decision_id;
          source_snapshot_id = snapshot.snapshot_id;
          symbol = decision.symbol;
          timeframe = decision.timeframe;
          side = side;
          quantity = quantity;
          reference_price = price;
          authorized_at = now;
          earliest_fill_at = now;
          expires_at = expires;
          fill_policy = next_bar_open;
          max_fee_bps = costs.fee_bps;
          max_slippage_bps = costs.slippage_bps;
          reduce_only = is_reducing policy portfolio decision.symbol target price;
          paper_only = true;
        }

    -- From the first test on the size of the trade to the end.
    unfoldable pub evaluate_target : MarketBar F → ℕ → F → Result (RiskDecision F)
    evaluate_target newest now target =
        let price = newest.close in
        let reducing = is_reducing policy portfolio decision.symbol target price in
        let limits = limit_reasons policy portfolio decision.symbol target price costs in
        veto_if
          (order_notional policy portfolio decision.symbol target price ≤? notional_abs_tolerance)
          now (already_matched ∷ [])
          (veto_if (is_reduce_only decision.action && not reducing) now (not_reducing ∷ []) (do
            restrictions ←
                restriction_reasons policy decision snapshot newest portfolio
                  (prospective_quantity policy portfolio decision.symbol target price)
            veto_if (not (is_empty restrictions) && not reducing) now restrictions (
                veto_if
                  (worst_fill_price policy portfolio decision.symbol target price costs ≤? nought)
                  now (fill_price_not_positive ∷ [])
                  (veto_if (not (is_empty limits) && not reducing) now limits (do
                    expires ← order_expiry now
                    veto_if (ltb expires now) now (decision_expired_early ∷ []) (do
                      order ← validate_order (build_order target price now expires)
                      validate_status (record {
                        status = approved;
                        evaluated_at = now;
                        reasons = all_passed ∷ [];
                        approved_order = some order;
                      })))))))

    abbrev pub evaluate_intent : MarketBar F → ℕ → Option F → Result (RiskDecision F)
    evaluate_intent newest now none = veto now (no_target ∷ [])
    evaluate_intent newest now (some target) = evaluate_target newest now target

    unfoldable pub evaluate : Datetime → Result (RiskDecision F)
    evaluate evaluated_at = do
      now ← utc evaluated_at
      newest ← newest_bar snapshot
      let causal = causal_reasons policy snapshot now decision newest portfolio
      veto_if (not (is_empty causal)) now causal (
          veto_if (policy.max_fee_bps <? costs.fee_bps) now (fee_bound ∷ []) (
            veto_if (policy.max_slippage_bps <? costs.slippage_bps) now (slippage_bound ∷ []) (
              veto_if (not (is_empty (intent_reasons decision.action))) now
                (intent_reasons decision.action)
                (evaluate_intent newest now decision.target_exposure))))
