-- ===== src/Tests/Risk.antt =====
-- The governor on the small market.
use mathlib.Core.Option.{some-injective}
use mathlib.Core.Path.{subst}
use the_council.Tests.Execution.{filling, report, sample-IsFill}
use the_council.Risk.Timely.{IsCausal, causal_reasons_iff}
use the_council.Risk.Approval.{IsApproved, evaluate_approved}
use the_council.Execution.Filling.{execute}
use the_council.Execution.Paper.{Account, portfolio_state}
use the_council.Risk.Reconcile.{balance_reasons, exposure_reasons, reconcile_reasons}
use the_council.Risk.Reconciled.{reconcile_fill}
use the_council.Risk.Total.{Returns, evaluate-Returns}
use the_council.Floats.{positive_finite}
use the_council.Prelude.{◌≡◌, refl, some, [], ◌∷◌, ◌↔◌, ◌++◌, true, ℕ, arith}
use the_council.Prelude.Int.{ℤ}
use the_council.Floats.Fixed.{fixed_float, fixed-IsIeee}
use the_council.Result.{ok}
use the_council.Datetime.{aware, span_of, add_time}
use the_council.Trading.{strictly_reduces}
use the_council.Schemas.Enums.{approved}
use the_council.Schemas.Market.{newest_bar, validate_volatility, MarketBar}
use the_council.Schemas.Order.{validate_order, validate_bounds, PortfolioState}
use the_council.Risk.Policy.{RiskDecision, validate_status, all_passed}
use the_council.Risk.Causal.{causal_reasons, signal_reasons}
use the_council.Risk.Restrictions.{realized_volatility, restriction_reasons}
use the_council.Risk.Evaluate.{
  veto, veto_if, current, current_notional, target_notional, delta_notional, order_notional,
  order_side, is_flattening, order_quantity, order_signed_quantity, prospective_quantity,
  is_reducing, worst_fill_price, worst_fee, prospective_cash, prospective_equity,
  prospective_symbol_notional, prospective_gross, limit_reasons, order_expiry, build_order,
  evaluate_target, evaluate,
}
use the_council.Tests.Data.{
  snapshot, decision, policy, costs, portfolio, authorization_id, order, account, opening, num, bar,
}

-- All that an evaluation computes with.
unfoldable pub evaluating : Unit {0}
unfolding span_of add_time evaluate evaluate_target veto veto_if newest_bar causal_reasons
    signal_reasons current current_notional target_notional delta_notional order_notional order_side
    is_flattening order_quantity order_signed_quantity prospective_quantity is_reducing
    worst_fill_price worst_fee prospective_cash prospective_equity prospective_symbol_notional
    prospective_gross limit_reasons order_expiry build_order restriction_reasons realized_volatility
    validate_volatility validate_order validate_status validate_bounds strictly_reduces
evaluating = tt

abbrev approval : RiskDecision ℤ
approval = record {
  status = approved;
  evaluated_at = 3000;
  reasons = all_passed ∷ [];
  approved_order = some order;
}

approves :
    evaluate authorization_id policy decision snapshot portfolio costs (aware 3000) ≡ ok approval
unfolding evaluating
approves = refl

abbrev newest : MarketBar ℤ
newest = bar 3000 100

causal_reasons_iff_example :
    (causal_reasons policy snapshot 3000 decision newest portfolio ≡ [])
    ↔ IsCausal policy snapshot 3000 decision newest portfolio
causal_reasons_iff_example = causal_reasons_iff policy snapshot 3000 decision newest portfolio

evaluate_approved_example :
    (newest : MarketBar ℤ) × (now : ℕ) × (target : ℤ) × IsApproved authorization_id policy decision
      snapshot portfolio costs
      (aware 3000)
      approval
      newest
      now
      target
evaluate_approved_example =
    evaluate_approved authorization_id policy decision snapshot portfolio costs (aware 3000)
      approval approves refl

sized :
    (target : ℤ)
    → decision.target_exposure ≡ some target
    → positive_finite (order_quantity policy portfolio decision.symbol target newest.close) ≡ true
unfolding evaluating
sized target e =
    subst
      (λ x. positive_finite (order_quantity policy portfolio decision.symbol x newest.close) ≡ true)
      (some-injective _ _ e) refl

measured : (q : ℤ) → Returns (restriction_reasons policy decision snapshot newest portfolio q)
unfolding evaluating
measured q = (_, refl)

evaluate-Returns_example :
    Returns (evaluate authorization_id policy decision snapshot portfolio costs (aware 3000))
unfolding evaluating
evaluate-Returns_example =
    evaluate-Returns authorization_id policy decision snapshot portfolio costs (costs, refl) newest
      refl sized measured 3000
      (record { order = omega arith; signal = omega arith; observation = omega arith }) refl

abbrev after : Account ℤ
after = (execute account order opening (aware 3500)).1

abbrev view : PortfolioState ℤ
view = record {
  cash = num 949_924_975 6;
  equity = num 999_924_975 6;
  valued_at = 4000;
  positions =
      record {
        symbol = "BTC/USD";
        quantity = num 5 1;
        average_entry_price = num 10_005 2;
        mark_price = num 100 0;
        mark_observed_at = 4000;
      }
      ∷ [];
}

viewed : portfolio_state after ≡ ok view
unfolding filling portfolio_state
viewed = refl

reconcile_fill_example :
    (4000 ≡ opening.bar_opened_at)
    × (reconcile_reasons policy order report portfolio view
        ≡ balance_reasons order report portfolio view ++ exposure_reasons policy order view)
reconcile_fill_example =
    reconcile_fill fixed-IsIeee account after order opening 3500 report sample-IsFill policy
      portfolio view refl viewed
