-- ===== src/Risk/Reconciled.antt =====
-- A fill of the paper adapter, before the governor's reconciliation.
use the_council.Prelude.{ℕ, ◌≡◌, ◌∙◌, true, false, none, [], ◌++◌, eq_iff, arith, if◌then◌else◌}
use the_council.Floats.{Float, isclose, ◌<?◌, ◌⊕◌}
use the_council.Floats.Laws.{IsIeee}
use the_council.Result.{ok}
use the_council.Trading.{adverse_slippage}
use the_council.Schemas.Enums.{OrderSide, filled, same_side}
use the_council.Schemas.Market.{OpeningPriceObservation}
use the_council.Schemas.Order.{PortfolioState, ApprovedOrder, ExecutionReport, validate_execution}
use the_council.Execution.Paper.{Account, portfolio_state}
use the_council.Execution.Filling.{fill_report, fill_price, fill_fee, pricing_rejection}
use the_council.Execution.State.{validate_execution-eq-ok, valued_at-build_state}
use the_council.Execution.Atomic.{IsFill, fill_report_terms}
use the_council.Risk.Policy.{RiskPolicy}
use the_council.Risk.Reconcile.{
  terms_reasons, price_reasons, timing_reasons, balance_reasons, exposure_reasons,
  reconcile_reasons,
}

same_side_refl : (s : OrderSide) → same_side s s ≡ true
same_side_refl s = ground arith

module _ {F : Type 0} ⦃f : Float F⦄ where
  validate_execution-finite :
      (r q : ExecutionReport F)
      → validate_execution r ≡ ok q
      → (f.is_finite q.quantity ≡ true)
        × (f.is_finite q.fee ≡ true)
        × (f.is_finite q.slippage_bps ≡ true)
  unfolding validate_execution
  validate_execution-finite r q h = ground arith

  isclose_refl : (laws : IsIeee F) (x : F) → f.is_finite x ≡ true → isclose x x ≡ true
  unfolding isclose
  isclose_refl laws x h = ground (arith, laws.eq_refl x h)

  pricing-eq-none :
      (account : Account F) (order : ApprovedOrder F) (opening : OpeningPriceObservation F)
      → pricing_rejection account order opening ≡ none
      → (order.max_slippage_bps ⊕ f.scientific 1 9
          <? adverse_slippage order.side (fill_price account order opening) order.reference_price)
        ≡ false
  unfolding pricing_rejection
  pricing-eq-none account order opening h = ground arith

  module _ (laws : IsIeee F) (account after : Account F) (order : ApprovedOrder F)
      (opening : OpeningPriceObservation F) (submitted : ℕ) (report : ExecutionReport F)
      (fill : IsFill account order opening submitted report after) where
    status : report.status ≡ filled
    unfolding fill_report
    status = cc (validate_execution-eq-ok _ report fill.reported)

    finite :
        (f.is_finite report.quantity ≡ true)
        × (f.is_finite report.fee ≡ true)
        × (f.is_finite report.slippage_bps ≡ true)
    unfolding fill_report
    finite = validate_execution-finite _ report fill.reported

    terms_fine : terms_reasons order report ≡ []
    unfolding terms_reasons
    terms_fine =
        let t = fill_report_terms account order opening submitted report fill.reported in
        ground (
          arith,
          t,
          status,
          eq_iff report.authorization_id order.authorization_id,
          eq_iff report.symbol order.symbol,
          same_side_refl order.side,
          laws.eq_refl report.quantity finite.0,
        )

    timing_fine : timing_reasons order report ≡ []
    unfolding timing_reasons
    timing_fine =
        let t = fill_report_terms account order opening submitted report fill.reported in
        ground arith

    price_fine : order.max_fee_bps ≡ account.fee_bps → price_reasons order report ≡ []
    unfolding price_reasons fill_fee
    price_fine e =
        let t = fill_report_terms account order opening submitted report fill.reported in
        ground (
          arith,
          t,
          isclose_refl laws report.slippage_bps finite.2,
          laws.not-add-lt report.fee finite.1,
          pricing-eq-none account order opening fill.accepted,
        )

    -- A fill of the adapter, charged the fee that the order bounds, stands before the governor: its
    -- terms, its price and its times draw no objection, and the account's view is valued at the fill.
    -- What is left to reconcile are the balances, and the limits of an order that does not only
    -- reduce.
    pub reconcile_fill :
        (policy : RiskPolicy F) (before view : PortfolioState F)
        → order.max_fee_bps ≡ account.fee_bps
        → portfolio_state after ≡ ok view
        → (view.valued_at ≡ opening.bar_opened_at)
          × (reconcile_reasons policy order report before view
              ≡ balance_reasons order report before view
                ++ (if order.reduce_only then [] else exposure_reasons policy order view))
    unfolding reconcile_reasons portfolio_state
    reconcile_fill policy before view e h = (
      valued_at-build_state _ _ _ view h ∙ fill.valued_at,
      rw (terms_fine, timing_fine, price_fine e),
    )
