-- ===== src/Risk/Reconcile.antt =====
-- `DeterministicRiskGovernor.reconcile`, one function for each group of its tests.
use the_council.Prelude.{
  mem_text, ℕ, not, ◌&&◌, if◌then◌else◌, Option, none, some, List, [], ◌∷◌, ◌++◌, ◌==◌, ltb, eqb,
  note, gather, is_empty,
}
use the_council.Floats.{Float, nought, of_nat, isclose, ◌⊕◌, ◌⊖◌, ◌⊗◌, ◌⊘◌, ◌<?◌, ◌≤?◌, ◌=?◌}
use the_council.Trading.{
  quantity_abs_tolerance, notional_abs_tolerance, signed_quantity, adverse_slippage,
  strictly_reduces, find_position, held_quantity,
}
use the_council.Schemas.Enums.{OrderSide, buy, sell, is_filled, same_side}
use the_council.Schemas.Order.{
  Position, PortfolioState, ApprovedOrder, ExecutionReport, notional, gross_exposure,
}
use the_council.Risk.Policy.{
  RiskPolicy, RiskReconciliation, Reason, not_filled, authorization_mismatch, terms_mismatch,
  slippage_exceeded, slippage_misreported, fee_exceeded, submitted_early, filled_before_submission,
  filled_early, filled_late, not_valued_at_fill, quantity_unreconciled, cash_unreconciled,
  reduce_only_violated, post_equity, post_gross, post_reserve, post_notional, post_position,
  post_short, post_symbol, reconciled,
}

-- `report.filled_at or report.submitted_at`.
abbrev or_else : Option ℕ → ℕ → ℕ
or_else none t = t
or_else (some t) _ = t

module _ {F : Type 0} ⦃f : Float F⦄ where
  module _ (order : ApprovedOrder F) (report : ExecutionReport F) where
    unfoldable pub terms_reasons : List Reason
    terms_reasons =
        note (not (is_filled report.status)) not_filled
        ++ (note (not (report.authorization_id == order.authorization_id)) authorization_mismatch
            ++ note
                (not (
                  report.symbol == order.symbol
                  && same_side report.side order.side
                  && report.quantity =? order.quantity))
                terms_mismatch)

    abbrev pub price_tests : Option F → List Reason
    price_tests none = []
    price_tests (some price) =
        let realized = adverse_slippage order.side price order.reference_price in
        note (order.max_slippage_bps ⊕ f.scientific 1 9 <? realized) slippage_exceeded
        ++ (note (not (isclose report.slippage_bps realized)) slippage_misreported
            ++ note
                (report.quantity ⊗ price ⊗ order.max_fee_bps ⊘ of_nat 10_000 ⊕ f.scientific 1 9
                  <? report.fee)
                fee_exceeded)

    unfoldable pub price_reasons : List Reason
    price_reasons = price_tests report.fill_price

    abbrev fill_time_tests : Option ℕ → List Reason
    fill_time_tests none = []
    fill_time_tests (some filled_at) =
        note (ltb filled_at report.submitted_at) filled_before_submission
        ++ (note (ltb filled_at order.earliest_fill_at) filled_early
            ++ note (ltb order.expires_at filled_at) filled_late)

    unfoldable pub timing_reasons : List Reason
    timing_reasons =
        note (ltb report.submitted_at order.authorized_at) submitted_early
        ++ fill_time_tests report.filled_at

    abbrev valuation_tests : ℕ → Option ℕ → List Reason
    valuation_tests valued_at none = []
    valuation_tests valued_at (some filled_at) =
        note (not (eqb valued_at filled_at)) not_valued_at_fill

    abbrev expected_cash : F → F → OrderSide → F
    expected_cash cash price buy = cash ⊖ report.quantity ⊗ price ⊖ report.fee
    expected_cash cash price sell = cash ⊕ report.quantity ⊗ price ⊖ report.fee

    module _ (before after : PortfolioState F) where
      abbrev before_quantity : F
      before_quantity = held_quantity (find_position order.symbol before.positions)

      abbrev after_quantity : F
      after_quantity = held_quantity (find_position order.symbol after.positions)

      abbrev pub balance_tests : Option F → List Reason
      balance_tests none = []
      balance_tests (some price) =
          note
            (not (
              isclose after_quantity
                (before_quantity ⊕ signed_quantity report.side report.quantity)))
            quantity_unreconciled
          ++ note (not (isclose after.cash (expected_cash before.cash price report.side)))
              cash_unreconciled

      unfoldable pub balance_reasons : List Reason
      balance_reasons =
          valuation_tests after.valued_at report.filled_at
          ++ (balance_tests report.fill_price
              ++ note (order.reduce_only && not (strictly_reduces before_quantity after_quantity))
                  reduce_only_violated)

  module _ (policy : RiskPolicy F) (order : ApprovedOrder F) (after : PortfolioState F) where
    abbrev position_tests : Position F → List Reason
    position_tests p =
        note
          (nought <? after.equity
            && after.equity ⊗ policy.max_position_fraction ⊕ notional_abs_tolerance
              <? f.abs (notional p))
          (post_position p.symbol)
        ++ note (p.quantity <? f.neg quantity_abs_tolerance && not policy.allow_shorting)
            (post_short p.symbol)

    -- The limits that an order which does not only reduce has to keep.
    unfoldable pub exposure_reasons : List Reason
    exposure_reasons =
        (if after.equity ≤? nought
          then post_equity ∷ []
          else note (after.equity ⊗ policy.max_gross_exposure_fraction <? gross_exposure after)
              post_gross)
        ++ (note (after.cash <? after.equity ⊗ policy.minimum_cash_reserve_fraction) post_reserve
            ++ (note
                  (policy.max_order_notional ⊕ notional_abs_tolerance
                    <? order.quantity ⊗ order.reference_price)
                  post_notional
                ++ (gather position_tests after.positions
                    ++ note
                        (not (is_empty policy.allowed_symbols)
                          && not (mem_text order.symbol policy.allowed_symbols))
                        post_symbol)))

  module _ (policy : RiskPolicy F) (order : ApprovedOrder F) (report : ExecutionReport F)
      (before after : PortfolioState F) where
    unfoldable pub reconcile_reasons : List Reason
    reconcile_reasons =
        terms_reasons order report
        ++ (price_reasons order report
            ++ (timing_reasons order report
                ++ (balance_reasons order report before after
                    ++ (if order.reduce_only then [] else exposure_reasons policy order after))))

    unfoldable pub reconcile : RiskReconciliation
    reconcile = record {
      compliant = is_empty reconcile_reasons;
      reconciled_at = or_else report.filled_at report.submitted_at;
      reasons = if is_empty reconcile_reasons then reconciled ∷ [] else reconcile_reasons;
    }
