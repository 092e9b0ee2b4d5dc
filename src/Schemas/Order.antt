-- ===== src/Schemas/Order.antt =====
-- Positions, portfolios, orders, risk decisions and execution reports of schemas.py.
use the_council.Prelude.{has_unique_texts, ℕ, Bool, ◌&&◌, ◌||◌, Option, List, String, ltb, map}
use the_council.Floats.{
  Float, nought, of_nat, sum, isclose, ◌⊕◌, ◌⊗◌, ◌<?◌, ◌=?◌, positive_finite, nonneg_finite,
  opt_all,
}
use the_council.Result.{
  Result, ok, ◌>>◌, guard, refuse, invalid_field, zero_quantity, duplicate_positions,
  equity_mismatch, cost_bound, live_order, fill_before_authorization, order_expires_before_fill,
  filled_without_details, rejected_with_details,
}
use the_council.Schemas.Enums.{OrderSide, FillPolicy, ExecutionStatus, filled, rejected}
use the_council.Schemas.Market.{is_some}

pub record Position (F : Type 0) : Type 0 where
  pub symbol : String
  pub quantity : F
  pub average_entry_price : F
  pub mark_price : F
  pub mark_observed_at : ℕ

pub record PortfolioState (F : Type 0) : Type 0 where
  pub cash : F
  pub equity : F
  pub valued_at : ℕ
  pub positions : List (Position F)

pub record ExecutionCostBounds (F : Type 0) : Type 0 where
  pub fee_bps : F
  pub slippage_bps : F

pub record ApprovedOrder (F : Type 0) : Type 0 where
  pub authorization_id : String
  pub decision_id : String
  pub source_snapshot_id : String
  pub symbol : String
  pub timeframe : String
  pub side : OrderSide
  pub quantity : F
  pub reference_price : F
  pub authorized_at : ℕ
  pub earliest_fill_at : ℕ
  pub expires_at : ℕ
  pub fill_policy : FillPolicy
  pub max_fee_bps : F
  pub max_slippage_bps : F
  pub reduce_only : Bool
  pub paper_only : Bool

pub record ExecutionReport (F : Type 0) : Type 0 where
  pub authorization_id : String
  pub status : ExecutionStatus
  pub symbol : String
  pub side : OrderSide
  pub quantity : F
  pub submitted_at : ℕ
  pub filled_at : Option ℕ
  pub fill_price : Option F
  pub fee : F
  pub slippage_bps : F
  pub message : String

module _ {F : Type 0} ⦃f : Float F⦄ where
  abbrev pub notional : Position F → F
  notional p = p.quantity ⊗ p.mark_price

  unfoldable pub validate_position : Position F → Result (Position F)
  validate_position p = do
    guard
        (f.is_finite p.quantity
          && positive_finite p.average_entry_price
          && positive_finite p.mark_price)
        invalid_field
    refuse (p.quantity =? nought) zero_quantity
    ok p

  abbrev pub marked_value : PortfolioState F → F
  marked_value s = s.cash ⊕ sum (map notional s.positions)

  unfoldable pub validate_equity : PortfolioState F → Result (PortfolioState F)
  validate_equity s = do
    guard (f.is_finite s.cash && f.is_finite s.equity) invalid_field
    guard (has_unique_texts (map (λ p. p.symbol) s.positions)) duplicate_positions
    guard (isclose s.equity (marked_value s)) equity_mismatch
    ok s

  abbrev pub gross_exposure : PortfolioState F → F
  gross_exposure s = sum (map (λ p. f.abs (notional p)) s.positions)

  unfoldable pub validate_bounds : ExecutionCostBounds F → Result (ExecutionCostBounds F)
  validate_bounds c = do
    guard (nonneg_finite c.fee_bps && nonneg_finite c.slippage_bps) invalid_field
    refuse (of_nat 10_000 <? c.fee_bps || of_nat 10_000 <? c.slippage_bps) cost_bound
    ok c

  unfoldable pub validate_order : ApprovedOrder F → Result (ApprovedOrder F)
  validate_order o = do
    guard
        (positive_finite o.quantity
          && positive_finite o.reference_price
          && nonneg_finite o.max_fee_bps
          && nonneg_finite o.max_slippage_bps)
        invalid_field
    guard o.paper_only live_order
    refuse (ltb o.earliest_fill_at o.authorized_at) fill_before_authorization
    refuse (ltb o.expires_at o.earliest_fill_at) order_expires_before_fill
    refuse (of_nat 10_000 <? o.max_fee_bps || of_nat 10_000 <? o.max_slippage_bps) cost_bound
    ok o

  abbrev pub check_fill : ExecutionStatus → Option ℕ → Option F → Result (Unit {0})
  check_fill filled time price = guard (is_some time && is_some price) filled_without_details
  check_fill rejected time price = refuse (is_some time || is_some price) rejected_with_details

  unfoldable pub validate_execution : ExecutionReport F → Result (ExecutionReport F)
  validate_execution r = do
    guard
        (positive_finite r.quantity
          && opt_all positive_finite r.fill_price
          && nonneg_finite r.fee
          && nonneg_finite r.slippage_bps)
        invalid_field
    check_fill r.status r.filled_at r.fill_price
    ok r
