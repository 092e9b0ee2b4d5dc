-- ===== src/Execution/Filling.antt =====
-- `PaperExecutionAdapter.execute` and its helpers.
use the_council.Prelude.{
  mem_text, ℕ, not, ◌&&◌, if◌then◌else◌, Option, none, some, ◌∷◌, String, ◌==◌, ltb, eqb,
}
use the_council.Floats.{Float, nought, of_nat, ◌⊕◌, ◌⊖◌, ◌⊗◌, ◌⊘◌, ◌<?◌}
use the_council.Result.{Result, ok}
use the_council.Datetime.{Datetime, utc}
use the_council.Dict.{Dict, get, put, pop}
use the_council.Trading.{direction, settle, adverse_slippage, strictly_reduces}
use the_council.Schemas.Enums.{OrderSide, buy, sell, filled, rejected}
use the_council.Schemas.Market.{OpeningPriceObservation}
use the_council.Schemas.Order.{ApprovedOrder, ExecutionReport, validate_execution}
use the_council.Execution.Paper.{PaperPosition, Account, Method, attempt, build_state}

module _ {F : Type 0} ⦃f : Float F⦄ where
  -- The first reason that applies. `fill_policy` has one value, so its test never fails.
  unfoldable pub rejection_reason :
      Account F → ApprovedOrder F → OpeningPriceObservation F → ℕ → Option String
  rejection_reason account order opening submitted_at =
      if not order.paper_only
      then some "live orders are forbidden"
      else if mem_text order.authorization_id account.processed
      then some "duplicate authorization"
      else if not (order.symbol == opening.symbol && order.timeframe == opening.timeframe)
      then some "opening price does not match the order"
      else if ltb submitted_at order.authorized_at
      then some "order was submitted before authorization"
      else if ltb opening.bar_opened_at submitted_at
      then some "order cannot fill retroactively at an earlier bar open"
      else if not (eqb opening.observed_at opening.bar_opened_at)
      then some "next-bar opening price must be observed at the bar open"
      else if ltb opening.bar_opened_at order.earliest_fill_at
      then some "opening price precedes the causal fill window"
      else if ltb order.expires_at opening.bar_opened_at
      then some "authorization expired before the opening price"
      else if ltb opening.bar_opened_at account.valued_at
      then some "fill time cannot precede account state time"
      else none

  unfoldable pub reject : ApprovedOrder F → ℕ → String → Result (ExecutionReport F)
  reject order submitted_at message = validate_execution (record {
    authorization_id = order.authorization_id;
    status = rejected;
    symbol = order.symbol;
    side = order.side;
    quantity = order.quantity;
    submitted_at = submitted_at;
    filled_at = none;
    fill_price = none;
    fee = nought;
    slippage_bps = nought;
    message = message;
  })

  unfoldable pub average_entry : Option (PaperPosition F) → F → F → F → F
  average_entry none signed fill_price new_quantity =
      (nought ⊕ f.abs signed ⊗ fill_price) ⊘ f.abs new_quantity
  average_entry (some p) signed fill_price new_quantity =
      if nought <? p.quantity ⊗ signed
      then (f.abs p.quantity ⊗ p.average_entry_price ⊕ f.abs signed ⊗ fill_price)
        ⊘ f.abs new_quantity
      else if nought <? p.quantity ⊗ new_quantity
      then p.average_entry_price
      else fill_price

  abbrev pub position_quantity : Option (PaperPosition F) → F
  position_quantity none = nought
  position_quantity (some p) = p.quantity

  module _ (account : Account F) (order : ApprovedOrder F)
      (opening : OpeningPriceObservation F) where
    unfoldable pub fill_price : F
    fill_price =
        opening.price ⊗ (of_nat 1 ⊕ direction order.side ⊗ account.slippage_bps ⊘ of_nat 10_000)

    unfoldable pub fill_fee : F
    fill_fee = order.quantity ⊗ fill_price ⊗ account.fee_bps ⊘ of_nat 10_000

    abbrev cash_change : OrderSide → F
    cash_change buy = f.neg (order.quantity ⊗ fill_price) ⊖ fill_fee
    cash_change sell = order.quantity ⊗ fill_price ⊖ fill_fee

    unfoldable pub candidate_cash : F
    candidate_cash = account.cash ⊕ cash_change order.side

    abbrev held : Option (PaperPosition F)
    held = get order.symbol account.positions

    unfoldable pub new_quantity : F
    new_quantity = settle (position_quantity held ⊕ direction order.side ⊗ order.quantity)

    unfoldable pub candidate_positions : Dict (PaperPosition F)
    candidate_positions =
        if f.eq new_quantity nought
        then pop order.symbol account.positions
        else put order.symbol
            (record {
              quantity = new_quantity;
              average_entry_price =
                  average_entry held (direction order.side ⊗ order.quantity) fill_price
                    new_quantity;
              mark_price = opening.price;
              mark_observed_at = opening.observed_at;
            })
            account.positions

    -- The early returns after the fill has been priced, in their order.
    unfoldable pub pricing_rejection : Option String
    pricing_rejection =
        if order.max_slippage_bps ⊕ f.scientific 1 9
          <? adverse_slippage order.side fill_price order.reference_price
        then some "opening gap exceeds slippage authorization"
        else if order.max_fee_bps ⊕ f.scientific 1 9 <? account.fee_bps
        then some "fee exceeds authorization"
        else if candidate_cash <? nought && not order.reduce_only
        then some "insufficient paper cash"
        else if order.reduce_only && not (strictly_reduces (position_quantity held) new_quantity)
        then some "order violates reduce-only authorization"
        else none

    unfoldable pub fill_report : ℕ → Result (ExecutionReport F)
    fill_report submitted_at = validate_execution (record {
      authorization_id = order.authorization_id;
      status = filled;
      symbol = order.symbol;
      side = order.side;
      quantity = order.quantity;
      submitted_at = submitted_at;
      filled_at = some opening.bar_opened_at;
      fill_price = some fill_price;
      fee = fill_fee;
      slippage_bps = adverse_slippage order.side fill_price order.reference_price;
      message = "paper fill at causally valid next-bar open";
    })

    -- The commit gate: the state and the report are built before any field is written.
    unfoldable pub commit_fill : ℕ → Method F (ExecutionReport F)
    commit_fill submitted_at =
        attempt account (build_state candidate_cash candidate_positions opening.bar_opened_at)
          λ state. attempt account (fill_report submitted_at) λ report. (
            ok report,
            record account {
              cash = candidate_cash;
              positions = candidate_positions;
              valued_at = state.valued_at;
              processed = order.authorization_id ∷ account.processed;
            },
          )

    abbrev pub reject_or :
        ℕ → Option String → Method F (ExecutionReport F) → Method F (ExecutionReport F)
    reject_or submitted_at (some message) rest = (reject order submitted_at message, account)
    reject_or submitted_at none rest = rest

    unfoldable pub execute : Datetime → Method F (ExecutionReport F)
    execute submitted_at = attempt account (utc submitted_at) λ submitted.
        reject_or submitted (rejection_reason account order opening submitted)
          (reject_or submitted pricing_rejection (commit_fill submitted))
