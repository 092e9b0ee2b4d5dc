-- ===== src/Execution/Paper.antt =====
-- The account of `PaperExecutionAdapter` and its public view.
use the_council.Prelude.{ℕ, ◌&&◌, not, List, [], String, map}
use the_council.Prelude.Sort.{sort_by}
use the_council.Floats.{Float, nought, of_nat, sum, ◌⊕◌, ◌≤?◌}
use the_council.Result.{Result, ok, err, ◌>>=◌, ◌>>◌, guard, traverse, invalid_settings}
use the_council.Datetime.{Datetime, utc}
use the_council.Dict.{Dict}
use the_council.Schemas.Order.{
  Position, PortfolioState, ExecutionCostBounds, notional, validate_position, validate_equity,
  validate_bounds,
}

pub record PaperPosition (F : Type 0) : Type 0 where
  pub quantity : F
  pub average_entry_price : F
  pub mark_price : F
  pub mark_observed_at : ℕ

pub record Account (F : Type 0) : Type 0 where
  pub cash : F
  pub slippage_bps : F
  pub fee_bps : F
  pub valued_at : ℕ
  pub positions : Dict (PaperPosition F)
  pub processed : List String

-- A method of the adapter: what it returns or raises, and the account that it leaves.
abbrev pub Method : Type 0 → Type 0 → Type 0
Method F A = Result A × Account F

-- A step that may raise; the account stays as it is then.
abbrev pub attempt {ℓ} :
    {F : Type 0} {A : Type ℓ} {B : Type 0} → Account F → Result A → (A → Method F B) → Method F B
attempt account (ok a) rest = rest a
attempt account (err e) rest = (err e, account)

module _ {F : Type 0} ⦃f : Float F⦄ where
  -- `__init__`.
  unfoldable pub open_account : F → Datetime → F → F → Result (Account F)
  open_account starting_cash opened_at slippage_bps fee_bps = do
    guard (f.is_finite starting_cash && f.is_finite slippage_bps && f.is_finite fee_bps)
        invalid_settings
    guard
        (not (starting_cash ≤? nought)
          && nought ≤? slippage_bps
          && slippage_bps ≤? of_nat 10_000
          && nought ≤? fee_bps
          && fee_bps ≤? of_nat 10_000)
        invalid_settings
    opened ← utc opened_at
    ok (record {
      cash = starting_cash;
      slippage_bps = slippage_bps;
      fee_bps = fee_bps;
      valued_at = opened;
      positions = [];
      processed = [];
    })

  unfoldable pub cost_bounds : Account F → Result (ExecutionCostBounds F)
  cost_bounds account =
      validate_bounds (record { fee_bps = account.fee_bps; slippage_bps = account.slippage_bps })

  abbrev pub public_position : String × PaperPosition F → Position F
  public_position (symbol, p) = record {
    symbol = symbol;
    quantity = p.quantity;
    average_entry_price = p.average_entry_price;
    mark_price = p.mark_price;
    mark_observed_at = p.mark_observed_at;
  }

  unfoldable pub build_state : F → Dict (PaperPosition F) → ℕ → Result (PortfolioState F)
  build_state cash positions valued_at = do
    public_positions ←
        traverse (λ e. validate_position (public_position e)) (sort_by (λ e. e.0) positions)
    validate_equity (record {
      cash = cash;
      equity = cash ⊕ sum (map notional public_positions);
      valued_at = valued_at;
      positions = public_positions;
    })

  unfoldable pub portfolio_state : Account F → Result (PortfolioState F)
  portfolio_state account = build_state account.cash account.positions account.valued_at
