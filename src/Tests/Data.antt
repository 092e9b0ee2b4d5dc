-- ===== src/Tests/Data.antt =====
-- A small market: three bars, one agent, one account.
use the_council.Prelude.{ℕ, true, false, Option, none, some, List, [], ◌∷◌, String}
use the_council.Prelude.Int.{ℤ}
use the_council.Floats.Fixed.{fixed_float}
use the_council.Schemas.Enums.{
  alpha, long, target_exposure, SignalValidity, ActionIntent, OrderSide, buy, next_bar_open,
}
use the_council.Schemas.Market.{
  MarketBar, MarketSnapshot, OpeningPriceObservation, PriceObservation,
}
use the_council.Schemas.Signal.{AgentSignal, CouncilDecision}
use the_council.Schemas.Order.{PortfolioState, ExecutionCostBounds, ApprovedOrder}
use the_council.Execution.Paper.{Account}
use the_council.Council.Aggregator.{CouncilConfig}
use the_council.Risk.Policy.{RiskPolicy}

abbrev pub num : ℕ → ℕ → ℤ
num = fixed_float.scientific

abbrev pub bar : ℕ → ℕ → MarketBar ℤ
bar t price = record {
  opened_at = t;
  closed_at = t;
  available_at = t;
  open_price = num price 0;
  high = num price 0;
  low = num price 0;
  close = num price 0;
  volume = num 1 0;
}

abbrev pub snapshot : MarketSnapshot ℤ
snapshot = record {
  symbol = "BTC/USD";
  timeframe = "1h";
  as_of = 3000;
  observed_at = 3000;
  bars = bar 1000 100 ∷ bar 2000 101 ∷ bar 3000 100 ∷ [];
  provenance = none;
  snapshot_id = "snap";
}

abbrev pub signal_of : String → AgentSignal ℤ
signal_of agent = record {
  version = "1.1";
  agent_id = agent;
  agent_version = "1";
  signal_type = alpha;
  symbol = "BTC/USD";
  timeframe = "1h";
  source_snapshot_id = "snap";
  source_as_of = 3000;
  forecast_direction = long;
  expected_return = some (num 5 2);
  target_exposure = some (num 5 1);
  action = target_exposure;
  validity = SignalValidity.valid;
  confidence = num 8 1;
  horizon_bars = 1;
  generated_at = 3000;
  expires_at = 90_000_000;
  rationale = "up";
  volatility = none;
}

abbrev pub config : CouncilConfig ℤ
config = record {
  agent_weights = ("trend", num 2 0) ∷ [];
  minimum_confidence = num 2 1;
  minimum_conviction = num 1 1;
}

abbrev pub decision_id : MarketSnapshot ℤ → List (AgentSignal ℤ) → ActionIntent → Option ℤ → String
decision_id _ _ _ _ = "decision"

abbrev pub authorization_id : CouncilDecision ℤ → OrderSide → ℤ → ℤ → ℕ → String
authorization_id _ _ _ _ _ = "auth"

abbrev pub decision : CouncilDecision ℤ
decision = record {
  decision_id = "decision";
  symbol = "BTC/USD";
  timeframe = "1h";
  source_snapshot_id = "snap";
  source_as_of = 3000;
  forecast_direction = long;
  expected_return = some (num 5 2);
  target_exposure = some (num 5 1);
  action = target_exposure;
  conviction = num 5 1;
  confidence = num 8 1;
  decided_at = 3000;
  expires_at = 90_000_000;
  signals = signal_of "trend" ∷ [];
}

abbrev pub policy : RiskPolicy ℤ
policy = record {
  minimum_confidence = num 3 1;
  max_position_fraction = num 1 1;
  max_gross_exposure_fraction = num 5 1;
  max_order_notional = num 10_000 0;
  minimum_cash_reserve_fraction = num 1 1;
  max_realized_volatility = num 8 2;
  max_signal_age_seconds = 900;
  max_observation_age_seconds = 900;
  order_validity_seconds = 300;
  max_fee_bps = num 100 0;
  max_slippage_bps = num 100 0;
  allow_shorting = false;
  allowed_symbols = [];
}

abbrev pub costs : ExecutionCostBounds ℤ
costs = record { fee_bps = num 10 0; slippage_bps = num 5 0 }

abbrev pub account : Account ℤ
account = record {
  cash = num 1000 0;
  slippage_bps = num 5 0;
  fee_bps = num 10 0;
  valued_at = 3000;
  positions = [];
  processed = [];
}

abbrev pub portfolio : PortfolioState ℤ
portfolio = record { cash = num 1000 0; equity = num 1000 0; valued_at = 3000; positions = [] }

abbrev pub order : ApprovedOrder ℤ
order = record {
  authorization_id = "auth";
  decision_id = "decision";
  source_snapshot_id = "snap";
  symbol = "BTC/USD";
  timeframe = "1h";
  side = buy;
  quantity = num 5 1;
  reference_price = num 100 0;
  authorized_at = 3000;
  earliest_fill_at = 3000;
  expires_at = 90_000_000;
  fill_policy = next_bar_open;
  max_fee_bps = num 10 0;
  max_slippage_bps = num 5 0;
  reduce_only = false;
  paper_only = true;
}

abbrev pub opening : OpeningPriceObservation ℤ
opening = record {
  symbol = "BTC/USD";
  timeframe = "1h";
  price = num 100 0;
  bar_opened_at = 4000;
  observed_at = 4000;
}

abbrev pub mark_of : ℕ → PriceObservation ℤ
mark_of t = record {
  symbol = "BTC/USD";
  price = num 102 0;
  observed_at = t;
  source_snapshot_id = "snap";
}
