-- ===== src/Agents/Prices.antt =====
-- The agents of the registry of agents/factory.py that read prices only: four of its six kinds, without the
-- seasonality and the historical recurrence agent.
use the_council.Prelude.{ℕ}
use the_council.Floats.{Float}
use the_council.Result.{Result}
use the_council.Schemas.Market.{MarketSnapshot}
use the_council.Schemas.Signal.{AgentSignal}
use the_council.Agents.Signals.{Identity}
use the_council.Agents.Trend.{TrendAgent, analyze_trend}
use the_council.Agents.Reversion.{MeanReversionAgent, analyze_reversion}
use the_council.Agents.Regime.{RegimeAgent, analyze_regime}
use the_council.Agents.Volatility.{VolatilityAgent, analyze_volatility}

pub data PriceAgent (F : Type 0) : Type 0 where
  trend_agent : TrendAgent → PriceAgent F
  reversion_agent : MeanReversionAgent F → PriceAgent F
  regime_agent : RegimeAgent F → PriceAgent F
  volatility_agent : VolatilityAgent F → PriceAgent F

module _ {F : Type 0} where
  abbrev pub identity_of : PriceAgent F → Identity
  identity_of (trend_agent a) = a.identity
  identity_of (reversion_agent a) = a.identity
  identity_of (regime_agent a) = a.identity
  identity_of (volatility_agent a) = a.identity

  -- `warmup_bars`.
  abbrev pub warmup_of : PriceAgent F → ℕ
  warmup_of (trend_agent a) = a.slow_window
  warmup_of (reversion_agent a) = a.window
  warmup_of (regime_agent a) = a.window
  warmup_of (volatility_agent a) = a.window

module _ {F : Type 0} ⦃f : Float F⦄ where
  abbrev pub analyze : PriceAgent F → MarketSnapshot F → Result (AgentSignal F)
  analyze (trend_agent a) snapshot = analyze_trend a snapshot
  analyze (reversion_agent a) snapshot = analyze_reversion a snapshot
  analyze (regime_agent a) snapshot = analyze_regime a snapshot
  analyze (volatility_agent a) snapshot = analyze_volatility a snapshot
