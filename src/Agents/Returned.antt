-- ===== src/Agents/Returned.antt =====
-- The trend agent always answers.
use the_council.Datetime.{last_time, add_time-Fits}
use the_council.Prelude.{
  ◌≡◌, refl, sym, ap, ◌∙◌, ℕ, true, not, ◌||◌, ◌==◌, ltb, length, inl, inr, Bool-cases, arith,
  if◌then◌else◌, ◌+◌, ◌≤◌,
}
use the_council.Floats.{Float, nought, of_nat, ◌⊗◌}
use the_council.Floats.Laws.{IsIeee}
use the_council.Result.{ok}
use the_council.Schemas.Enums.{Direction, short, flat, long, is_abstain, is_alpha}
use the_council.Schemas.Market.{MarketSnapshot}
use the_council.Schemas.Signal.{AgentSignal, check_signal, validate_signal}
use the_council.Agents.{timeframe_delta}
use the_council.Agents.Signals.{
  View, direction_for, closes_of, is_flat, insufficient, signal_with, signal_from,
}
use the_council.Agents.Trend.{
  TrendAgent, new_trend, spread_of, trend_forecast, trend_view, analyze_trend,
}
use the_council.Agents.Accepted.{length-closes_of}
use the_council.Agents.Forecasts.{Forecasts, direction_for-Forecasts, clamp_unit, irreflexive}

module _ {F : Type 0} ⦃f : Float F⦄ (a : TrendAgent) (snapshot : MarketSnapshot F) where
  -- An alpha agent whose settings have passed `__post_init__`, on a snapshot, both with the texts that a
  -- signal must have.
  pub record IsReady : Type 0 where
    pub settings : new_trend a ≡ ok a
    pub alpha_type : is_alpha a.identity.signal_type ≡ true
    pub agent : not (a.identity.agent_id == "" || a.identity.agent_version == "") ≡ true
    pub market :
        not (snapshot.symbol == "" || snapshot.timeframe == "" || snapshot.snapshot_id == "") ≡ true

  has_horizon : IsReady → ltb 0 a.slow_window ≡ true
  unfolding new_trend
  has_horizon ready = let h = ready.settings in ground arith

  -- What the agent answers with: a valid signal, which abstains exactly if there are too few bars.
  abbrev pub IsAnswer : AgentSignal F → Type 0
  IsAnswer s =
      (check_signal s ≡ ok tt) × (is_abstain s.action ≡ ltb (length snapshot.bars) a.slow_window)

module _ {F : Type 0} ⦃f : Float F⦄ (laws : IsIeee F) where
  module _ (a : TrendAgent) (snapshot : MarketSnapshot F) where
    forecast_checked :
        (delta : ℕ) (x : F) (forecast : Direction × F)
        → IsReady a snapshot
        → Forecasts laws x forecast
        → check_signal (
            signal_with a.identity a.slow_window snapshot
              (trend_forecast x forecast)
              (snapshot.observed_at + delta))
          ≡ ok tt
    unfolding check_signal
    forecast_checked delta x (direction, exposure) ready forecasts = ground (
      arith,
      has_horizon a snapshot ready,
      ready.alpha_type,
      ready.agent,
      ready.market,
      forecasts.finite,
      forecasts.bounded,
      forecasts.sided,
      clamp_unit laws (f.abs (if is_flat direction then nought else x) ⊗ of_nat 50),
    )

    insufficient_checked :
        (delta needed received : ℕ) (direction : Direction)
        → IsReady a snapshot
        → check_signal (
            signal_with a.identity a.slow_window snapshot
              (insufficient direction needed received)
              (snapshot.observed_at + delta))
          ≡ ok tt
    unfolding check_signal
    insufficient_checked delta needed received short ready = ground (
      arith,
      has_horizon a snapshot ready,
      ready.agent,
      ready.market,
      laws.unit_zero,
      irreflexive laws,
    )
    insufficient_checked delta needed received flat ready =
        ground (arith, has_horizon a snapshot ready, ready.agent, ready.market, laws.unit_zero)
    insufficient_checked delta needed received long ready = ground (
      arith,
      has_horizon a snapshot ready,
      ready.agent,
      ready.market,
      laws.unit_zero,
      irreflexive laws,
    )

    answered :
        (delta : ℕ) (view : View F)
        → timeframe_delta snapshot.timeframe ≡ ok delta
        → snapshot.observed_at + delta ≤ last_time
        → check_signal
            (signal_with a.identity a.slow_window snapshot view (snapshot.observed_at + delta))
          ≡ ok tt
        → signal_from a.identity a.slow_window snapshot view
          ≡ ok (signal_with a.identity a.slow_window snapshot view (snapshot.observed_at + delta))
    unfolding signal_from validate_signal
    answered delta view long_ fits checked =
        rw (long_, add_time-Fits snapshot.observed_at delta fits, checked) refl

    -- A trend agent of alpha type whose settings have passed `__post_init__` answers on every snapshot
    -- with a duration for its timeframe that ends before the year 10000 if it begins at the observation,
    -- and with a finite spread, if both have the texts that a signal must have: with a valid signal, which
    -- abstains exactly if there are too few bars.
    pub analyze_trend-Returns :
        (delta : ℕ)
        → IsReady a snapshot
        → timeframe_delta snapshot.timeframe ≡ ok delta
        → snapshot.observed_at + delta ≤ last_time
        → f.is_finite (spread_of a (closes_of snapshot.bars)) ≡ true
        → (s : AgentSignal F) × (analyze_trend a snapshot ≡ ok s) × IsAnswer a snapshot s
    unfolding analyze_trend trend_view
    analyze_trend-Returns delta ready duration fits finite =
        let closes = closes_of snapshot.bars in
        elim (Bool-cases (ltb (length closes) a.slow_window)) [
          | inl few ↦
              let direction = (direction_for {F = F} nought).0 in
              let view = insufficient {F = F} direction a.slow_window (length closes) in
              let checked =
                insufficient_checked delta a.slow_window (length closes) direction ready in
              (
                signal_with a.identity a.slow_window snapshot view (snapshot.observed_at + delta),
                rw few (answered delta view duration fits checked),
                (
                  checked,
                  sym (ap (λ n. ltb n a.slow_window) (sym (length-closes_of snapshot.bars)) ∙ few),
                ),
              )
          | inr many ↦
              let x = spread_of a closes in
              let view = trend_forecast x (direction_for (x ⊗ of_nat 20)) in
              let checked =
                forecast_checked delta x (direction_for (x ⊗ of_nat 20)) ready
                  (direction_for-Forecasts laws x finite) in
              (
                signal_with a.identity a.slow_window snapshot view (snapshot.observed_at + delta),
                rw many (answered delta view duration fits checked),
                (
                  checked,
                  sym (ap (λ n. ltb n a.slow_window) (sym (length-closes_of snapshot.bars)) ∙ many),
                ),
              )
        ]
