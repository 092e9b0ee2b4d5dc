-- ===== src/Agents/Accepted.antt =====
-- The council accepts whatever signal a trend, mean reversion, regime or volatility agent returns.
use the_council.Datetime.{add_time, add_time-eq-ok}
use mathlib.Core.Path.{subst}
use the_council.Prelude.{
  ◌≡◌, refl, ℕ, ◌≤◌, Bool, true, ◌&&◌, some, List, [], ◌∷◌, String, ltb, leb, all, length, not, ◌-◌,
  get_last?, inl, inr, Bool-cases, eq_iff, arith,
}
use the_council.Floats.{Float}
use the_council.Result.{ok, of_option, >>=-eq-ok, of_option-eq-ok, ok-injective, index_error}
use the_council.Schemas.Enums.{is_valid, is_actionable, was_observed}
use the_council.Schemas.Market.{
  MarketBar, MarketSnapshot, VolatilityObservation, newest_bar, validate_snapshot,
  validate_volatility,
}
use the_council.Schemas.Signal.{AgentSignal, validate_signal, check_signal}
use the_council.Council.Aggregator.{validate_signal_source, check_volatility, is_vote}
use the_council.Risk.Restrictions.{realized_volatility, volatility_value, log_returns, drop}
use the_council.Agents.{timeframe_delta}
use the_council.Agents.Signals.{Identity, View, closes_of, signal_with, signal_from}
use the_council.Agents.Trend.{trend_view, analyze_trend, TrendAgent}
use the_council.Agents.Reversion.{MeanReversionAgent, reversion_view, analyze_reversion}
use the_council.Agents.Regime.{RegimeAgent, read_regime, regime_view, analyze_regime}
use the_council.Agents.Volatility.{VolatilityAgent, volatility_view, analyze_volatility}
use the_council.Agents.Prices.{
  PriceAgent, trend_agent, reversion_agent, regime_agent, volatility_agent, identity_of, warmup_of,
  analyze,
}

pub length-closes_of :
    {F : Type 0} (bars : List (MarketBar F)) → length (closes_of bars) ≡ length bars
length-closes_of [] = refl
length-closes_of (b ∷ bars) = rw (length-closes_of bars) refl

last_of_all :
    {A : Type 0} (p : A → Bool) (xs : List A) (x : A)
    → all p xs ≡ true
    → get_last? xs ≡ some x
    → p x ≡ true
last_of_all p [] x h k = cc k
last_of_all p (y ∷ []) x h k = ground arith
last_of_all p (y ∷ z ∷ xs) x h k = last_of_all p (z ∷ xs) x (ground arith) k

module _ {F : Type 0} where
  snapshot_available :
      (matches : String → Bool) (digest : String → String → ℕ → List (MarketBar F) → String)
      (raw s : MarketSnapshot F)
      → validate_snapshot matches digest raw ≡ ok s
      → all (λ (b : MarketBar F). leb b.available_at s.as_of) s.bars ≡ true
  unfolding validate_snapshot
  snapshot_available matches digest raw s h = ground arith

module _ {F : Type 0} ⦃f : Float F⦄ (snapshot : MarketSnapshot F) where
  validated_signal :
      (s t : AgentSignal F) → validate_signal s ≡ ok t → (s ≡ t) × (check_signal s ≡ ok tt)
  unfolding validate_signal
  validated_signal s t h =
      let (u, checked, gives) = >>=-eq-ok (check_signal s) _ h in (ok-injective gives, checked)

  -- A valid signal of an agent that the council takes for one on the snapshot, and no vote on too few bars.
  pub record IsAccepted (identity : Identity) (warmup : ℕ) (s : AgentSignal F) : Type 0 where
    pub valid : check_signal s ≡ ok tt
    pub sourced : validate_signal_source snapshot s ≡ ok tt
    pub own : s.agent_id ≡ identity.agent_id
    pub warm : is_vote s ≡ true → warmup ≤ length snapshot.bars

  -- A view that has a say only with enough bars, and whose volatility is of the snapshot.
  record IsBacked (warmup : ℕ) (view : View F) : Type 0 where
    enough :
        (is_valid view.validity && is_actionable view.action) ≡ true → warmup ≤ length snapshot.bars
    observed : check_volatility snapshot view.volatility ≡ ok tt

  signal_from-IsAccepted :
      (identity : Identity) (bars warmup : ℕ) (view : View F) (s : AgentSignal F)
      → IsBacked warmup view
      → signal_from identity bars snapshot view ≡ ok s
      → IsAccepted identity warmup s
  unfolding signal_from validate_signal_source
  signal_from-IsAccepted identity bars warmup view s backed h =
      let (delta, long, timed) = >>=-eq-ok (timeframe_delta snapshot.timeframe) _ h in
      let (expires, until, validated) = >>=-eq-ok (add_time snapshot.observed_at delta) _ timed in
      let (same, checked) =
        validated_signal (signal_with identity bars snapshot view expires) s validated in
      subst (IsAccepted identity warmup) same (record {
        valid = checked;
        sourced = ground (
          arith,
          eq_iff snapshot.symbol snapshot.symbol,
          eq_iff snapshot.timeframe snapshot.timeframe,
          eq_iff snapshot.snapshot_id snapshot.snapshot_id,
          backed.observed,
          add_time-eq-ok snapshot.observed_at delta expires until,
        );
        own = refl;
        warm = λ vote. backed.enough (ground arith);
      })

  validated_volatility : (v w : VolatilityObservation F) → validate_volatility v ≡ ok w → v ≡ w
  unfolding validate_volatility
  validated_volatility v w h = ground arith

  IsOwn : MarketBar F → VolatilityObservation F → Type 0
  IsOwn newest v =
      (v.source_snapshot_id ≡ snapshot.snapshot_id) × (v.observed_at ≡ newest.available_at)

  realized_volatility-IsOwn :
      (newest : MarketBar F) (window : ℕ) (v : VolatilityObservation F)
      → realized_volatility snapshot newest window ≡ ok v
      → IsOwn newest v
  unfolding realized_volatility IsOwn
  realized_volatility-IsOwn newest window v h =
      let closes = closes_of (drop (length snapshot.bars - window) snapshot.bars) in
      let (value, found, valid) =
        >>=-eq-ok (volatility_value (not (ltb (length closes) 3)) (log_returns closes)) _ h in
      subst (IsOwn newest) (validated_volatility _ v valid) (refl, refl)

  module _
      (available : all (λ (b : MarketBar F). leb b.available_at snapshot.as_of) snapshot.bars
        ≡ true) where
    own_observed :
        (newest : MarketBar F) (window : ℕ) (v : VolatilityObservation F)
        → newest_bar snapshot ≡ ok newest
        → realized_volatility snapshot newest window ≡ ok v
        → check_volatility snapshot (some v) ≡ ok tt
    unfolding check_volatility newest_bar IsOwn
    own_observed newest window v last h =
        let (source, time) = realized_volatility-IsOwn newest window v h in
        let known =
          last_of_all (λ (b : MarketBar F). leb b.available_at snapshot.as_of) snapshot.bars newest
            available (of_option-eq-ok index_error (get_last? snapshot.bars) newest last) in
        ground (arith, source, time, known, eq_iff v.source_snapshot_id snapshot.snapshot_id)

    trend-IsBacked :
        (a : TrendAgent) → IsBacked a.slow_window (trend_view a (closes_of snapshot.bars))
    unfolding trend_view check_volatility
    trend-IsBacked a = elim (Bool-cases (ltb (length (closes_of snapshot.bars)) a.slow_window)) [
      | inl few ↦ rw few (record { enough = λ h. cc h; observed = refl })
      | inr many ↦ rw many (record {
        enough = λ h. ground (arith, many, length-closes_of snapshot.bars);
        observed = refl;
      })
    ]

    reversion-IsBacked :
        (a : MeanReversionAgent F) (view : View F)
        → reversion_view a (closes_of snapshot.bars) ≡ ok view
        → IsBacked a.window view
    unfolding reversion_view check_volatility
    reversion-IsBacked a view h =
        elim (Bool-cases (ltb (length (closes_of snapshot.bars)) a.window)) [
          | inl few ↦
              subst (IsBacked a.window) (ok-injective (rw few at h))
                (record { enough = λ k. cc k; observed = refl })
          | inr many ↦
              let (last, found, gives) =
                >>=-eq-ok (of_option index_error (get_last? (closes_of snapshot.bars))) _
                  (rw many at h) in
              subst (IsBacked a.window) (ok-injective gives) (record {
                enough = λ k. ground (arith, many, length-closes_of snapshot.bars);
                observed = refl;
              })
        ]

    regime-IsBacked :
        (a : RegimeAgent F) (v : VolatilityObservation F) (closes : List F)
        → check_volatility snapshot (some v) ≡ ok tt
        → IsBacked a.window (regime_view (read_regime a v closes) v)
    unfolding read_regime
    regime-IsBacked a v closes observed = elim (Bool-cases (was_observed v.status)) [
      | inl seen ↦ rw seen (record { enough = λ h. cc h; observed = observed })
      | inr unseen ↦ rw unseen (record { enough = λ h. cc h; observed = observed })
    ]

    volatility-IsBacked :
        (a : VolatilityAgent F) (v : VolatilityObservation F) (confidence : F)
        → check_volatility snapshot (some v) ≡ ok tt
        → IsBacked a.window (volatility_view confidence v)
    volatility-IsBacked a v confidence observed = elim (Bool-cases (was_observed v.status)) [
      | inl seen ↦ rw seen (record { enough = λ h. cc h; observed = observed })
      | inr unseen ↦ rw unseen (record { enough = λ h. cc h; observed = observed })
    ]

    accepted :
        (agent : PriceAgent F) (s : AgentSignal F)
        → analyze agent snapshot ≡ ok s
        → IsAccepted (identity_of agent) (warmup_of agent) s
    unfolding analyze_trend analyze_reversion analyze_regime analyze_volatility
    accepted (trend_agent a) s h =
        signal_from-IsAccepted a.identity a.slow_window a.slow_window _ s (trend-IsBacked a) h
    accepted (reversion_agent a) s h =
        let (view, seen, made) = >>=-eq-ok (reversion_view a (closes_of snapshot.bars)) _ h in
        signal_from-IsAccepted a.identity a.window a.window view s (reversion-IsBacked a view seen)
          made
    accepted (regime_agent a) s h =
        let (newest, last, rest) = >>=-eq-ok (newest_bar snapshot) _ h in
        let (v, measured, made) = >>=-eq-ok (realized_volatility snapshot newest a.window) _ rest in
        signal_from-IsAccepted a.identity a.window a.window _ s
          (regime-IsBacked a v _ (own_observed newest a.window v last measured)) made
    accepted (volatility_agent a) s h =
        let (newest, last, rest) = >>=-eq-ok (newest_bar snapshot) _ h in
        let (v, measured, made) = >>=-eq-ok (realized_volatility snapshot newest a.window) _ rest in
        signal_from-IsAccepted a.identity a.window a.window _ s
          (volatility-IsBacked a v _ (own_observed newest a.window v last measured)) made

-- On a snapshot that has passed its validator, whatever signal a trend, mean reversion, regime or
-- volatility agent returns is valid, is taken by the council for one on that snapshot, and is the agent's
-- own; and none has a vote on fewer bars than the agent's warmup.
pub analyze-IsAccepted :
    {F : Type 0} ⦃f : Float F⦄ (matches : String → Bool)
    (digest : String → String → ℕ → List (MarketBar F) → String) (raw snapshot : MarketSnapshot F)
    (agent : PriceAgent F) (s : AgentSignal F)
    → validate_snapshot matches digest raw ≡ ok snapshot
    → analyze agent snapshot ≡ ok s
    → IsAccepted snapshot (identity_of agent) (warmup_of agent) s
analyze-IsAccepted matches digest raw snapshot agent s validated h =
    accepted snapshot (snapshot_available matches digest raw snapshot validated) agent s h
