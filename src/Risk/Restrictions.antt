-- ===== src/Risk/Restrictions.antt =====
-- `_restriction_reasons` and `realized_volatility` of agents/_math.py.
use the_council.Prelude.{
  mem_text, ℕ, suc, ◌-◌, not, ◌&&◌, ◌||◌, if◌then◌else◌, Option, none, some, List, [], ◌∷◌, ◌++◌,
  ltb, min, max, map, foldl, length, note, is_empty, zero, Bool, true, false,
}
use the_council.Floats.{Float, nought, fmax, ◌⊘◌, ◌<?◌, ◌≤?◌}
use the_council.Trading.{quantity_abs_tolerance}
use the_council.Schemas.Enums.{
  ObservationStatus, log_return_population_stddev, per_bar_decimal, was_observed,
}
use the_council.Result.{Result, ok, ◌>>=◌, refuse, raised, ◌>>◌}
use the_council.Schemas.Market.{
  validate_volatility, MarketBar, MarketSnapshot, VolatilityObservation,
}
use the_council.Schemas.Signal.{AgentSignal, CouncilDecision}
use the_council.Schemas.Order.{PortfolioState}
use the_council.Risk.Policy.{
  RiskPolicy, Reason, shorting_disabled, low_confidence, symbol_not_permitted, portfolio_invalid,
  volatility_unknown, volatility_exceeded,
}

-- `xs[n:]`.
abbrev pub drop {ℓ} : {A : Type ℓ} → ℕ → List A → List A
drop zero xs = xs
drop (suc n) [] = []
drop (suc n) (x ∷ xs) = drop n xs

module _ {F : Type 0} ⦃f : Float F⦄ where
  -- `math.log`, which raises on what is not positive: a ratio of prices may underflow to zero.
  abbrev log_of : F → Result F
  log_of x = refuse (x ≤? nought) (raised "math domain error") >> ok (f.log x)

  -- The logarithms of the ratios of neighbours.
  abbrev pub log_returns : List F → Result (List F)
  log_returns [] = ok []
  log_returns (a ∷ []) = ok []
  log_returns (a ∷ b ∷ xs) = do
    first ← log_of (b ⊘ a)
    others ← log_returns (b ∷ xs)
    ok (first ∷ others)

  abbrev pub volatility_value : Bool → Result (List F) → Result (Option F)
  volatility_value false returns = ok none
  volatility_value true returns = do values ← returns; ok (some (f.pstdev values))

  -- `snapshot.bars[-window_bars:]` for a positive window.
  unfoldable pub realized_volatility :
      MarketSnapshot F → MarketBar F → ℕ → Result (VolatilityObservation F)
  realized_volatility snapshot newest window_bars =
      let closes =
        map (λ (b : MarketBar F). b.close)
          (drop (length snapshot.bars - window_bars) snapshot.bars) in
      let enough = not (ltb (length closes) 3) in
      volatility_value enough (log_returns closes) >>= λ value. validate_volatility (record {
        estimator = log_return_population_stddev;
        window_bars = window_bars;
        units = per_bar_decimal;
        observed_at = newest.available_at;
        source_snapshot_id = snapshot.snapshot_id;
        status = if enough then ObservationStatus.valid else ObservationStatus.insufficient_data;
        value = value;
      })

  abbrev pub valid_value : VolatilityObservation F → Option F → List F
  valid_value v none = []
  valid_value v (some x) = note (was_observed v.status) x

  abbrev pub signal_values : List (AgentSignal F) → List F
  signal_values [] = []
  signal_values (s ∷ signals) = of_volatility s.volatility ++ signal_values signals
    where
      of_volatility : Option (VolatilityObservation F) → List F
      of_volatility none = []
      of_volatility (some v) = valid_value v v.value

  abbrev pub volatility_limit : F → List F → List Reason
  volatility_limit limit [] = volatility_unknown ∷ []
  volatility_limit limit (v ∷ values) = note (limit <? foldl fmax v values) volatility_exceeded

  unfoldable pub restriction_reasons :
      RiskPolicy F
      → CouncilDecision F
      → MarketSnapshot F
      → MarketBar F
      → PortfolioState F
      → F
      → Result (List Reason)
  restriction_reasons policy decision snapshot newest portfolio prospective_quantity = do
    volatility ← realized_volatility snapshot newest (max 2 (min 20 (length snapshot.bars)))
    ok (
        note (prospective_quantity <? f.neg quantity_abs_tolerance && not policy.allow_shorting)
          shorting_disabled
        ++ (note (decision.confidence <? policy.minimum_confidence) low_confidence
            ++ (note
                  (not (is_empty policy.allowed_symbols)
                    && not (mem_text decision.symbol policy.allowed_symbols))
                  symbol_not_permitted
                ++ (note (portfolio.equity ≤? nought || portfolio.cash <? nought) portfolio_invalid
                    ++ volatility_limit policy.max_realized_volatility (
                        valid_value volatility volatility.value
                        ++ signal_values decision.signals)))))
