-- ===== src/Risk/Total.antt =====
-- The governor answers: on valid inputs an evaluation raises nothing.
use the_council.Prelude.{
  ltb, ◌+◌, [], ◌∷◌, sym, ℕ, ◌≤◌, ◌≡◌, refl, Bool, true, false, Option, none, some, List, String,
  arith,
}
use mathlib.Core.Path.{subst}
use the_council.Floats.{Float, positive_finite}
use the_council.Result.{Result, ok, err, ◌>>=◌, ok-injective}
use the_council.Datetime.{aware, microseconds, last_time, add_time-Fits, span_of-Fits}
use the_council.Schemas.Enums.{approved, OrderSide}
use the_council.Schemas.Market.{MarketBar, MarketSnapshot, newest_bar}
use the_council.Schemas.Signal.{CouncilDecision}
use the_council.Schemas.Order.{
  ApprovedOrder, PortfolioState, ExecutionCostBounds, validate_order, validate_bounds,
}
use the_council.Risk.Policy.{all_passed, RiskPolicy, RiskDecision, Reason, validate_status}
use the_council.Risk.Restrictions.{restriction_reasons}
use the_council.Risk.Evaluate.{
  veto, veto_if, order_expiry, order_quantity, build_order, evaluate_target, evaluate_intent,
  evaluate,
}

-- The call returns a value.
abbrev pub Returns : {A : Type 0} → Result A → Type 0
Returns {A} m = (a : A) × (m ≡ ok a)

Returns-bind :
    {A B : Type 0} (m : Result A) (k : A → Result B)
    → Returns m
    → ((a : A) → m ≡ ok a → Returns (k a))
    → Returns (m >>= k)
Returns-bind (ok a) k r h = h a refl
Returns-bind (err e) k (a, p) h = absurd (cc)

Returns-then :
    {A B : Type 0} (m : Result A) (k : A → Result B) (a : A)
    → m ≡ ok a
    → Returns (k a)
    → Returns (m >>= k)
Returns-then (ok b) k a e r = subst (λ x. Returns (k x)) (sym (ok-injective e)) r
Returns-then (err x) k a e r = absurd (cc)

-- The policy's limits of time are spans that `timedelta` has, and an order of now can end in time.
pub record HasSpans {F : Type 0} (policy : RiskPolicy F) (now : ℕ) : Type 0 where
  pub order : now + microseconds policy.order_validity_seconds ≤ last_time
  pub signal : microseconds policy.max_signal_age_seconds ≤ last_time
  pub observation : microseconds policy.max_observation_age_seconds ≤ last_time

module _ {F : Type 0} ⦃f : Float F⦄ where
  Returns-veto : (now : ℕ) (reasons : List Reason) → Returns (veto {F = F} now reasons)
  unfolding veto validate_status
  Returns-veto now reasons = (_, refl)

  Returns-approved :
      (now : ℕ) (o : ApprovedOrder F)
      → Returns (
          validate_status (record {
            status = approved;
            evaluated_at = now;
            reasons = all_passed ∷ [];
            approved_order = some o;
          }))
  unfolding validate_status
  Returns-approved now o = (_, refl)

  Returns-veto_if :
      (b : Bool) (now : ℕ) (reasons : List Reason) (rest : Result (RiskDecision F))
      → (b ≡ false → Returns rest)
      → Returns (veto_if b now reasons rest)
  unfolding veto_if
  Returns-veto_if true now reasons rest h = Returns-veto now reasons
  Returns-veto_if false now reasons rest h = h refl

  module _ (authorization_id : CouncilDecision F → OrderSide → F → F → ℕ → String)
      (policy : RiskPolicy F) (decision : CouncilDecision F) (snapshot : MarketSnapshot F)
      (portfolio : PortfolioState F) (costs : ExecutionCostBounds F)
      (bounded : Returns (validate_bounds costs)) (newest : MarketBar F)
      (priced : positive_finite newest.close ≡ true)
      (sized : (target : F)
        → decision.target_exposure ≡ some target
        → positive_finite (order_quantity policy portfolio decision.symbol target newest.close)
          ≡ true)
      (measured : (q : F)
        → Returns (restriction_reasons policy decision snapshot newest portfolio q)) where
    order_valid :
        (now expires : ℕ) (target : F)
        → decision.target_exposure ≡ some target
        → now ≤ expires
        → Returns (
            validate_order (
              build_order authorization_id policy decision snapshot portfolio costs target
                newest.close now expires))
    unfolding validate_order build_order validate_bounds
    order_valid now expires target e alive = (
      build_order authorization_id policy decision snapshot portfolio costs target newest.close now
          expires,
      ground (arith, bounded.1, sized target e),
    )

    order_expiry-Returns :
        (now : ℕ)
        → HasSpans policy now
        → Returns (order_expiry authorization_id policy decision snapshot portfolio costs now)
    unfolding order_expiry
    order_expiry-Returns now spans =
        Returns-then _ _ _ (span_of-Fits now policy.order_validity_seconds spans.order) (
          Returns-then _ _ _
            (add_time-Fits now (microseconds policy.order_validity_seconds) spans.order) (_, refl))

    evaluate_target-Returns :
        (now : ℕ) (target : F)
        → HasSpans policy now
        → decision.target_exposure ≡ some target
        → Returns (
            evaluate_target authorization_id policy decision snapshot portfolio costs newest now
              target)
    unfolding evaluate_target
    evaluate_target-Returns now target spans e = Returns-veto_if _ now _ _ λ _.
        Returns-veto_if _ now _ _ λ _. Returns-bind _ _ (measured _) λ restrictions _.
          Returns-veto_if _ now _ _ λ _. Returns-veto_if _ now _ _ λ _.
            Returns-veto_if _ now _ _ λ _.
              Returns-bind _ _ (order_expiry-Returns now spans) λ expires _.
                Returns-veto_if (ltb expires now) now _ _ λ alive.
                  Returns-bind _ _ (order_valid now expires target e (ground arith))
                    λ o _. Returns-approved now o

    evaluate_intent-Returns :
        (now : ℕ) (exposure : Option F)
        → HasSpans policy now
        → decision.target_exposure ≡ exposure
        → Returns (
            evaluate_intent authorization_id policy decision snapshot portfolio costs newest now
              exposure)
    evaluate_intent-Returns now none spans e = Returns-veto now _
    evaluate_intent-Returns now (some target) spans e = evaluate_target-Returns now target spans e

    -- At an aware instant, with limits of time that Python has spans for and an order's validity that ends
    -- before the year 10000, with a newest bar of a positive finite price, valid cost bounds, a measurable
    -- volatility and a trade of positive finite size, the governor returns a decision.
    pub evaluate-Returns :
        (now : ℕ)
        → HasSpans policy now
        → newest_bar snapshot ≡ ok newest
        → Returns (evaluate authorization_id policy decision snapshot portfolio costs (aware now))
    unfolding evaluate
    evaluate-Returns now spans bar = Returns-then (newest_bar snapshot) _ newest bar (
        Returns-veto_if _ now _ _ λ _. Returns-veto_if _ now _ _ λ _. Returns-veto_if _ now _ _ λ _.
          Returns-veto_if _ now _ _
            λ _. evaluate_intent-Returns now decision.target_exposure spans refl)
