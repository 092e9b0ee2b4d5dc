-- ===== src/Risk/Approval.antt =====
-- What the governor has made sure of when it approves.
use the_council.Prelude.{
  ◌∙◌, ℕ, ◌≤◌, ◌≡◌, refl, ap, Bool, true, false, not, ◌&&◌, Option, none, some, List, [], ◌∷◌,
  String, arith, is_empty, ltb,
}
use mathlib.Core.Path.{subst}
use the_council.Floats.{Float, ◌<?◌, ◌≤?◌, nought}
use the_council.Result.{Result, ok, >>=-eq-ok}
use the_council.Datetime.{Datetime, naive, aware}
use the_council.Trading.{notional_abs_tolerance}
use the_council.Schemas.Enums.{
  OrderSide, ActionIntent, approved, vetoed, is_actionable, is_reduce_only,
}
use the_council.Schemas.Market.{MarketBar, MarketSnapshot, newest_bar}
use the_council.Schemas.Signal.{CouncilDecision}
use the_council.Schemas.Order.{PortfolioState, ExecutionCostBounds, ApprovedOrder, validate_order}
use the_council.Risk.Policy.{
  RiskPolicy, RiskDecision, Reason, validate_status, all_passed, no_target,
}
use the_council.Risk.Causal.{causal_reasons}
use the_council.Risk.Restrictions.{restriction_reasons}
use the_council.Risk.Timely.{IsCausal, causal_reasons_iff}
use the_council.Risk.Evaluate.{
  veto, veto_if, intent_reasons, order_notional, is_reducing, prospective_quantity,
  worst_fill_price, limit_reasons, order_expiry, build_order, evaluate_target, evaluate_intent,
  evaluate,
}

is_empty→nil {ℓ} : {A : Type ℓ} (xs : List A) → not (is_empty xs) ≡ false → xs ≡ []
is_empty→nil [] h = refl
is_empty→nil (x ∷ xs) h = absurd (cc)

module _ {F : Type 0} ⦃f : Float F⦄ where
  validate_status-eq-ok : (d e : RiskDecision F) → validate_status d ≡ ok e → e ≡ d
  unfolding validate_status
  validate_status-eq-ok d e h = ground arith

  validate_order-eq-ok : (o p : ApprovedOrder F) → validate_order o ≡ ok p → p ≡ o
  unfolding validate_order
  validate_order-eq-ok o p h = ground arith

  status-veto :
      (now : ℕ) (reasons : List Reason) (d : RiskDecision F)
      → veto now reasons ≡ ok d
      → (d.status ≡ vetoed) × (d.reasons ≡ reasons) × (d.approved_order ≡ none)
  unfolding veto
  status-veto now reasons d h =
      let e = validate_status-eq-ok _ d h in
      (ap (λ x. x.status) e, ap (λ x. x.reasons) e, ap (λ x. x.approved_order) e)

  -- An approval passes a veto's test and is that of the rest of the method.
  veto_if-approved :
      (b : Bool) (now : ℕ) (reasons : List Reason) (rest : Result (RiskDecision F))
      (d : RiskDecision F)
      → veto_if b now reasons rest ≡ ok d
      → d.status ≡ approved
      → (b ≡ false) × (rest ≡ ok d)
  unfolding veto_if
  veto_if-approved true now reasons rest d h a = absurd (cc (status-veto now reasons d h).0)
  veto_if-approved false now reasons rest d h a = (refl, h)

  module _ (authorization_id : CouncilDecision F → OrderSide → F → F → ℕ → String)
      (policy : RiskPolicy F) (decision : CouncilDecision F) (snapshot : MarketSnapshot F)
      (portfolio : PortfolioState F) (costs : ExecutionCostBounds F) where
    -- The facts behind an approval at `now` of a trade towards `target`.
    pub record IsApproval (newest : MarketBar F) (now : ℕ) (target : F) (d : RiskDecision F)
        : Type 0 where
      pub worthwhile :
          (order_notional policy portfolio decision.symbol target newest.close
            ≤? notional_abs_tolerance)
          ≡ false
      pub reduces_if_told :
          is_reduce_only decision.action ≡ true
          → is_reducing policy portfolio decision.symbol target newest.close ≡ true
      pub unrestricted :
          is_reducing policy portfolio decision.symbol target newest.close ≡ false
          → restriction_reasons policy decision snapshot newest portfolio
              (prospective_quantity policy portfolio decision.symbol target newest.close)
            ≡ ok []
      pub priced :
          (worst_fill_price policy portfolio decision.symbol target newest.close costs ≤? nought)
          ≡ false
      pub within_limits :
          is_reducing policy portfolio decision.symbol target newest.close ≡ false
          → limit_reasons policy portfolio decision.symbol target newest.close costs ≡ []
      pub expires : ℕ
      pub expiry :
          order_expiry authorization_id policy decision snapshot portfolio costs now ≡ ok expires
      pub alive : now ≤ expires
      pub order :
          d.approved_order
          ≡ some (
              build_order authorization_id policy decision snapshot portfolio costs target
                newest.close now expires)
      pub reasons : d.reasons ≡ all_passed ∷ []

    evaluate_target-IsApproval :
        (newest : MarketBar F) (now : ℕ) (target : F) (d : RiskDecision F)
        → evaluate_target authorization_id policy decision snapshot portfolio costs newest now
            target
          ≡ ok d
        → d.status ≡ approved
        → IsApproval newest now target d
    unfolding evaluate_target
    evaluate_target-IsApproval newest now target d h a =
        let price = newest.close in
        let reducing = is_reducing policy portfolio decision.symbol target price in
        let limits = limit_reasons policy portfolio decision.symbol target price costs in
        let (w, h1) =
          veto_if-approved
            (order_notional policy portfolio decision.symbol target price ≤? notional_abs_tolerance)
            _ _ _ d h a in
        let (r, h2) =
          veto_if-approved (is_reduce_only decision.action && not reducing) _ _ _ d h1 a in
        let (restrictions, found, h3) =
          >>=-eq-ok
            (restriction_reasons policy decision snapshot newest portfolio
              (prospective_quantity policy portfolio decision.symbol target price))
            _ h2 in
        let (u, h4) = veto_if-approved (not (is_empty restrictions) && not reducing) _ _ _ d h3 a in
        let (p, h5) =
          veto_if-approved
            (worst_fill_price policy portfolio decision.symbol target price costs ≤? nought) _ _ _ d
            h4 a in
        let (l, h6) = veto_if-approved (not (is_empty limits) && not reducing) _ _ _ d h5 a in
        let (expires, until, timed) =
          >>=-eq-ok (order_expiry authorization_id policy decision snapshot portfolio costs now) _
            h6 in
        let (e, h7) = veto_if-approved (ltb expires now) _ _ _ d timed a in
        let (o, valid, h8) =
          >>=-eq-ok
            (validate_order (
              build_order authorization_id policy decision snapshot portfolio costs target price now
                expires))
            _ h7 in
        let same = validate_status-eq-ok _ d h8 in
        record {
          worthwhile = w;
          reduces_if_told = λ t. ground arith;
          unrestricted = λ t.
              subst
                (λ xs.
                  restriction_reasons policy decision snapshot newest portfolio
                    (prospective_quantity policy portfolio decision.symbol target price)
                  ≡ ok xs)
                (is_empty→nil restrictions (ground arith)) found;
          priced = p;
          within_limits = λ t. is_empty→nil limits (ground arith);
          expires = expires;
          expiry = until;
          alive = ground arith;
          order = ap (λ x. x.approved_order) same ∙ ap some (validate_order-eq-ok _ o valid);
          reasons = ap (λ x. x.reasons) same;
        }

    -- What the whole evaluation has made sure of.
    pub record IsApproved (evaluated_at : Datetime) (d : RiskDecision F) (newest : MarketBar F)
        (now : ℕ) (target : F) : Type 0 where
      pub time : evaluated_at ≡ aware now
      pub priced_by : newest_bar snapshot ≡ ok newest
      pub causal : IsCausal policy snapshot now decision newest portfolio
      pub fee : (policy.max_fee_bps <? costs.fee_bps) ≡ false
      pub slippage : (policy.max_slippage_bps <? costs.slippage_bps) ≡ false
      pub actionable : is_actionable decision.action ≡ true
      pub aimed : decision.target_exposure ≡ some target
      pub approval : IsApproval newest now target d

    intent_reasons-actionable :
        (intent : ActionIntent)
        → not (is_empty (intent_reasons intent)) ≡ false
        → is_actionable intent ≡ true
    intent_reasons-actionable intent h = ground arith

    -- The governor has the last word. If it approves, the evaluation was at an aware instant; nothing
    -- was held against timing and sources; the cost bounds lie within the policy; the council asked
    -- for a position; the trade is worth making; a reduce-only intent reduces; unless the trade
    -- strictly reduces, no restriction and no limit speaks against it; the worst price is positive;
    -- and what is approved is the order that was sized from the portfolio, not yet expired.
    pub evaluate_approved :
        (evaluated_at : Datetime) (d : RiskDecision F)
        → evaluate authorization_id policy decision snapshot portfolio costs evaluated_at ≡ ok d
        → d.status ≡ approved
        → (newest : MarketBar F) × (now : ℕ) × (target : F) × IsApproved evaluated_at d newest now
            target
    unfolding evaluate
    evaluate_approved (naive t) d h a = absurd (cc)
    evaluate_approved (aware now) d h a =
        let (newest, bar, h1) = >>=-eq-ok (newest_bar snapshot) _ h in
        let causal = causal_reasons policy snapshot now decision newest portfolio in
        let (c, h2) = veto_if-approved (not (is_empty causal)) _ _ _ d h1 a in
        let (fee, h3) = veto_if-approved (policy.max_fee_bps <? costs.fee_bps) _ _ _ d h2 a in
        let (slip, h4) =
          veto_if-approved (policy.max_slippage_bps <? costs.slippage_bps) _ _ _ d h3 a in
        let (intent, h5) =
          veto_if-approved (not (is_empty (intent_reasons decision.action))) _ _ _ d h4 a in
        aim newest (is_empty→nil causal c) bar fee slip
          (intent_reasons-actionable decision.action intent) decision.target_exposure refl h5
      where
        aim :
            (newest : MarketBar F)
            → causal_reasons policy snapshot now decision newest portfolio ≡ []
            → newest_bar snapshot ≡ ok newest
            → (policy.max_fee_bps <? costs.fee_bps) ≡ false
            → (policy.max_slippage_bps <? costs.slippage_bps) ≡ false
            → is_actionable decision.action ≡ true
            → (exposure : Option F) → decision.target_exposure ≡ exposure
            → evaluate_intent authorization_id policy decision snapshot portfolio costs newest now
                exposure
              ≡ ok d
            → (newest : MarketBar F) × (now' : ℕ) × (target : F) × IsApproved
                (aware now)
                d
                newest
                now'
                target
        aim newest causal bar fee slip acts none e r =
            absurd (cc (status-veto now (no_target ∷ []) d r).0)
        aim newest causal bar fee slip acts (some target) e r = (
          newest,
          now,
          target,
          record {
            time = refl;
            priced_by = bar;
            causal = (causal_reasons_iff policy snapshot now decision newest portfolio).0 causal;
            fee = fee;
            slippage = slip;
            actionable = acts;
            aimed = e;
            approval = evaluate_target-IsApproval newest now target d r a;
          },
        )
