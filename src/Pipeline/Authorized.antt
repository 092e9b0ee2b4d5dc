-- ===== src/Pipeline/Authorized.antt =====
-- The pipeline trades only what the governor has approved.
use the_council.Prelude.{
  ℕ, ◌≡◌, ◌⊎◌, inl, inr, refl, sym, ap, ◌∙◌, Bool, true, false, Option, none, some, List, String,
  [], ◌∷◌, ◌++◌,
}
use mathlib.Core.Path.{subst}
use the_council.Floats.{Float}
use the_council.Datetime.{Datetime, aware, naive, instant}
use the_council.Result.{Result, ok, err}
use the_council.Schemas.Enums.{is_approved}
use the_council.Schemas.Market.{MarketSnapshot, OpeningPriceObservation}
use the_council.Schemas.Signal.{AgentSignal, CouncilDecision}
use the_council.Schemas.Order.{PortfolioState, ApprovedOrder, ExecutionReport, ExecutionCostBounds}
use the_council.Execution.Paper.{Account, Method, portfolio_state}
use the_council.Execution.Filling.{execute}
use the_council.Execution.Atomic.{Outcome, IsFill, execute_atomic}
use the_council.Council.Aggregator.{aggregate}
use the_council.Risk.Policy.{RiskDecision}
use the_council.Risk.Evaluate.{evaluate}
use the_council.Stateful.{followed, lift, ◌>>=◌}
use the_council.Pipeline.World.{World, pipeline_started, emit, enter, call}
use the_council.Pipeline.Desk.{Desk, PipelineResult, Prepared, is_late}
use the_council.Pipeline.Run.{
  deliberate, judge, reconcile_report, fill_order, submit_order, trade_if, trade, announce,
  run_from, run,
}
use the_council.Pipeline.Stays.{
  ◌next◌, Stays, lift-Stays, emit-Stays, read-Stays, followed-account, call-account,
}
use the_council.Pipeline.Keeps.{SameFunds, deliberate-Keeps, judge-Keeps}
use the_council.Pipeline.Gives.{IsFound, IsJudged, deliberate-Gives, judge-Gives}

-- A trade, from the snapshot to the fill.
pub record IsTrade {F M : Type 0} ⦃f : Float F⦄ (desk : Desk F M) (symbol timeframe : String)
    (evaluated : ℕ) (opening : Option (OpeningPriceObservation F)) (before after : Account F)
    : Type 0 where
  pub snapshot : MarketSnapshot F
  pub signals : List (AgentSignal F)
  pub decision : CouncilDecision F
  pub portfolio : PortfolioState F
  pub costs : ExecutionCostBounds F
  pub risk : RiskDecision F
  pub order : ApprovedOrder F
  pub price : OpeningPriceObservation F
  pub marked : Account F
  pub report : ExecutionReport F
  pub found : desk.snapshot symbol timeframe evaluated ≡ ok snapshot
  pub in_time : is_late evaluated snapshot ≡ false
  pub decided : aggregate desk.config desk.decision_id snapshot signals ≡ ok decision
  pub judged :
      evaluate desk.authorization_id desk.policy decision snapshot portfolio costs (aware evaluated)
      ≡ ok risk
  pub approved : is_approved risk.status ≡ true
  pub ordered : risk.approved_order ≡ some order
  pub priced : opening ≡ some price
  pub funds : SameFunds before marked
  pub fill : IsFill marked order price evaluated report after

module _ {F M : Type 0} ⦃f : Float F⦄ (desk : Desk F M) (symbol timeframe : String)
    (evaluated : ℕ) where
  reconcile_report-Stays :
      (p : Prepared F) (order : ApprovedOrder F) (report : ExecutionReport F) (b : Bool)
      → Stays (reconcile_report desk symbol timeframe evaluated p order report b)
  reconcile_report-Stays p order report false = lift-Stays _
  reconcile_report-Stays p order report true = read-Stays portfolio_state next λ after.
      emit-Stays _ next λ _. emit-Stays _ next λ _. lift-Stays _

  fill_order-account :
      (p : Prepared F) (order : ApprovedOrder F) (price : OpeningPriceObservation F) (w : World F)
      → (fill_order desk symbol timeframe evaluated p order price w).1.account
        ≡ (execute w.account order price (aware evaluated)).1
  unfolding fill_order
  fill_order-account p order price w =
      followed-account (call (λ account. execute account order price (aware evaluated))) _ w
        (λ report. emit-Stays _ next λ _. reconcile_report-Stays p order report _)
      ∙ call-account _ w

  submit_order-account :
      (p : Prepared F) (order : ApprovedOrder F) (price : OpeningPriceObservation F) (w : World F)
      → (submit_order desk symbol timeframe evaluated p order price w).1.account
        ≡ (execute w.account order price (aware evaluated)).1
  unfolding submit_order ◌>>=◌ enter emit
  submit_order-account p order price w = fill_order-account p order price _

  -- What a trade may leave.
  abbrev pub Traded : Option (OpeningPriceObservation F) → Account F → Account F → Type 0
  Traded opening before after =
      SameFunds before after ⊎ IsTrade desk symbol timeframe evaluated opening before after

  trade_if-account :
      (p : Prepared F) (b : Bool) (order : Option (ApprovedOrder F))
      (opening : Option (OpeningPriceObservation F)) (w : World F)
      → let after = (trade_if desk symbol timeframe evaluated p b order opening w).1.account in
        (after ≡ w.account)
        ⊎ ((o : ApprovedOrder F) × (price : OpeningPriceObservation F) × (b ≡ true)
            × (order ≡ some o)
            × (opening ≡ some price)
            × (after ≡ (execute w.account o price (aware evaluated)).1))
  unfolding lift
  trade_if-account p false order opening w = inl refl
  trade_if-account p true order none w = inl refl
  trade_if-account p true none (some price) w = inl refl
  trade_if-account p true (some o) (some price) w =
      inr (o, price, refl, refl, refl, submit_order-account p o price w)

  announce-account :
      (x : Result (PipelineResult F) × World F)
      → (announce desk symbol timeframe evaluated x).1.account ≡ x.1.account
  announce-account (ok r, w) = refl
  announce-account (err e, w) = refl

  trade-account :
      (opening : Option (OpeningPriceObservation F)) (p : Prepared F) (w : World F)
      → (trade desk symbol timeframe evaluated opening p w).1.account
        ≡ (trade_if desk symbol timeframe evaluated p
            (is_approved p.risk_decision.status)
            p.risk_decision.approved_order
            opening
            w).1.account
  unfolding trade
  trade-account opening p w = followed-account _ _ w (λ t. lift-Stays _)

  module _ (opening : Option (OpeningPriceObservation F)) (before : Account F) where
    -- An execution of an approved order.
    execute-Traded :
        (found : MarketSnapshot F × List (AgentSignal F) × CouncilDecision F) (p : Prepared F)
        (marked : Account F) (order : ApprovedOrder F) (price : OpeningPriceObservation F)
        (x : Method F (ExecutionReport F))
        → IsFound desk symbol timeframe evaluated found
        → IsJudged desk symbol timeframe evaluated found p
        → is_approved p.risk_decision.status ≡ true
        → p.risk_decision.approved_order ≡ some order
        → opening ≡ some price
        → SameFunds before marked
        → Outcome marked order price evaluated x
        → Traded opening before x.1
    execute-Traded found p marked order price (err e, after) i j a o c k h =
        inl (subst (SameFunds before) (sym h) k)
    execute-Traded found p marked order price (ok r, after) i j a o c k (inl (s, h)) =
        inl (subst (SameFunds before) (sym h) k)
    execute-Traded (snapshot, signals, decision) p marked order price (ok r, after) i j a o c k
          (inr (s, h)) =
        inr (record {
          snapshot = snapshot;
          signals = signals;
          decision = decision;
          portfolio = p.marked;
          costs = p.costs;
          risk = p.risk_decision;
          order = order;
          price = price;
          marked = marked;
          report = r;
          found = i.0;
          in_time = i.1;
          decided = i.2;
          judged = j.3;
          approved = a;
          ordered = o;
          priced = c;
          funds = k;
          fill = h;
        })

    trade-Traded :
        (found : MarketSnapshot F × List (AgentSignal F) × CouncilDecision F) (p : Prepared F)
        (w : World F)
        → IsFound desk symbol timeframe evaluated found
        → IsJudged desk symbol timeframe evaluated found p
        → SameFunds before w.account
        → Traded opening before (trade desk symbol timeframe evaluated opening p w).1.account
    trade-Traded found p w i j k =
        subst (Traded opening before) (sym (trade-account opening p w))
          (elim (trade_if-account p (is_approved p.risk_decision.status)
            p.risk_decision.approved_order opening w) [
              | inl e ↦ inl (subst (SameFunds before) (sym e) k)
              | inr (o, price, a, b, c, d) ↦ subst (Traded opening before) (sym d) (
                  execute-Traded found p w.account o price
                    (execute w.account o price (aware evaluated)) i j a b c k
                    (execute_atomic w.account o price (aware evaluated)))
            ])

    judged-Traded :
        (found : MarketSnapshot F × List (AgentSignal F) × CouncilDecision F)
        (x : Result (Prepared F) × World F)
        → IsFound desk symbol timeframe evaluated found
        → ((p : Prepared F) → x.0 ≡ ok p → IsJudged desk symbol timeframe evaluated found p)
        → SameFunds before x.1.account
        → Traded opening before
            (announce desk symbol timeframe evaluated
              (followed x (trade desk symbol timeframe evaluated opening))).1.account
    judged-Traded found (err e, w) i j k = inl k
    judged-Traded found (ok p, w) i j k =
        subst (Traded opening before)
          (sym (announce-account (trade desk symbol timeframe evaluated opening p w)))
          (trade-Traded found p w i (j p refl) k)

    found-Traded :
        (x : Result (MarketSnapshot F × List (AgentSignal F) × CouncilDecision F) × World F)
        → ((found : _) → x.0 ≡ ok found → IsFound desk symbol timeframe evaluated found)
        → SameFunds before x.1.account
        → Traded opening before
            (announce desk symbol timeframe evaluated (
              followed x (λ found w.
                followed
                  (judge desk symbol timeframe evaluated found w)
                  (trade desk symbol timeframe evaluated opening)))).1.account
    found-Traded (err e, w) i k = inl k
    found-Traded (ok found, w) i k =
        let d = (judge-Keeps desk symbol timeframe evaluated found).keeps w in
        judged-Traded found (judge desk symbol timeframe evaluated found w) (i found refl)
          (λ p h. (judge-Gives desk symbol timeframe evaluated found).gives w p h)
          (d.0 ∙ k.0, d.1 ∙ k.1)

    run_from-Traded :
        (w : World F)
        → w.account ≡ before
        → Traded opening before (run_from desk symbol timeframe evaluated opening w).1.account
    unfolding run_from ◌>>=◌
    run_from-Traded w e =
        let start = record w { events = w.events ++ pipeline_started ∷ [] } in
        let d = (deliberate-Keeps desk symbol timeframe evaluated).keeps start in
        found-Traded (deliberate desk symbol timeframe evaluated start)
          (λ found h. (deliberate-Gives desk symbol timeframe evaluated).gives start found h)
          (d.0 ∙ ap (λ a. a.cash) e, d.1 ∙ ap (λ a. a.processed) e)

-- A run of the pipeline, whether it returns or raises, leaves the cash of the account and the
-- authorizations it has processed as they were, or it has made a trade: the council decided on signals
-- and on a snapshot of the market that was not late, the governor approved an order on that decision, an
-- opening price was given, and the order was filled at it, on the account with its former funds.
pub run_authorized :
    {F M : Type 0} ⦃f : Float F⦄ (desk : Desk F M) (symbol timeframe : String)
    (evaluated_at : Datetime) (opening : Option (OpeningPriceObservation F)) (account : Account F)
    → Traded desk symbol timeframe
        (instant evaluated_at)
        opening
        account
        (run desk symbol timeframe evaluated_at opening account).1.account
unfolding run
run_authorized desk symbol timeframe (naive t) opening account = inl (refl, refl)
run_authorized desk symbol timeframe (aware t) opening account =
    run_from-Traded desk symbol timeframe t opening account _ refl
