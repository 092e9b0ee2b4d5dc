-- ===== src/Pipeline/Run.antt =====
-- `ResearchTradingPipeline.run`. A specialist is its name and what `analyze_with_context` gives of it on a
-- market context; `enrich` gives the context of a snapshot.
use the_council.Prelude.{ℕ, Bool, true, false, Option, none, some, List, [], ◌∷◌, String, not, ◌++◌}
use the_council.Floats.{Float}
use the_council.Datetime.{Datetime, aware, naive}
use the_council.Result.{
  Result, ok, err, refuse, traverse, future_snapshot, approved_without_order, naive_datetime,
}
use the_council.Schemas.Enums.{is_approved, is_filled}
use the_council.Schemas.Market.{MarketSnapshot, OpeningPriceObservation}
use the_council.Schemas.Signal.{AgentSignal, CouncilDecision}
use the_council.Schemas.Order.{ApprovedOrder, ExecutionReport}
use the_council.Execution.Paper.{Account, portfolio_state, cost_bounds}
use the_council.Execution.Marking.{mark_to_market}
use the_council.Execution.Filling.{execute}
use the_council.Council.Aggregator.{aggregate}
use the_council.Risk.Policy.{RiskReconciliation}
use the_council.Risk.Evaluate.{evaluate}
use the_council.Risk.Reconcile.{reconcile}
use the_council.Stateful.{Stateful, ◌>>=◌, ◌>>◌, lift}
use the_council.Pipeline.World.{
  World, emit, enter, call, EventType, pipeline_started, snapshot_created, market_context_ready,
  agent_started, agent_signal_emitted, council_round_started, council_decision_emitted,
  risk_evaluation_started, risk_decision_emitted, risk_vetoed, order_approved, execution_started,
  execution_report_emitted, portfolio_updated, reconciliation_completed, pipeline_completed,
  pipeline_failed,
}
use the_council.Pipeline.Desk.{Desk, PipelineResult, Prepared, is_late, observe}

module _ {F : Type 0} where
  abbrev pub emit_if : Bool → EventType → Stateful (World F) (Unit {0})
  emit_if true event = emit event
  emit_if false event = lift (ok tt)

  abbrev pub has_order : Option (ApprovedOrder F) → Bool
  has_order none = false
  has_order (some order) = true

-- The loop over the agents.
unfoldable pub collect :
    {F M : Type 0}
    → List (M → Result (AgentSignal F))
    → M
    → Stateful (World F) (List (AgentSignal F))
collect [] context = lift (ok [])
collect (analyze ∷ agents) context = do
  emit agent_started
  signal ← lift (analyze context)
  emit agent_signal_emitted
  signals ← collect agents context
  lift (ok (signal ∷ signals))

module _ {F M : Type 0} ⦃f : Float F⦄ (desk : Desk F M) (symbol timeframe : String)
    (evaluated : ℕ) where
  -- Market data, context, agents and council.
  unfoldable pub deliberate :
      Stateful (World F) (MarketSnapshot F × List (AgentSignal F) × CouncilDecision F)
  deliberate = do
    enter "market_data"
    snapshot ← lift (desk.snapshot symbol timeframe evaluated)
    lift (refuse (is_late evaluated snapshot) future_snapshot)
    emit snapshot_created
    context ← lift (desk.enrich snapshot)
    emit market_context_ready
    enter "agents"
    signals ← collect desk.agents context
    enter "council"
    emit council_round_started
    decision ← lift (aggregate desk.config desk.decision_id snapshot signals)
    emit council_decision_emitted
    lift (ok (snapshot, signals, decision))

  -- The marks of the portfolio, and the governor's decision.
  unfoldable pub judge :
      MarketSnapshot F × List (AgentSignal F) × CouncilDecision F → Stateful (World F) (Prepared F)
  judge (snapshot, signals, decision) = do
    enter "portfolio_mark"
    before ← call (λ account. (portfolio_state account, account))
    observations ←
        lift (traverse (observe desk snapshot symbol timeframe evaluated) before.positions)
    marked ← call (λ account. mark_to_market account observations (aware evaluated))
    emit portfolio_updated
    enter "risk"
    emit risk_evaluation_started
    costs ← call (λ account. (cost_bounds account, account))
    risk ← lift (
        evaluate desk.authorization_id desk.policy decision snapshot marked costs (aware evaluated))
    emit risk_decision_emitted
    emit_if (not (is_approved risk.status)) risk_vetoed
    emit_if (has_order risk.approved_order) order_approved
    lift (
        ok (record {
          snapshot = snapshot;
          signals = signals;
          council_decision = decision;
          marked = marked;
          costs = costs;
          risk_decision = risk;
        }))

  abbrev pub Trade : Type 0
  Trade = Option (ExecutionReport F) × Option RiskReconciliation

  -- After a fill: the governor's reconciliation.
  abbrev pub reconcile_report :
      Prepared F → ApprovedOrder F → ExecutionReport F → Bool → Stateful (World F) Trade
  reconcile_report p order report false = lift (ok (some report, none))
  reconcile_report p order report true = do
    after ← call (λ account. (portfolio_state account, account))
    emit reconciliation_completed
    emit portfolio_updated
    lift (ok (some report, some (reconcile desk.policy order report p.marked after)))

  unfoldable pub fill_order :
      Prepared F → ApprovedOrder F → OpeningPriceObservation F → Stateful (World F) Trade
  fill_order p order opening = do
    report ← call (λ account. execute account order opening (aware evaluated))
    emit execution_report_emitted
    reconcile_report p order report (is_filled report.status)

  unfoldable pub submit_order :
      Prepared F → ApprovedOrder F → OpeningPriceObservation F → Stateful (World F) Trade
  submit_order p order opening = do
    enter "execution"
    emit execution_started
    fill_order p order opening

  -- Only an approved order, and only at an opening price.
  abbrev pub trade_if :
      Prepared F
      → Bool
      → Option (ApprovedOrder F)
      → Option (OpeningPriceObservation F)
      → Stateful (World F) Trade
  trade_if p false order opening = lift (ok (none, none))
  trade_if p true order none = lift (ok (none, none))
  trade_if p true none (some opening) = lift (err approved_without_order)
  trade_if p true (some order) (some opening) = submit_order p order opening

  unfoldable pub trade :
      Option (OpeningPriceObservation F) → Prepared F → Stateful (World F) (PipelineResult F)
  trade opening p = do
    (report, reconciliation) ←
        trade_if p (is_approved p.risk_decision.status) p.risk_decision.approved_order opening
    lift (
        ok (record {
          snapshot = p.snapshot;
          signals = p.signals;
          council_decision = p.council_decision;
          risk_decision = p.risk_decision;
          execution_report = report;
          post_fill_reconciliation = reconciliation;
        }))

  -- The end of the `try` block, and its handler, which raises again.
  abbrev pub announce : Result (PipelineResult F) × World F → Result (PipelineResult F) × World F
  announce (ok r, w) = (ok r, record w { events = w.events ++ pipeline_completed ∷ [] })
  announce (err e, w) = (err e, record w { events = w.events ++ pipeline_failed ∷ [] })

  unfoldable pub run_from :
      Option (OpeningPriceObservation F) → World F → Result (PipelineResult F) × World F
  run_from opening w = announce (
      (deliberate >>= λ found. judge found >>= λ p. trade opening p)
        (record w { events = w.events ++ pipeline_started ∷ [] }))

unfoldable pub run :
    {F M : Type 0} ⦃f : Float F⦄ (desk : Desk F M) (symbol timeframe : String)
    → Datetime
    → Option (OpeningPriceObservation F)
    → Account F
    → Result (PipelineResult F) × World F
run desk symbol timeframe (naive t) opening account =
    (err naive_datetime, record { account = account; events = []; stage = "" })
run desk symbol timeframe (aware t) opening account =
    run_from desk symbol timeframe t opening
      (record { account = account; events = []; stage = "pipeline" })
