-- ===== src/Tests/Pipeline.antt =====
-- A whole run of the pipeline on the small market: one agent, an approval, a fill.
use the_council.Prelude.{◌≡◌, refl, none, some, [], ◌∷◌}
use the_council.Prelude.Int.{ℤ}
use the_council.Floats.Fixed.{fixed_float}
use the_council.Datetime.{aware, span_of, add_time}
use the_council.Result.{ok}
use the_council.Execution.Paper.{portfolio_state, cost_bounds}
use the_council.Risk.Reconcile.{reconcile}
use the_council.Stateful.{◌>>=◌, lift}
use the_council.Pipeline.World.{
  pipeline_started, snapshot_created, market_context_ready, agent_started, agent_signal_emitted,
  council_round_started, council_decision_emitted, risk_evaluation_started, risk_decision_emitted,
  order_approved, portfolio_updated, pipeline_completed, emit, enter, call,
}
use the_council.Pipeline.Desk.{Desk, observe}
use the_council.Pipeline.Run.{
  collect, deliberate, judge, fill_order, submit_order, trade, run_from, run,
}
use the_council.Pipeline.Authorized.{Traded, run_authorized}
use the_council.Tests.Data.{
  snapshot, signal_of, config, decision_id, policy, authorization_id, account, opening,
}
use the_council.Tests.Council.{round}
use the_council.Tests.Execution.{filling}
use the_council.Tests.Risk.{evaluating}

abbrev desk : Desk ℤ (Unit {0})
desk = record {
  snapshot = λ symbol timeframe evaluated. ok snapshot;
  enrich = λ s. ok tt;
  agents = (λ context. ok (signal_of "trend")) ∷ [];
  config = config;
  decision_id = decision_id;
  policy = policy;
  authorization_id = authorization_id;
}

-- All that a run computes with.
unfoldable trading : Unit {0}
unfolding span_of add_time run run_from deliberate judge trade submit_order fill_order collect
    observe emit enter call lift ◌>>=◌ portfolio_state cost_bounds reconcile round filling
    evaluating
trading = tt

fills :
    (run desk "BTC/USD" "1h" (aware 3000) (some opening) account).1.account.processed ≡ "auth" ∷ []
unfolding trading
fills = refl

-- Without an opening price the order is approved, and nothing is traded.
only_approves :
    (run desk "BTC/USD" "1h" (aware 3000) none account).1.events
    ≡ pipeline_started ∷ snapshot_created ∷ market_context_ready ∷ agent_started
      ∷ agent_signal_emitted ∷ council_round_started ∷ council_decision_emitted ∷ portfolio_updated
      ∷ risk_evaluation_started ∷ risk_decision_emitted ∷ order_approved ∷ pipeline_completed ∷ []
unfolding trading
only_approves = refl

run_authorized_example :
    Traded desk "BTC/USD" "1h" 3000
      (some opening)
      account
      (run desk "BTC/USD" "1h" (aware 3000) (some opening) account).1.account
run_authorized_example = run_authorized desk "BTC/USD" "1h" (aware 3000) (some opening) account
