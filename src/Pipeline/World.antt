-- ===== src/Pipeline/World.antt =====
-- What a run of the pipeline writes: the account of the execution adapter, the telemetry, and the
-- variable `stage`. An event is told by its type; `_emit` swallows every failure of its payload.
use the_council.Prelude.{List, [], ◌∷◌, ◌++◌, String}
use the_council.Result.{Result, ok}
use the_council.Execution.Paper.{Account, Method}
use the_council.Stateful.{Stateful}

pub data EventType : Type 0 where
  pipeline_started snapshot_created market_context_ready agent_started agent_signal_emitted :
      EventType
  council_round_started council_decision_emitted risk_evaluation_started : EventType
  risk_decision_emitted risk_vetoed order_approved execution_started : EventType
  execution_report_emitted portfolio_updated reconciliation_completed : EventType
  pipeline_completed pipeline_failed : EventType

pub record World (F : Type 0) : Type 0 where
  pub account : Account F
  pub events : List EventType
  pub stage : String

module _ {F : Type 0} where
  unfoldable pub emit : EventType → Stateful (World F) (Unit {0})
  emit event = λ w. (ok tt, record w { events = w.events ++ event ∷ [] })

  -- `stage = name`.
  unfoldable pub enter : String → Stateful (World F) (Unit {0})
  enter name = λ w. (ok tt, record w { stage = name })

  abbrev pub moved_to : {A : Type 0} → World F → Method F A → Result A × World F
  moved_to w (r, account) = (r, record w { account = account })

  -- A call of the execution adapter.
  unfoldable pub call : {A : Type 0} → (Account F → Method F A) → Stateful (World F) A
  call method = λ w. moved_to w (method w.account)
