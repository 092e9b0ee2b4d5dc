-- ===== src/Pipeline/Keeps.antt =====
-- What the steps before a trade leave of the account: its cash and the authorizations it has processed.
use the_council.Prelude.{ℕ, ◌≡◌, refl, ap, ◌∙◌, Bool, true, false, List, [], ◌∷◌, String}
use the_council.Floats.{Float}
use the_council.Datetime.{aware}
use the_council.Result.{Result, ok, err, traverse, refuse, future_snapshot}
use the_council.Schemas.Market.{MarketSnapshot, PriceObservation}
use the_council.Schemas.Signal.{AgentSignal, CouncilDecision}
use the_council.Schemas.Order.{PortfolioState}
use the_council.Execution.Paper.{Account, Method, portfolio_state, cost_bounds}
use the_council.Execution.Marking.{mark_to_market}
use the_council.Execution.Marked.{MarkOutcome, mark_to_market_atomic}
use the_council.Council.Aggregator.{aggregate}
use the_council.Risk.Evaluate.{evaluate}
use the_council.Stateful.{Stateful, followed, lift, ◌>>=◌}
use the_council.Pipeline.World.{World, emit, enter, call, EventType}
use the_council.Pipeline.Desk.{Desk, is_late, observe}
use the_council.Pipeline.Run.{emit_if, collect, deliberate, judge}

-- The account has the same cash, and has processed the same authorizations.
abbrev pub SameFunds : {F : Type 0} → Account F → Account F → Type 0
SameFunds before after = (after.cash ≡ before.cash) × (after.processed ≡ before.processed)

module _ {F : Type 0} where
  pub record Keeps {A : Type 0} (m : Stateful (World F) A) : Type 0 where
    pub keeps : (w : World F) → SameFunds w.account (m w).1.account

  infixr 5 ◌then◌
  ◌then◌ :
      {A B : Type 0} {m : Stateful (World F) A} {next : A → Stateful (World F) B}
      → Keeps m
      → ((a : A) → Keeps (next a))
      → Keeps (m >>= next)
  unfolding ◌>>=◌
  ◌then◌ {m = m} {next = next} h k = record { keeps = λ w. go w (m w) (h.keeps w) }
    where
      go :
          (w : World F) (x : Result _ × World F)
          → SameFunds w.account x.1.account
          → SameFunds w.account (followed x next).1.account
      go w (ok a, v) e = let d = (k a).keeps v in (d.0 ∙ e.0, d.1 ∙ e.1)
      go w (err e, v) d = d

  pub lift-Keeps : {A : Type 0} (r : Result A) → Keeps (lift r)
  unfolding lift
  lift-Keeps r = record { keeps = λ w. (refl, refl) }

  pub emit-Keeps : (e : EventType) → Keeps {A = Unit {0}} (emit e)
  unfolding emit
  emit-Keeps e = record { keeps = λ w. (refl, refl) }

  pub enter-Keeps : (stage : String) → Keeps {A = Unit {0}} (enter stage)
  unfolding enter
  enter-Keeps stage = record { keeps = λ w. (refl, refl) }

  -- A property or a view of the adapter is read.
  pub read-Keeps : {A : Type 0} (view : Account F → Result A) → Keeps (call (λ a. (view a, a)))
  unfolding call
  read-Keeps view = record { keeps = λ w. (refl, refl) }

  collect-Keeps :
      {M : Type 0} (agents : List (M → Result (AgentSignal F))) (context : M)
      → Keeps (collect agents context)
  unfolding collect
  collect-Keeps [] context = lift-Keeps _
  collect-Keeps (analyze ∷ agents) context = emit-Keeps _ then λ _.
      lift-Keeps (analyze context) then λ signal.
      emit-Keeps _ then λ _. collect-Keeps agents context then λ signals. lift-Keeps _

  pub emit_if-Keeps : (b : Bool) (e : EventType) → Keeps (emit_if b e)
  emit_if-Keeps true e = emit-Keeps e
  emit_if-Keeps false e = lift-Keeps _

module _ {F M : Type 0} ⦃f : Float F⦄ (desk : Desk F M) (symbol timeframe : String)
    (evaluated : ℕ) where
  mark-Keeps :
      (observations : List (PriceObservation F))
      → Keeps (call (λ account. mark_to_market account observations (aware evaluated)))
  unfolding call
  mark-Keeps observations = record {
    keeps = λ w.
        go w.account (mark_to_market w.account observations (aware evaluated))
          (mark_to_market_atomic w.account observations (aware evaluated));
  }
    where
      go :
          (account : Account F) (x : Method F (PortfolioState F))
          → MarkOutcome account observations evaluated x
          → SameFunds account x.1
      go account (err e, after) h = (ap (λ a. a.cash) h, ap (λ a. a.processed) h)
      go account (ok s, after) h = (h.cash, h.processed)

  pub deliberate-Keeps : Keeps (deliberate desk symbol timeframe evaluated)
  unfolding deliberate
  deliberate-Keeps = enter-Keeps _ then λ _.
      lift-Keeps (desk.snapshot symbol timeframe evaluated) then λ snapshot.
      lift-Keeps (refuse (is_late evaluated snapshot) future_snapshot) then λ _.
      emit-Keeps _ then λ _. lift-Keeps (desk.enrich snapshot) then λ context.
      emit-Keeps _ then λ _. enter-Keeps _ then λ _.
      collect-Keeps desk.agents context then λ signals. enter-Keeps _ then λ _.
      emit-Keeps _ then λ _.
      lift-Keeps (aggregate desk.config desk.decision_id snapshot signals) then λ decision.
      emit-Keeps _ then λ _. lift-Keeps _

  pub judge-Keeps :
      (found : MarketSnapshot F × List (AgentSignal F) × CouncilDecision F)
      → Keeps (judge desk symbol timeframe evaluated found)
  unfolding judge
  judge-Keeps (snapshot, signals, decision) = enter-Keeps _ then λ _.
      read-Keeps portfolio_state then λ before.
      lift-Keeps (traverse (observe desk snapshot symbol timeframe evaluated) before.positions)
      then λ observations. mark-Keeps observations then λ marked. emit-Keeps _ then λ _.
          enter-Keeps _ then λ _. emit-Keeps _ then λ _. read-Keeps cost_bounds then λ costs.
          lift-Keeps (
            evaluate desk.authorization_id desk.policy decision snapshot marked costs
              (aware evaluated))
          then λ risk. emit-Keeps _ then λ _.
              emit_if-Keeps _ _ then λ _. emit_if-Keeps _ _ then λ _. lift-Keeps _
