-- ===== src/Context/Consulted.antt =====
-- When an agent is called with a market context, and what stands for its signal when it is not.
use the_council.Datetime.{last_time, add_time-Fits}
use the_council.Prelude.{
  ◌≡◌, refl, ℕ, true, false, not, ◌||◌, List, String, ◌==◌, eq_iff, arith, ◌+◌, ◌≤◌,
}
use the_council.Floats.{Float}
use the_council.Floats.Laws.{IsIeee}
use the_council.Result.{ok}
use the_council.Schemas.Enums.{is_abstain}
use the_council.Schemas.Signal.{AgentSignal, validate_signal, check_signal}
use the_council.Council.Aggregator.{validate_signal_source, check_volatility, is_vote}
use the_council.Agents.{AgentContext, warmup_bars, timeframe_delta}
use the_council.Context.Capabilities.{Capabilities, minus, is_none}
use the_council.Context.Models.{MarketContext}
use the_council.Context.Causal.{IsCausal}
use the_council.Context.Dispatch.{
  ContextAgent, required_capabilities, optional_capabilities, available_capabilities, abstention,
  analyze_with_context, abstaining,
}

module _ {F : Type 0} ⦃f : Float F⦄ where
  pub validate_signal-eq-ok : (s t : AgentSignal F) → validate_signal s ≡ ok t → t ≡ s
  unfolding validate_signal
  validate_signal-eq-ok s t h = ground arith

  module _ (a : ContextAgent F) (c : MarketContext F) where
    -- The texts that a signal must have.
    pub record HasIdentities : Type 0 where
      pub agent : not (a.agent.agent_id == "" || a.agent.agent_version == "") ≡ true
      pub snapshot :
          not
            (c.snapshot.symbol == "" || c.snapshot.timeframe == "" || c.snapshot.snapshot_id == "")
          ≡ true

  module _ (rationale : List String → String) (a : ContextAgent F) (c : MarketContext F) where
    module _ (missing : Capabilities) (bars delta : ℕ) where
      abstaining_valid :
          IsIeee F
          → HasIdentities a c
          → check_signal (abstaining rationale a c missing bars (c.snapshot.observed_at + delta))
            ≡ ok tt
      unfolding abstaining check_signal
      abstaining_valid laws named = ground (arith, laws.unit_zero, named.agent, named.snapshot)

      abstaining_sourced :
          IsCausal c
          → validate_signal_source c.snapshot
              (abstaining rationale a c missing bars (c.snapshot.observed_at + delta))
            ≡ ok tt
      unfolding abstaining validate_signal_source check_volatility
      abstaining_sourced causal = ground (
        arith,
        eq_iff c.snapshot.symbol c.snapshot.symbol,
        eq_iff c.snapshot.timeframe c.snapshot.timeframe,
        eq_iff c.snapshot.snapshot_id c.snapshot.snapshot_id,
        causal.clock,
      )

    -- An agent that lacks some required context is not called. With a causal market context, well-formed
    -- declarations of the agent, non-empty identities, a usable warmup, and a timeframe that is a duration
    -- and ends before the year 10000 if it begins at the observation, there stands in place of its
    -- analysis an abstention, which has no vote, passes the validator of signals and is bound to the
    -- snapshot as the council demands.
    pub analyze_with_context-Abstains :
        (agent_context : AgentContext) (required optional : Capabilities) (bars delta : ℕ)
        → IsIeee F
        → HasIdentities a c
        → IsCausal c
        → required_capabilities a ≡ ok required
        → optional_capabilities a ≡ ok optional
        → is_none (minus required (available_capabilities c)) ≡ false
        → warmup_bars a.agent c.snapshot.timeframe ≡ ok bars
        → timeframe_delta c.snapshot.timeframe ≡ ok delta
        → c.snapshot.observed_at + delta ≤ last_time
        → (s : AgentSignal F) × (analyze_with_context rationale a c agent_context ≡ ok s)
          × (is_abstain s.action ≡ true)
          × (is_vote s ≡ false)
          × (validate_signal_source c.snapshot s ≡ ok tt)
    unfolding analyze_with_context abstention validate_signal
    analyze_with_context-Abstains agent_context required optional bars delta laws named causal needs
          may lacks warm long fits =
        let missing = minus required (available_capabilities c) in
        (
          abstaining rationale a c missing bars (c.snapshot.observed_at + delta),
          (rw
              (
                needs,
                may,
                lacks,
                warm,
                long,
                add_time-Fits c.snapshot.observed_at delta fits,
                abstaining_valid missing bars delta laws named,
              )
              refl),
          (unfold abstaining in refl),
          (unfold abstaining in ground arith),
          abstaining_sourced missing bars delta causal,
        )
