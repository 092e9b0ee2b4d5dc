-- ===== src/Council/Decision.antt =====
-- What a decision of the council says of the signals that it was made from.
use mathlib.Core.Path.{subst}
use mathlib.Core.List.{Permᴰ}
use the_council.Prelude.{
  All-map, if◌then◌else◌, ℕ, ◌≤◌, ◌≡◌, ◌≢◌, ◌↔◌, ◌⊎◌, refl, sym, true, false, Option, none, some,
  List, [], ◌∷◌, map, String, has_unique_texts, arith, All, all, select, eq_iff, Member, inl, inr,
  leb, Bool-cases,
}
use the_council.Prelude.Sort.{sort_by}
use the_council.Prelude.Sort.Permuted.{sort_by-perm}
use the_council.Floats.{Float, ◌<?◌, nought}
use the_council.Result.{ok, >>=-eq-ok, guard-eq-ok, guard, each, duplicate_agents}
use the_council.Schemas.Enums.{
  ActionIntent, abstain, no_action, reduce_only, is_reduce_only, is_actionable,
}
use the_council.Schemas.Market.{MarketSnapshot, is_some, VolatilityObservation}
use the_council.Schemas.Signal.{AgentSignal, CouncilDecision, validate_decision}
use the_council.Council.Aggregator.{
  CouncilConfig, decide_sorted, aggregate, decide, validate_signal_source, check_volatility,
  earliest_expiry, is_vote, intent_of, is_weak, all_reduce_only, all_explicitly_flat, confidence_of,
  conviction_of,
}

pub validate_decision-eq-ok :
    {F : Type 0} ⦃f : Float F⦄ (d e : CouncilDecision F)
    → validate_decision d ≡ ok e
    → (e ≡ d) × (d.decided_at ≤ d.expires_at)
unfolding validate_decision
validate_decision-eq-ok d e h = ground arith

module _ {F : Type 0} where
  abbrev pub IsObserved : MarketSnapshot F → Option (VolatilityObservation F) → Type 0
  IsObserved snapshot none = Unit
  IsObserved snapshot (some v) =
      (v.source_snapshot_id ≡ snapshot.snapshot_id) × (v.observed_at ≤ snapshot.as_of)

  -- The signal is of the snapshot's market and of this very snapshot, was made at its observation,
  -- has not expired then, and rests on no volatility from after the cutoff.
  pub record IsFrom (snapshot : MarketSnapshot F) (s : AgentSignal F) : Type 0 where
    pub symbol : s.symbol ≡ snapshot.symbol
    pub timeframe : s.timeframe ≡ snapshot.timeframe
    pub source : s.source_snapshot_id ≡ snapshot.snapshot_id
    pub as_of : s.source_as_of ≡ snapshot.as_of
    pub generated : s.generated_at ≡ snapshot.observed_at
    pub alive : snapshot.observed_at ≤ s.expires_at
    pub observed : IsObserved snapshot s.volatility

  check_volatility-IsObserved :
      (snapshot : MarketSnapshot F) (o : Option (VolatilityObservation F)) (u : Unit {0})
      → check_volatility snapshot o ≡ ok u
      → IsObserved snapshot o
  unfolding check_volatility
  check_volatility-IsObserved snapshot none u h = tt
  check_volatility-IsObserved snapshot (some v) u h =
      ground (arith, eq_iff v.source_snapshot_id snapshot.snapshot_id)

  validate_signal_source-IsFrom :
      (snapshot : MarketSnapshot F) (s : AgentSignal F) (u : Unit {0})
      → validate_signal_source snapshot s ≡ ok u
      → IsFrom snapshot s
  unfolding validate_signal_source
  validate_signal_source-IsFrom snapshot s u h = ground (
    arith,
    eq_iff s.symbol snapshot.symbol,
    eq_iff s.timeframe snapshot.timeframe,
    eq_iff s.source_snapshot_id snapshot.snapshot_id,
    check_volatility-IsObserved snapshot s.volatility u,
  )

  each-IsFrom :
      (snapshot : MarketSnapshot F) (signals : List (AgentSignal F)) (u : Unit {0})
      → each (validate_signal_source snapshot) signals ≡ ok u
      → All (IsFrom snapshot) signals
  each-IsFrom snapshot [] u h = tt
  each-IsFrom snapshot (s ∷ signals) u h =
      let (v, one, rest) = >>=-eq-ok (validate_signal_source snapshot s) _ h in
      (validate_signal_source-IsFrom snapshot s v one, each-IsFrom snapshot signals u rest)

  earliest_expiry-le :
      (t : ℕ) (signals : List (AgentSignal F))
      → (earliest_expiry t signals ≤ t)
        × All (λ s. earliest_expiry t signals ≤ s.expires_at) signals
  earliest_expiry-le t [] = (omega arith, tt)
  earliest_expiry-le t (s ∷ signals) =
      let rest = earliest_expiry-le t signals in
      (omega (arith, rest.0), (omega arith, All-map _ _ signals (λ x h. omega (arith, h)) rest.1))

  -- The earliest expiry is that of one of the signals.
  earliest_expiry-Member :
      (first : AgentSignal F) (signals : List (AgentSignal F))
      → (s : AgentSignal F) × Member s (first ∷ signals)
        × (earliest_expiry first.expires_at signals ≡ s.expires_at)
  earliest_expiry-Member first [] = (first, inl refl, refl)
  earliest_expiry-Member first (t ∷ signals) =
      let (s, among, same) = earliest_expiry-Member first signals in
      elim (Bool-cases (leb t.expires_at (earliest_expiry first.expires_at signals))) [
        | inl earlier ↦ (t, inr (inl refl), ground arith)
        | inr later ↦ (
          s,
          elim among [ inl is_first ↦ inl is_first | inr further ↦ inr (inr further) ],
          ground (arith, same),
        )
      ]

module _ {F : Type 0} ⦃f : Float F⦄ (config : CouncilConfig F) where
  -- The intent that the votes give, told apart from the code that computes it.
  pub record IsIntent (votes : List (AgentSignal F)) (action : ActionIntent) (exposure : Option F)
      : Type 0 where
    pub abstains : (action ≡ abstain) ↔ (votes ≡ [])
    pub waits : (action ≡ no_action) ↔ (
        (votes ≢ [])
        × (all_explicitly_flat votes ≡ false)
        × (all_reduce_only votes ≡ false)
        × (((confidence_of config votes <? config.minimum_confidence) ≡ true)
            ⊎ ((f.abs (conviction_of config votes) <? config.minimum_conviction) ≡ true)))
    pub reduces :
        (action ≡ reduce_only)
        ↔ ((votes ≢ []) × (all (λ (s : AgentSignal F). is_reduce_only s.action) votes ≡ true))
    pub sized : is_some exposure ≡ is_actionable action
    pub exposed :
        (x : F)
        → exposure ≡ some x
        → x ≡ (if all_explicitly_flat votes then nought else conviction_of config votes)

  intent_of-IsIntent :
      (votes : List (AgentSignal F))
      → let (action, exposure) = intent_of config votes in IsIntent votes action exposure
  unfolding intent_of is_weak all_reduce_only
  intent_of-IsIntent [] = record {
    abstains = ground arith;
    waits = ground arith;
    reduces = ground arith;
    sized = refl;
    exposed = λ x h. absurd (cc);
  }
  intent_of-IsIntent (s ∷ votes) = record {
    abstains = ground arith;
    waits = ground arith;
    reduces = ground arith;
    sized = ground arith;
    exposed = λ x h. ground arith;
  }

  module _
      (decision_id : MarketSnapshot F → List (AgentSignal F) → ActionIntent → Option F → String)
      (snapshot : MarketSnapshot F) where
    -- What a decision says of the signals that were given.
    pub record IsDecision (signals : List (AgentSignal F)) (d : CouncilDecision F) : Type 0 where
      pub same_signals : Permᴰ d.signals signals
      pub unique : has_unique_texts (map (λ (s : AgentSignal F). s.agent_id) d.signals) ≡ true
      pub sourced : All (IsFrom snapshot) d.signals
      pub market : (d.symbol ≡ snapshot.symbol) × (d.timeframe ≡ snapshot.timeframe)
      pub source : (d.source_snapshot_id ≡ snapshot.snapshot_id) × (d.source_as_of ≡ snapshot.as_of)
      pub decided : d.decided_at ≡ snapshot.observed_at
      pub expires : All (λ (s : AgentSignal F). d.expires_at ≤ s.expires_at) d.signals
      pub first_expired : (s : AgentSignal F) × Member s d.signals × (d.expires_at ≡ s.expires_at)
      pub alive : d.decided_at ≤ d.expires_at
      pub intent : IsIntent (select is_vote d.signals) d.action d.target_exposure

    decide_sorted-IsDecision :
        (signals sorted : List (AgentSignal F)) (d : CouncilDecision F)
        → Permᴰ sorted signals
        → decide_sorted config decision_id snapshot sorted ≡ ok d
        → IsDecision signals d
    unfolding decide
    decide_sorted-IsDecision signals [] d p h = absurd (cc)
    decide_sorted-IsDecision signals (s ∷ others) d p h =
        let (_, u, h1) =
          >>=-eq-ok
            (guard (has_unique_texts (map (λ (s : AgentSignal F). s.agent_id) (s ∷ others)))
              duplicate_agents)
            _ h in
        let (v, e, h2) = >>=-eq-ok (each (validate_signal_source snapshot) (s ∷ others)) _ h1 in
        let (same, alive) = validate_decision-eq-ok _ d h2 in
        subst (IsDecision signals) (sym same) (record {
          same_signals = p;
          unique = guard-eq-ok _ _ _ u;
          sourced = each-IsFrom snapshot (s ∷ others) v e;
          market = (refl, refl);
          source = (refl, refl);
          decided = refl;
          expires = earliest_expiry-le s.expires_at others;
          first_expired = earliest_expiry-Member s others;
          alive = alive;
          intent = intent_of-IsIntent (select is_vote (s ∷ others));
        })

    -- A decision is on the signals that were given, each from an agent of its own and each bound to the
    -- snapshot; it names the snapshot, expires exactly when the first of them does, and not before it is
    -- made; it abstains just if no signal votes, waits just if the votes are weak, only reduces just if
    -- they all do, has an exposure just if it is actionable, and then the weighted one, or zero if all
    -- votes are flat.
    pub aggregate-IsDecision :
        (signals : List (AgentSignal F)) (d : CouncilDecision F)
        → aggregate config decision_id snapshot signals ≡ ok d
        → IsDecision signals d
    unfolding aggregate
    aggregate-IsDecision signals d h =
        decide_sorted-IsDecision signals (sort_by (λ s. s.agent_id) signals) d
          (sort_by-perm (λ (s : AgentSignal F). s.agent_id) signals) h
