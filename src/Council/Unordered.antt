-- ===== src/Council/Unordered.antt =====
-- The order in which signals arrive does not count.
use mathlib.Core.List.{Permᴰ}
use the_council.Prelude.{
  ◌≡◌, ap, ◌∙◌, sym, false, Option, List, [], ◌∷◌, map, String, has_unique_texts, inl, inr,
  Bool-cases,
}
use the_council.Prelude.Sort.{sort_by}
use the_council.Prelude.Sort.Permuted.{sort-perm, sort_by-perm, unique-perm}
use the_council.Floats.{Float}
use the_council.Result.{err, duplicate_agents}
use the_council.Schemas.Enums.{ActionIntent}
use the_council.Schemas.Market.{MarketSnapshot}
use the_council.Schemas.Signal.{AgentSignal}
use the_council.Council.Aggregator.{CouncilConfig, decide_sorted, aggregate}

module _ {F : Type 0} ⦃f : Float F⦄ (config : CouncilConfig F)
    (decision_id : MarketSnapshot F → List (AgentSignal F) → ActionIntent → Option F → String)
    (snapshot : MarketSnapshot F) where
  abbrev agent : AgentSignal F → String
  agent s = s.agent_id

  decide_sorted_duplicates :
      (signals : List (AgentSignal F))
      → has_unique_texts (map agent signals) ≡ false
      → decide_sorted config decision_id snapshot signals ≡ err duplicate_agents
  decide_sorted_duplicates [] h = absurd (cc)
  decide_sorted_duplicates (s ∷ signals) h = rw h

  -- A round in which an agent speaks twice is refused for that reason.
  pub aggregate_duplicates :
      (signals : List (AgentSignal F))
      → has_unique_texts (map agent signals) ≡ false
      → aggregate config decision_id snapshot signals ≡ err duplicate_agents
  unfolding aggregate
  aggregate_duplicates signals h =
      decide_sorted_duplicates (sort_by agent signals)
        (unique-perm agent (sort_by-perm agent signals) ∙ h)

  -- The council decides the same, or raises the same, in whatever order the signals are given.
  pub aggregate_unordered :
      (signals others : List (AgentSignal F))
      → Permᴰ signals others
      → aggregate config decision_id snapshot signals ≡ aggregate config decision_id snapshot others
  aggregate_unordered signals others p = elim (Bool-cases (has_unique_texts (map agent signals))) [
    | inl u ↦
        unfold aggregate in ap (decide_sorted config decision_id snapshot) (sort-perm agent p u)
    | inr h ↦
        aggregate_duplicates signals h
        ∙ sym (aggregate_duplicates others (sym (unique-perm agent p) ∙ h))
  ]
