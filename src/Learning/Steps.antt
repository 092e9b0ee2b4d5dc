-- ===== src/Learning/Steps.antt =====
-- The changes that the librarian proposes are bounded steps of a profile's entries.
use mathlib.Core.Path.{subst}
use the_council.Prelude.{
  ◌≡◌, refl, sym, ap, ◌∙◌, inl, inr, ℕ, ◌≤◌, Bool, true, false, List, [], ◌∷◌, some, String, ltb,
  Member, All-append, All-map, length, All, Bool-cases, arith,
}
use the_council.Floats.{Float, nought, nonneg_finite, unit_float, ◌⊕◌, ◌⊖◌, ◌⊗◌, ◌<?◌, ◌≤?◌}
use the_council.Floats.Laws.{IsIeee}
use the_council.Result.{ok, guard, invalid_field, >>=-eq-ok, guard-eq-ok, ok-injective}
use the_council.Experience.Models.{ExperienceEpisode}
use the_council.Learning.Scopes.{
  WeightScope, AdaptiveWeight, ScopedAgentWeight, same_scope, same_weight, validate_weight,
}
use the_council.Learning.Models.{WeightChange, LibrarianConfig, validate_change}
use the_council.Learning.Verdicts.{length-correctness}
use the_council.Learning.Librarian.{
  correctness, accuracy_of, bounded_move, confidence_of, delta_of, moved, stepped, change_of,
  change_if, consider, changes_for,
}

module _ {F : Type 0} ⦃f : Float F⦄ where
  -- A weight that lies within a step of another, on either side.
  abbrev pub IsWithin : F → F → F → Type 0
  IsWithin step current x = ((current ⊕ step <? x) ≡ false) × ((x <? current ⊖ step) ≡ false)

  lt_irrefl : IsIeee F → (x : F) → (x <? x) ≡ false
  lt_irrefl laws x = ground (arith, laws.lt_asym x x)

  bounded_move-IsWithin :
      (config : LibrarianConfig F) (current target step : F)
      → IsIeee F
      → (nought ≤? step) ≡ true
      → IsWithin step current (bounded_move config current target step)
  unfolding bounded_move
  bounded_move-IsWithin config current target step laws positive =
      let low = current ⊖ step in
      let high = current ⊕ step in
      ground (
        arith,
        laws.not-add-lt-sub current step,
        lt_irrefl laws low,
        lt_irrefl laws high,
        laws.lt_asym low high,
        laws.lt_asym low target,
        laws.lt_asym target high,
      )

  -- A change of an entry that rests on a list of verdicts, right or wrong, of the agent's signals: from the
  -- entry's weight to the one that the verdicts call for, by bounded steps, on enough samples.
  pub record IsStep (config : LibrarianConfig F) (verdicts : List Bool)
      (entry : ScopedAgentWeight F) (c : WeightChange F) : Type 0 where
    pub agent : c.agent_id ≡ entry.agent_id
    pub scope : c.scope ≡ entry.scope
    pub current : c.current ≡ entry.weight
    pub mix : c.proposed.recent_mix ≡ entry.weight.recent_mix
    pub long_term :
        IsWithin
          (config.maximum_weight_delta ⊗ c.confidence)
          entry.weight.long_term
          c.proposed.long_term
    pub recent :
        IsWithin (config.maximum_weight_delta ⊗ c.confidence) entry.weight.recent c.proposed.recent
    pub samples : config.minimum_samples ≤ c.sample_count
    pub counted : c.sample_count ≡ length verdicts
    pub accuracy : c.long_term_accuracy ≡ some (accuracy_of config verdicts)
    pub confidence : c.confidence ≡ confidence_of config (length verdicts)
    pub computed : c.proposed ≡ moved config entry.weight verdicts

  validate_weight-eq-ok : (w v : AdaptiveWeight F) → validate_weight w ≡ ok v → v ≡ w
  unfolding validate_weight
  validate_weight-eq-ok w v h = ground arith

  validate_change-eq-ok :
      (c d : WeightChange F) → validate_change c ≡ ok d → (d ≡ c) × (unit_float c.confidence ≡ true)
  unfolding validate_change
  validate_change-eq-ok c d h =
      let (u, unit_confidence, rest) =
        >>=-eq-ok (guard (unit_float c.confidence) invalid_field) _ h in
      (ground arith, guard-eq-ok (unit_float c.confidence) invalid_field u unit_confidence)

  -- The change of one entry, if there is one.
  abbrev AreSteps :
      LibrarianConfig F → List Bool → ScopedAgentWeight F → List (WeightChange F) → Type 0
  AreSteps config verdicts entry changes = All (IsStep config verdicts entry) changes

  stepped-IsStep :
      (config : LibrarianConfig F) (describe : ℕ → ℕ → F → String) (entry : ScopedAgentWeight F)
      (values : List Bool)
      → IsIeee F
      → nonneg_finite config.maximum_weight_delta ≡ true
      → unit_float (confidence_of config (length values)) ≡ true
      → ltb (length values) config.minimum_samples ≡ false
      → IsStep config values entry
          (stepped config describe entry values (moved config entry.weight values))
  stepped-IsStep config describe entry values laws positive confident enough =
      let step = delta_of config (length values) in
      let forward : (nought ≤? step) ≡ true =
        laws.nonneg_mul config.maximum_weight_delta (confidence_of config (length values)) positive
          (ground arith) in
      record {
        agent = refl;
        scope = refl;
        current = refl;
        mix = refl;
        long_term = bounded_move-IsWithin config entry.weight.long_term _ step laws forward;
        recent = bounded_move-IsWithin config entry.weight.recent _ step laws forward;
        samples = ground arith;
        counted = refl;
        accuracy = refl;
        confidence = refl;
        computed = refl;
      }

  change_of-AreSteps :
      (config : LibrarianConfig F) (describe : ℕ → ℕ → F → String) (entry : ScopedAgentWeight F)
      (values : List Bool) (changes : List (WeightChange F))
      → IsIeee F
      → nonneg_finite config.maximum_weight_delta ≡ true
      → ltb (length values) config.minimum_samples ≡ false
      → change_of config describe entry values ≡ ok changes
      → AreSteps config values entry changes
  unfolding change_of
  change_of-AreSteps config describe entry values changes laws positive enough h =
      let (proposed, weighed, rest) =
        >>=-eq-ok (validate_weight (moved config entry.weight values)) _ h in
      elim (Bool-cases (same_weight proposed entry.weight)) [
        | inl unchanged ↦
            subst (AreSteps config values entry) (ok-injective (rw unchanged at rest)) tt
        | inr differs ↦
            let (change, valid, last) =
              >>=-eq-ok (validate_change (stepped config describe entry values proposed)) _
                (rw differs at rest) in
            let (same, unit_confidence) =
              validate_change-eq-ok (stepped config describe entry values proposed) change valid in
            let step =
              stepped-IsStep config describe entry values laws positive unit_confidence enough in
            subst (AreSteps config values entry) (ok-injective last) (
              subst (IsStep config values entry)
                  (ap (stepped config describe entry values)
                      (sym (validate_weight-eq-ok _ proposed weighed))
                    ∙ sym same)
                  step,
              tt,
            )
      ]

  -- Each change is a step of an entry of the scope, on the verdicts of its agent over the episodes, at most
  -- one for each of them.
  abbrev pub IsChangeOf :
      LibrarianConfig F
      → WeightScope
      → List (ExperienceEpisode F)
      → List (ScopedAgentWeight F)
      → WeightChange F
      → Type 0
  IsChangeOf config scope eligible entries c =
      (entry : ScopedAgentWeight F) × (verdicts : List Bool) × Member entry entries
      × (same_scope entry.scope scope ≡ true)
      × (correctness entry.agent_id scope eligible ≡ ok verdicts)
      × (length verdicts ≤ length eligible)
      × IsStep config verdicts entry c

  module _ (config : LibrarianConfig F) (describe : ℕ → ℕ → F → String) (laws : IsIeee F)
      (positive : nonneg_finite config.maximum_weight_delta ≡ true) (scope : WeightScope)
      (eligible : List (ExperienceEpisode F)) where
    change_if-AreSteps :
        (entry : ScopedAgentWeight F) (values : List Bool) (changes : List (WeightChange F))
        (few : Bool)
        → ltb (length values) config.minimum_samples ≡ few
        → change_if config describe few (change_of config describe entry values) ≡ ok changes
        → AreSteps config values entry changes
    change_if-AreSteps entry values changes true t h =
        subst (AreSteps config values entry) (ok-injective h) tt
    change_if-AreSteps entry values changes false t h =
        change_of-AreSteps config describe entry values changes laws positive t h

    consider-AreChanges :
        (entry : ScopedAgentWeight F) (entries : List (ScopedAgentWeight F))
        (changes : List (WeightChange F))
        → same_scope entry.scope scope ≡ true
        → consider config describe scope eligible entry ≡ ok changes
        → All (IsChangeOf config scope eligible (entry ∷ entries)) changes
    unfolding consider
    consider-AreChanges entry entries changes asked h =
        let (values, judged, rest) = >>=-eq-ok (correctness entry.agent_id scope eligible) _ h in
        All-map (IsStep config values entry) _ changes
          (λ c step. (
            entry,
            values,
            inl refl,
            asked,
            judged,
            length-correctness entry.agent_id scope eligible values judged,
            step,
          ))
          (change_if-AreSteps entry values changes (ltb (length values) config.minimum_samples) refl
            rest)

    pub changes_for-AreSteps :
        (entries : List (ScopedAgentWeight F)) (changes : List (WeightChange F))
        → changes_for config describe scope eligible entries ≡ ok changes
        → All (IsChangeOf config scope eligible entries) changes
    unfolding changes_for
    changes_for-AreSteps [] changes h =
        subst (All (IsChangeOf config scope eligible [])) (ok-injective h) tt
    changes_for-AreSteps (entry ∷ entries) changes h =
        let further : (c : WeightChange F)
            → IsChangeOf config scope eligible entries c
            → IsChangeOf config scope eligible (entry ∷ entries) c =
          λ c i. (i.0, i.1, inr i.2, i.3, i.4, i.5, i.6) in
        elim (Bool-cases (same_scope entry.scope scope)) [
          | inl asked ↦
              let (mine, considered, rest) =
                >>=-eq-ok (consider config describe scope eligible entry) _ (rw asked at h) in
              let (others, more, last) =
                >>=-eq-ok (changes_for config describe scope eligible entries) _ rest in
              subst (All (IsChangeOf config scope eligible (entry ∷ entries))) (ok-injective last) (
                All-append _ mine others (consider-AreChanges entry entries mine asked considered)
                  (All-map _ _ others further (changes_for-AreSteps entries others more)))
          | inr other ↦
              All-map _ _ changes further (changes_for-AreSteps entries changes (rw other at h))
        ]
