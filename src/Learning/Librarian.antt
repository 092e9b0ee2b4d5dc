-- ===== src/Learning/Librarian.antt =====
-- learning/librarian.py: the proposal of new weights from the outcomes of past episodes.
use the_council.Prelude.{
  ℕ, ◌+◌, ◌-◌, Bool, true, false, ◌&&◌, if◌then◌else◌, Option, none, some, List, [], ◌∷◌, ◌++◌,
  String, ◌==◌, eqb, ltb, any, select, length, map,
}
use the_council.Floats.{Float, nought, of_nat, fmin, fmax, ◌⊕◌, ◌⊖◌, ◌⊗◌, ◌⊘◌}
use the_council.Datetime.{Datetime, utc, repeat_span}
use the_council.Result.{Result, ok, err, ◌>>=◌, raised}
use the_council.Schemas.Enums.{Direction, short, flat, long, is_alpha, is_valid}
use the_council.Schemas.Signal.{AgentSignal}
use the_council.Risk.Restrictions.{drop}
use the_council.Agents.{timeframe_delta}
use the_council.Experience.Models.{ExperienceEpisode, OutcomeTruth}
use the_council.Learning.Scopes.{
  WeightScope, AdaptiveWeight, ScopedAgentWeight, same_scope, same_text, same_weight,
  validate_weight,
}
use the_council.Learning.Models.{
  learning_schema_version, WeightProfile, WeightChange, WeightProposal, LibrarianConfig,
  validate_change, validate_proposal,
}
use the_council.Learning.Trials.{independent_trials}

abbrev wants : Option String → Option String → Bool
wants none value = true
wants (some a) value = same_text value (some a)

abbrev same_direction : Direction → Option Direction → Bool
same_direction short (some short) = true
same_direction flat (some flat) = true
same_direction long (some long) = true
same_direction _ _ = false

abbrev wants_horizon : Option ℕ → ℕ → Bool
wants_horizon none bars = true
wants_horizon (some n) bars = eqb bars n

abbrev count_true : List Bool → ℕ
count_true [] = 0
count_true (true ∷ bs) = 1 + count_true bs
count_true (false ∷ bs) = count_true bs

-- `values[-n:]` for a positive n.
abbrev last_of : ℕ → List Bool → List Bool
last_of n values = drop (length values - n) values

abbrev pub joined_changes : {A : Type 0} → Result (List A) → Result (List A) → Result (List A)
joined_changes first rest = do xs ← first; ys ← rest; ok (xs ++ ys)

module _ {F : Type 0} where
  abbrev has_horizon : Option ℕ → List (AgentSignal F) → Bool
  has_horizon none outputs = true
  has_horizon (some n) outputs = any (λ (s : AgentSignal F). eqb s.horizon_bars n) outputs

  -- `_episode_matches`.
  unfoldable pub episode_matches : WeightScope → ExperienceEpisode F → Bool
  episode_matches scope e =
      wants scope.asset_class e.evidence.asset_class
      && wants scope.symbol (some e.evidence.symbol)
      && wants scope.regime e.evidence.regime
      && has_horizon scope.horizon_bars e.evidence.specialist_outputs

  -- What an episode must be to train on, by the cutoff.
  abbrev pub known_before : ℕ → Option (OutcomeTruth F) → Bool
  known_before cutoff none = false
  known_before cutoff (some t) = ltb t.available_at cutoff

  abbrev pub is_eligible : WeightScope → ℕ → ExperienceEpisode F → Bool
  is_eligible scope cutoff e =
      known_before cutoff e.truth
      && ltb e.evidence.decision_timestamp cutoff
      && episode_matches scope e

  -- What a signal must be for an agent to be judged by it, up to the length of its horizon.
  abbrev pub is_candidate : String → WeightScope → AgentSignal F → Bool
  is_candidate agent scope s =
      s.agent_id == agent
      && is_alpha s.signal_type
      && is_valid s.validity
      && wants_horizon scope.horizon_bars s.horizon_bars

  -- `s.horizon_bars * delta == horizon_end - evaluation_time`.
  abbrev pub spans : OutcomeTruth F → ℕ → Bool
  spans t span = eqb (span + t.oracle_outcome.evaluation_time) t.oracle_outcome.horizon_end

  abbrev pub chosen_signal :
      Bool
      → Result ℕ
      → OutcomeTruth F
      → AgentSignal F
      → Result (Option (AgentSignal F))
      → Result (Option (AgentSignal F))
  chosen_signal false delta t s rest = rest
  chosen_signal true delta t s rest = do
    d ← delta
    span ← repeat_span s.horizon_bars d
    if spans t span then ok (some s) else rest

  -- `next(..., None)` over the outputs of an episode.
  abbrev pub judged_signal :
      String
      → WeightScope
      → String
      → OutcomeTruth F
      → List (AgentSignal F)
      → Result (Option (AgentSignal F))
  judged_signal agent scope timeframe t [] = ok none
  judged_signal agent scope timeframe t (s ∷ outputs) =
      let rest = judged_signal agent scope timeframe t outputs in
      chosen_signal (is_candidate agent scope s) (timeframe_delta timeframe) t s rest

  abbrev pub judge : OutcomeTruth F → Option (AgentSignal F) → List Bool
  judge t none = []
  judge t (some s) = same_direction s.forecast_direction t.oracle_outcome.realized_direction ∷ []

  abbrev pub correctness_of :
      String → WeightScope → ExperienceEpisode F → Option (OutcomeTruth F) → Result (List Bool)
  correctness_of agent scope e none = err (raised "AssertionError")
  correctness_of agent scope e (some t) = do
    signal ← judged_signal agent scope e.evidence.timeframe t e.evidence.specialist_outputs
    ok (judge t signal)

  -- The loop over the eligible episodes.
  unfoldable pub correctness :
      String → WeightScope → List (ExperienceEpisode F) → Result (List Bool)
  correctness agent scope [] = ok []
  correctness agent scope (e ∷ eligible) = do
    first ← correctness_of agent scope e e.truth
    others ← correctness agent scope eligible
    ok (first ++ others)

module _ {F : Type 0} ⦃f : Float F⦄ (config : LibrarianConfig F) where
  unfoldable pub target_weight : F → F
  target_weight accuracy = fmax nought (
      fmin (of_nat 4) (
        config.target_weight_at_random
        ⊕ (accuracy ⊖ f.scientific 5 1) ⊗ config.accuracy_weight_slope))

  unfoldable pub bounded_move : F → F → F → F
  bounded_move current target maximum_delta =
      fmax (current ⊖ maximum_delta) (fmin (current ⊕ maximum_delta) target)

  abbrev pub accuracy_of : List Bool → F
  accuracy_of values = of_nat (count_true values) ⊘ of_nat (length values)

  abbrev pub confidence_of : ℕ → F
  confidence_of samples = fmin (of_nat 1) (of_nat samples ⊘ of_nat config.full_confidence_samples)

  abbrev pub delta_of : ℕ → F
  delta_of samples = config.maximum_weight_delta ⊗ confidence_of samples

  abbrev pub moved : AdaptiveWeight F → List Bool → AdaptiveWeight F
  moved weight values = record {
    long_term =
        bounded_move weight.long_term (target_weight (accuracy_of values))
          (delta_of (length values));
    recent =
        bounded_move weight.recent
          (target_weight (accuracy_of (last_of config.recent_window values)))
          (delta_of (length values));
    recent_mix = weight.recent_mix;
  }

  module _ (describe : ℕ → ℕ → F → String) where
    -- The change of an entry; `describe` renders its reason.
    abbrev pub stepped : ScopedAgentWeight F → List Bool → AdaptiveWeight F → WeightChange F
    stepped entry values proposed = record {
      agent_id = entry.agent_id;
      scope = entry.scope;
      current = entry.weight;
      proposed = proposed;
      sample_count = length values;
      confidence = confidence_of (length values);
      long_term_accuracy = some (accuracy_of values);
      recent_accuracy = some (accuracy_of (last_of config.recent_window values));
      reason = describe (count_true values) (length values) (delta_of (length values));
    }

    -- What is made of enough samples.
    unfoldable pub change_of : ScopedAgentWeight F → List Bool → Result (List (WeightChange F))
    change_of entry values = do
      proposed ← validate_weight (moved entry.weight values)
      if same_weight proposed entry.weight
          then ok []
          else do change ← validate_change (stepped entry values proposed); ok (change ∷ [])

    abbrev pub change_if : Bool → Result (List (WeightChange F)) → Result (List (WeightChange F))
    change_if true call = ok []
    change_if false call = call

    unfoldable pub consider :
        WeightScope
        → List (ExperienceEpisode F)
        → ScopedAgentWeight F
        → Result (List (WeightChange F))
    consider scope eligible entry = do
      values ← correctness entry.agent_id scope eligible
      change_if (ltb (length values) config.minimum_samples) (change_of entry values)

    -- The loop over the profile's entries of the scope.
    unfoldable pub changes_for :
        WeightScope
        → List (ExperienceEpisode F)
        → List (ScopedAgentWeight F)
        → Result (List (WeightChange F))
    changes_for scope eligible [] = ok []
    changes_for scope eligible (entry ∷ entries) =
        let rest = changes_for scope eligible entries in
        if same_scope entry.scope scope
        then joined_changes (consider scope eligible entry) rest
        else rest

    abbrev pub eligible_for :
        WeightScope → ℕ → List (ExperienceEpisode F) → List (ExperienceEpisode F)
    eligible_for scope cutoff episodes =
        independent_trials (select (is_eligible scope cutoff) episodes)

    unfoldable pub propose :
        (identity : WeightProposal F → String)
        → WeightProfile F
        → List (ExperienceEpisode F)
        → WeightScope
        → (training_cutoff created_at : Datetime) → Result (WeightProposal F)
    propose identity profile episodes scope training_cutoff created_at = do
      cutoff ← utc training_cutoff
      created ← utc created_at
      let eligible = eligible_for scope cutoff episodes
      changes ← changes_for scope eligible profile.entries
      validate_proposal identity (record {
        schema_version = learning_schema_version;
        proposal_id = "";
        base_generation_id = profile.generation_id;
        created_at = created;
        training_cutoff = cutoff;
        training_episode_ids = map (λ (e : ExperienceEpisode F). e.episode_id) eligible;
        training_equivalence_ids = map (λ (e : ExperienceEpisode F). e.equivalence_id) eligible;
        changes = changes;
        librarian_version = "librarian-v1";
      })
