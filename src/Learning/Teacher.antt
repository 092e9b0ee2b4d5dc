-- ===== src/Learning/Teacher.antt =====
-- `Teacher.evaluate` of learning/teacher.py: the judgement of a proposal on episodes that it was not made of.
use the_council.Prelude.{
  ℕ, ◌+◌, Bool, false, not, ◌&&◌, ◌||◌, if◌then◌else◌, Option, none, some, List, [], ◌∷◌, String,
  ◌==◌, ltb, any, is_empty, length, map, mem_text,
}
use the_council.Floats.{Float, ◌⊕◌, ◌⊖◌, ◌<?◌, ◌≤?◌}
use the_council.Datetime.{Datetime, utc}
use the_council.Result.{
  Result, ok, ◌>>=◌, ◌>>◌, guard, refuse, wrong_base, evaluated_before_created,
  insufficient_held_out, training_overlap, held_out_too_early, unjudged_outcome, truth_unavailable,
}
use the_council.Schemas.Enums.{ActionIntent}
use the_council.Schemas.Market.{MarketSnapshot, is_some}
use the_council.Schemas.Signal.{AgentSignal}
use the_council.Experience.Models.{ExperienceEpisode, OutcomeTruth}
use the_council.Learning.Models.{
  WeightProfile, WeightProposal, WeightChange, EvaluationMetrics, TeacherConfig, TeacherResult,
  TeacherDecision, accept, reject, accept_reduced_update, validate_teacher_result,
  learning_schema_version,
}
use the_council.Learning.Trials.{independent_trials}
use the_council.Learning.Applied.{apply_changes, reduced_changes}
use the_council.Learning.Metrics.{evaluate_profile}

-- What the teacher uses of SHA-256.
pub record LearningIdentities (F : Type 0) : Type 0 where
  pub profile : WeightProfile F → String
  pub result : TeacherResult F → String
  pub decision : MarketSnapshot F → List (AgentSignal F) → ActionIntent → Option F → String

module _ {F : Type 0} where
  -- The equivalence identities of the training, or else its episode identities.
  abbrev pub training_identities : WeightProposal F → List String
  training_identities p =
      if is_empty p.training_equivalence_ids
      then p.training_episode_ids
      else p.training_equivalence_ids

  abbrev pub is_trained_on : WeightProposal F → ExperienceEpisode F → Bool
  is_trained_on p e =
      mem_text e.equivalence_id (training_identities p)
      || mem_text e.episode_id p.training_episode_ids

  abbrev pub is_after : ℕ → Option (OutcomeTruth F) → Bool
  is_after time none = false
  is_after time (some t) = ltb time t.available_at

  -- The refusals of `evaluate` before anything is computed.
  unfoldable pub check_held_out :
      TeacherConfig F
      → WeightProfile F
      → WeightProposal F
      → List (ExperienceEpisode F)
      → ℕ
      → Result (Unit {0})
  check_held_out config base p episodes evaluated = do
    guard (p.base_generation_id == base.generation_id) wrong_base
    refuse (ltb evaluated p.created_at) evaluated_before_created
    refuse (ltb (length episodes) config.minimum_held_out_episodes) insufficient_held_out
    refuse (any (is_trained_on p) episodes) training_overlap
    refuse
        (any (λ (e : ExperienceEpisode F). ltb e.evidence.decision_timestamp p.training_cutoff)
          episodes)
        held_out_too_early
    refuse (any (λ (e : ExperienceEpisode F). not (is_some e.truth)) episodes) unjudged_outcome
    refuse (any (λ (e : ExperienceEpisode F). is_after evaluated e.truth) episodes)
        truth_unavailable

-- A verdict: the decision, the changes that are accepted, the metrics it rests on, and the reason.
pub record Verdict (F : Type 0) : Type 0 where
  pub decision : TeacherDecision
  pub accepted : List (WeightChange F)
  pub proposed : EvaluationMetrics F
  pub reason : String

module _ {F : Type 0} ⦃f : Float F⦄ (config : TeacherConfig F) where
  -- `_passes` and `_rejection_reason`.
  unfoldable pub passes : EvaluationMetrics F → EvaluationMetrics F → Bool
  passes baseline proposed =
      baseline.score ⊕ config.minimum_score_improvement ≤? proposed.score
      && baseline.worst_slice_return ⊖ config.maximum_worst_slice_degradation
        ≤? proposed.worst_slice_return

  unfoldable pub rejection : EvaluationMetrics F → EvaluationMetrics F → String
  rejection baseline proposed =
      if proposed.worst_slice_return
        <? baseline.worst_slice_return ⊖ config.maximum_worst_slice_degradation
      then "Proposed profile caused excessive degradation in an older validation slice."
      else "Proposed profile did not improve the deterministic held-out score enough."

  module _ (identities : LearningIdentities F) (base : WeightProfile F)
      (episodes : List (ExperienceEpisode F)) (evaluated : ℕ) where
    -- The metrics of the base profile with changes.
    unfoldable pub metrics_with : List (WeightChange F) → Result (EvaluationMetrics F)
    metrics_with changes = do
      profile ←
          apply_changes identities.profile base changes evaluated config.scoring_version
            (base.generation + 1)
      evaluate_profile identities.decision profile episodes config

    -- The half-sized update, or the rejection.
    unfoldable pub reduced_verdict :
        EvaluationMetrics F → EvaluationMetrics F → List (WeightChange F) → Result (Verdict F)
    reduced_verdict baseline proposed changes = do
      reduced ← reduced_changes changes
      metrics ← metrics_with reduced
      ok (
          if not (is_empty reduced) && passes baseline metrics
          then record {
            decision = accept_reduced_update;
            accepted = reduced;
            proposed = metrics;
            reason = "Full update failed held-out criteria; half-sized update passed.";
          }
          else record {
            decision = reject;
            accepted = [];
            proposed = proposed;
            reason = rejection baseline proposed;
          })

    unfoldable pub verdict : EvaluationMetrics F → List (WeightChange F) → Result (Verdict F)
    verdict baseline changes = do
      proposed ← metrics_with changes
      let reduced = reduced_verdict baseline proposed changes
      if passes baseline proposed && not (is_empty changes)
          then ok (record {
            decision = accept;
            accepted = changes;
            proposed = proposed;
            reason = "Proposed profile improved held-out score within robustness bounds.";
          })
          else reduced

  unfoldable pub evaluate_proposal :
      LearningIdentities F
      → WeightProfile F
      → WeightProposal F
      → List (ExperienceEpisode F)
      → Datetime
      → Result (TeacherResult F)
  evaluate_proposal identities base p held_out evaluated_at = do
    evaluated ← utc evaluated_at
    let episodes = independent_trials held_out
    check_held_out config base p episodes evaluated
    baseline ← evaluate_profile identities.decision base episodes config
    refuse (ltb baseline.episode_count config.minimum_held_out_episodes) insufficient_held_out
    v ← verdict identities base episodes evaluated baseline p.changes
    validate_teacher_result identities.result (record {
      schema_version = learning_schema_version;
      result_id = "";
      decision = v.decision;
      base_generation_id = base.generation_id;
      proposal_id = p.proposal_id;
      held_out_episode_ids = map (λ (e : ExperienceEpisode F). e.episode_id) episodes;
      comparison = record { baseline = baseline; proposed = v.proposed };
      accepted_changes = v.accepted;
      reasons = v.reason ∷ [];
      evaluated_at = evaluated;
      teacher_version = "teacher-v1";
      scoring_version = config.scoring_version;
    })
