-- ===== src/Learning/Models.antt =====
-- The contracts of learning/models.py. The SHA-256 identities are parameters; they are of the fields
-- without the identity.
use the_council.Prelude.{
  ℕ, Bool, true, false, not, ◌&&◌, ◌||◌, if◌then◌else◌, Option, List, [], ◌∷◌, String, ◌==◌, ltb,
  any, all, map, is_empty, has_unique_texts,
}
use Prim.Native.String.{◌++◌}
use the_council.Floats.{Float, nought, of_nat, ◌≤?◌, ◌<?◌, unit_float, opt_all, nonneg_finite}
use the_council.Prelude.Digits.{padded, decimal}
use the_council.Dict.{Dict, keys}
use the_council.Result.{
  Result, ok, ◌>>◌, guard, refuse, invalid_field, learning_schema, generation_mismatch,
  duplicate_entries, entries_required, profile_identity, proposal_before_cutoff, duplicate_training,
  duplicate_changes, proposal_identity, accepted_mismatch, duplicate_held_out, result_identity,
  result_of_another, different_bases, confidence_samples, metric_weights_incomplete,
}
use the_council.Schemas.Market.{same}
use the_council.Learning.Scopes.{WeightScope, AdaptiveWeight, ScopedAgentWeight, same_scope}

pub record WeightProfile (F : Type 0) : Type 0 where
  pub schema_version : String
  pub generation : ℕ
  pub generation_id : String
  pub parent_generation_id : Option String
  pub created_at : ℕ
  pub entries : List (ScopedAgentWeight F)
  pub scoring_version : String
  pub profile_id : String

pub record WeightChange (F : Type 0) : Type 0 where
  pub agent_id : String
  pub scope : WeightScope
  pub current : AdaptiveWeight F
  pub proposed : AdaptiveWeight F
  pub sample_count : ℕ
  pub confidence : F
  pub long_term_accuracy : Option F
  pub recent_accuracy : Option F
  pub reason : String

pub record WeightProposal (F : Type 0) : Type 0 where
  pub schema_version : String
  pub proposal_id : String
  pub base_generation_id : String
  pub created_at : ℕ
  pub training_cutoff : ℕ
  pub training_episode_ids : List String
  pub training_equivalence_ids : List String
  pub changes : List (WeightChange F)
  pub librarian_version : String

pub record EvaluationMetrics (F : Type 0) : Type 0 where
  pub episode_count : ℕ
  pub total_return : F
  pub benchmark_relative_return : F
  pub maximum_drawdown : F
  pub hit_rate : F
  pub mean_calibration_error : F
  pub risk_adjusted_return : F
  pub turnover : F
  pub cost_adjusted_return : F
  pub worst_slice_return : F
  pub score : F

pub record MetricComparison (F : Type 0) : Type 0 where
  pub baseline : EvaluationMetrics F
  pub proposed : EvaluationMetrics F

pub data TeacherDecision : Type 0 where
  accept reject accept_reduced_update : TeacherDecision

abbrev pub is_reject : TeacherDecision → Bool
is_reject accept = false
is_reject reject = true
is_reject accept_reduced_update = false

pub record TeacherResult (F : Type 0) : Type 0 where
  pub schema_version : String
  pub result_id : String
  pub decision : TeacherDecision
  pub base_generation_id : String
  pub proposal_id : String
  pub held_out_episode_ids : List String
  pub comparison : MetricComparison F
  pub accepted_changes : List (WeightChange F)
  pub reasons : List String
  pub evaluated_at : ℕ
  pub teacher_version : String
  pub scoring_version : String

pub record LearningReview (F : Type 0) : Type 0 where
  pub proposal : WeightProposal F
  pub result : TeacherResult F

pub record LibrarianConfig (F : Type 0) : Type 0 where
  pub maximum_weight_delta : F
  pub minimum_samples : ℕ
  pub full_confidence_samples : ℕ
  pub recent_window : ℕ
  pub target_weight_at_random : F
  pub accuracy_weight_slope : F

pub record TeacherConfig (F : Type 0) : Type 0 where
  pub scoring_version : String
  pub minimum_held_out_episodes : ℕ
  pub minimum_score_improvement : F
  pub maximum_worst_slice_degradation : F
  pub turnover_cost_bps : F
  pub metric_weights : Dict F

abbrev pub learning_schema_version : String
learning_schema_version = "1.0"

-- `f"weights-v{generation:04d}"`: at least four digits.
unfoldable pub generation_name : ℕ → String
generation_name n = "weights-v" ++ (if ltb n 10_000 then padded 4 n else decimal n)

-- Agents with their scopes, each pair once.
abbrev pub has_unique_entries : List (String × WeightScope) → Bool
has_unique_entries [] = true
has_unique_entries ((agent, scope) ∷ entries) =
    not (any (λ (e : String × WeightScope). e.0 == agent && same_scope e.1 scope) entries)
    && has_unique_entries entries

abbrev metric_names : List String
metric_names =
    "total_return" ∷ "benchmark_relative_return" ∷ "maximum_drawdown" ∷ "hit_rate"
    ∷ "mean_calibration_error" ∷ "risk_adjusted_return" ∷ "cost_adjusted_return"
    ∷ "worst_slice_return" ∷ []

abbrev covers : List String → List String → Bool
covers as_ bs = all (λ a. any (λ b. a == b) bs) as_

module _ {F : Type 0} ⦃f : Float F⦄ where
  -- The field constraints of a change and of metrics.
  abbrev between : F → F → F → Bool
  between low high x = low ≤? x && x ≤? high

  abbrev is_unit : F → Bool
  is_unit x = between nought (of_nat 1) x

  unfoldable pub validate_change : WeightChange F → Result (WeightChange F)
  validate_change c = do
    guard (unit_float c.confidence) invalid_field
    guard (opt_all is_unit c.long_term_accuracy && opt_all is_unit c.recent_accuracy) invalid_field
    ok c

  unfoldable pub validate_metrics : EvaluationMetrics F → Result (EvaluationMetrics F)
  validate_metrics m = do
    guard
        (f.is_finite m.total_return
          && f.is_finite m.benchmark_relative_return
          && nonneg_finite m.maximum_drawdown
          && unit_float m.hit_rate
          && unit_float m.mean_calibration_error
          && f.is_finite m.risk_adjusted_return
          && nonneg_finite m.turnover
          && f.is_finite m.cost_adjusted_return
          && f.is_finite m.worst_slice_return
          && f.is_finite m.score)
        invalid_field
    ok m

  -- `LibrarianConfig`, its constraints and its validator.
  unfoldable pub validate_librarian : LibrarianConfig F → Result (LibrarianConfig F)
  validate_librarian c = do
    guard
        (nought <? c.maximum_weight_delta
          && c.maximum_weight_delta ≤? f.scientific 5 1
          && ltb 1 c.minimum_samples
          && ltb 1 c.full_confidence_samples
          && ltb 1 c.recent_window
          && between nought (of_nat 4) c.target_weight_at_random
          && nought <? c.accuracy_weight_slope
          && c.accuracy_weight_slope ≤? of_nat 2)
        invalid_field
    refuse (ltb c.full_confidence_samples c.minimum_samples) confidence_samples
    ok c

  -- `TeacherConfig`, its constraints and `validate_weights`.
  unfoldable pub validate_teacher : TeacherConfig F → Result (TeacherConfig F)
  validate_teacher c = do
    guard
        (ltb 1 c.minimum_held_out_episodes
          && nought ≤? c.minimum_score_improvement
          && nought ≤? c.maximum_worst_slice_degradation
          && between nought (of_nat 10_000) c.turnover_cost_bps)
        invalid_field
    guard
        (covers metric_names (keys c.metric_weights)
          && covers (keys c.metric_weights) metric_names
          && all (λ (e : String × F). f.is_finite e.1) c.metric_weights)
        metric_weights_incomplete
    ok c

module _ {F : Type 0} where
  unfoldable pub validate_profile :
      (identity : WeightProfile F → String) → WeightProfile F → Result (WeightProfile F)
  validate_profile identity p = do
    guard (p.schema_version == learning_schema_version) learning_schema
    guard (p.generation_id == generation_name p.generation) generation_mismatch
    guard (has_unique_entries (map (λ (e : ScopedAgentWeight F). (e.agent_id, e.scope)) p.entries))
        duplicate_entries
    refuse (is_empty p.entries || p.scoring_version == "") entries_required
    let expected = identity (record p { profile_id = "" })
    guard (p.profile_id == "" || p.profile_id == expected) profile_identity
    ok (record p { profile_id = expected })

  unfoldable pub validate_proposal :
      (identity : WeightProposal F → String) → WeightProposal F → Result (WeightProposal F)
  validate_proposal identity p = do
    refuse (ltb p.created_at p.training_cutoff) proposal_before_cutoff
    guard (has_unique_texts p.training_episode_ids) duplicate_training
    guard (has_unique_texts p.training_equivalence_ids) duplicate_training
    guard (has_unique_entries (map (λ (c : WeightChange F). (c.agent_id, c.scope)) p.changes))
        duplicate_changes
    let expected = identity (record p { proposal_id = "" })
    guard (p.proposal_id == "" || p.proposal_id == expected) proposal_identity
    ok (record p { proposal_id = expected })

  unfoldable pub validate_teacher_result :
      (identity : TeacherResult F → String) → TeacherResult F → Result (TeacherResult F)
  validate_teacher_result identity r = do
    guard (same (not (is_reject r.decision)) (not (is_empty r.accepted_changes))) accepted_mismatch
    guard (has_unique_texts r.held_out_episode_ids) duplicate_held_out
    let expected = identity (record r { result_id = "" })
    guard (r.result_id == "" || r.result_id == expected) result_identity
    ok (record r { result_id = expected })

  -- `LearningReview.validate_join`.
  unfoldable pub validate_review : LearningReview F → Result (LearningReview F)
  validate_review v = do
    guard (v.result.proposal_id == v.proposal.proposal_id) result_of_another
    guard (v.result.base_generation_id == v.proposal.base_generation_id) different_bases
    ok v
