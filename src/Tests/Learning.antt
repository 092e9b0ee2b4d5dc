-- ===== src/Tests/Learning.antt =====
-- A librarian that learns from two episodes, a teacher who judges it by two later ones, and the store.
use the_council.Council.Aggregator.{validate_config}
use the_council.Prelude.{
  ◌≡◌, refl, ℕ, ◌+◌, ◌*◌, Bool, true, false, none, some, List, [], ◌∷◌, String, length, ◌≤◌,
  mem_text, if◌then◌else◌,
}
use the_council.Prelude.Int.{ℤ}
use the_council.Floats.Fixed.{fixed_float, fixed-IsIeee}
use the_council.Datetime.{aware, utc, span_of, add_time, repeat_span}
use the_council.Dict.{get, put}
use the_council.Result.{Result, ok, err, not_an_ancestor}
use the_council.Agents.{timeframe_delta}
use the_council.Experience.Models.{ExperienceEpisode, OutcomeTruth}
use the_council.Learning.Scopes.{
  WeightScope, ScopedAgentWeight, outranks, specificity, scope_matches, are_weights,
  validate_weight, resolve,
}
use the_council.Learning.Models.{
  WeightProfile, WeightProposal, EvaluationMetrics, TeacherResult, TeacherConfig, LibrarianConfig,
  reject, validate_change, validate_metrics, validate_profile, validate_proposal,
  validate_teacher_result, validate_review, generation_name, accept,
}
use the_council.Learning.Names.{is_generation_id}
use the_council.Learning.Trials.{independent_trials}
use the_council.Learning.Librarian.{
  episode_matches, correctness, target_weight, bounded_move, change_of, consider, changes_for,
  propose,
}
use the_council.Learning.Applied.{applied_entries, apply_changes, reduced_change, reduced_changes}
use the_council.Learning.Metrics.{
  maximum_drawdown, slice_returns, trial_of, trials_of, metrics_of, evaluate_profile,
}
use the_council.Learning.Teacher.{
  LearningIdentities, check_held_out, passes, rejection, metrics_with, reduced_verdict, verdict,
  evaluate_proposal,
}
use the_council.Learning.Fair.{IsFair, evaluate_proposal-IsFair}
use the_council.Learning.Conservative.{IsConservative, propose-IsConservative}
use the_council.Learning.Profiles.{
  Rendering, Call, initializing, promoting, empty_store, get_profile, active_profile, list_profiles,
  write_profile, record_review, rollback, initialize, check_promotion, promoted, write_and_activate,
  promote, serve_all, ancestors,
}
use the_council.Learning.Chained.{empty-IsChained}
use the_council.Learning.Nexts.{IsNext}
use the_council.Learning.Histories.{serve_all-IsNext, rollback-Returns}
use the_council.Tests.Data.{num, decision_id}
use the_council.Tests.Council.{round}
use the_council.Tests.Experience.{episode_of, truth}

abbrev hour : ℕ
hour = 3_600_000_000

abbrev truth_at : ℕ → OutcomeTruth ℤ
truth_at t = record truth {
  oracle_outcome = record truth.oracle_outcome { evaluation_time = t; horizon_end = t + hour };
  available_at = t + hour;
}

-- An episode that is decided at a time, with the truth an hour later.
abbrev episode_at : String → ℕ → ExperienceEpisode ℤ
episode_at name t =
    let e = episode_of name (some (truth_at t)) in
    record e { evidence = record e.evidence { decision_timestamp = t } }

-- An equivalent of an episode under a name of its own.
abbrev rerun : String → ExperienceEpisode ℤ → ExperienceEpisode ℤ
rerun name e = record e { episode_id = name }

abbrev past : List (ExperienceEpisode ℤ)
past =
    episode_at "a" hour
    ∷ rerun "aa" (episode_at "a" (2 * hour))
    ∷ episode_at "b" (3 * hour)
    ∷ episode_at "late" (15 * hour)
    ∷ []

abbrev held_out : List (ExperienceEpisode ℤ)
held_out =
    rerun "cc" (episode_at "c" (13 * hour))
    ∷ episode_at "c" (12 * hour)
    ∷ episode_at "d" (14 * hour)
    ∷ []

abbrev everywhere : WeightScope
everywhere = record { asset_class = none; symbol = none; regime = none; horizon_bars = none }

abbrev entry : ScopedAgentWeight ℤ
entry = record {
  agent_id = "trend";
  scope = everywhere;
  weight = record { long_term = num 1 0; recent = num 1 0; recent_mix = num 5 1 };
}

abbrev initial : WeightProfile ℤ
initial = record {
  schema_version = "1.0";
  generation = 0;
  generation_id = "weights-v0000";
  parent_generation_id = none;
  created_at = 0;
  entries = entry ∷ [];
  scoring_version = "scoring-v1";
  profile_id = "id";
}

abbrev librarian : LibrarianConfig ℤ
librarian = record {
  maximum_weight_delta = num 1 1;
  minimum_samples = 2;
  full_confidence_samples = 4;
  recent_window = 2;
  target_weight_at_random = num 1 0;
  accuracy_weight_slope = num 2 0;
}

abbrev teacher : TeacherConfig ℤ
teacher = record {
  scoring_version = "scoring-v2";
  minimum_held_out_episodes = 2;
  minimum_score_improvement = num 0 0;
  maximum_worst_slice_degradation = num 1 1;
  turnover_cost_bps = num 10 0;
  metric_weights = ("total_return", num 1 0) ∷ ("hit_rate", num 1 0) ∷ [];
}

abbrev describe : ℕ → ℕ → ℤ → String
describe correct samples delta = "reason"

abbrev constant : {A : Type 0} → A → String
constant a = "id"

abbrev identities : LearningIdentities ℤ
identities = record { profile = constant; result = constant; decision = decision_id }

abbrev value_of : {A : Type 0} → A → Result A → A
value_of d (ok a) = a
value_of d (err e) = d

abbrev succeeds : {A : Type 0} → Result A → Bool
succeeds (ok a) = true
succeeds (err e) = false

succeeded : {A : Type 0} (d : A) (m : Result A) → succeeds m ≡ true → m ≡ ok (value_of d m)
succeeded d (ok a) h = refl
succeeded d (err e) h = absurd (cc)

-- What the examples compute with.
unfoldable learning : Unit {0}
unfolding span_of add_time repeat_span round validate_config get put specificity outranks
    scope_matches are_weights validate_weight resolve validate_change validate_metrics
    validate_profile validate_proposal validate_teacher_result validate_review generation_name
    is_generation_id independent_trials episode_matches correctness target_weight bounded_move
    change_of consider changes_for propose applied_entries apply_changes reduced_change
    reduced_changes maximum_drawdown slice_returns trial_of trials_of metrics_of evaluate_profile
    check_held_out passes rejection metrics_with reduced_verdict verdict evaluate_proposal
    get_profile active_profile list_profiles write_profile record_review rollback initialize
    check_promotion promoted write_and_activate promote timeframe_delta
learning = tt

abbrev proposing : Result (WeightProposal ℤ)
proposing =
    propose librarian describe constant initial past everywhere (aware (10 * hour))
      (aware (11 * hour))

abbrev nothing : WeightProposal ℤ
nothing = record {
  schema_version = "1.0";
  proposal_id = "";
  base_generation_id = "";
  created_at = 0;
  training_cutoff = 0;
  training_episode_ids = [];
  training_equivalence_ids = [];
  changes = [];
  librarian_version = "";
}

abbrev proposal : WeightProposal ℤ
proposal = value_of nothing proposing

proposes : succeeds proposing ≡ true
unfolding learning
proposes = refl

-- Both signals were right: the one weight moves by half of the largest step.
proposal-changes : length proposal.changes ≡ 1
unfolding learning
proposal-changes = refl

propose-IsConservative_example :
    (cutoff : ℕ) × (utc (aware (10 * hour)) ≡ ok cutoff)
    × IsConservative librarian describe constant initial past everywhere cutoff proposal
unfolding learning
propose-IsConservative_example =
    propose-IsConservative librarian describe constant initial past everywhere (aware (10 * hour))
      (aware (11 * hour)) proposal fixed-IsIeee refl (succeeded nothing proposing proposes)

abbrev judging : Result (TeacherResult ℤ)
judging = evaluate_proposal teacher identities initial proposal held_out (aware (20 * hour))

abbrev no_metrics : EvaluationMetrics ℤ
no_metrics = record {
  episode_count = 0;
  total_return = num 0 0;
  benchmark_relative_return = num 0 0;
  maximum_drawdown = num 0 0;
  hit_rate = num 0 0;
  mean_calibration_error = num 0 0;
  risk_adjusted_return = num 0 0;
  turnover = num 0 0;
  cost_adjusted_return = num 0 0;
  worst_slice_return = num 0 0;
  score = num 0 0;
}

abbrev no_result : TeacherResult ℤ
no_result = record {
  schema_version = "1.0";
  result_id = "";
  decision = reject;
  base_generation_id = "";
  proposal_id = "";
  held_out_episode_ids = [];
  comparison = record { baseline = no_metrics; proposed = no_metrics };
  accepted_changes = [];
  reasons = [];
  evaluated_at = 0;
  teacher_version = "";
  scoring_version = "";
}

abbrev judgement : TeacherResult ℤ
judgement = value_of no_result judging

judges : succeeds judging ≡ true
unfolding learning
judges = refl

-- The bounded step is accepted as it is.
judgement-decision : judgement.decision ≡ accept
unfolding learning
judgement-decision = refl

evaluate_proposal-IsFair_example :
    (baseline : EvaluationMetrics ℤ) × IsFair teacher identities initial proposal held_out
      (aware (20 * hour))
      baseline
      judgement
unfolding learning
evaluate_proposal-IsFair_example =
    evaluate_proposal-IsFair teacher identities initial proposal held_out (aware (20 * hour))
      judgement (succeeded no_result judging judges)

abbrev rendering : Rendering ℤ
rendering = record {
  identity = constant;
  render_profile = λ p. p.generation_id;
  render_review = λ v. v.result.result_id;
}

-- The first profile is activated, and then the one that the teacher has accepted.
abbrev calls : List (Call ℤ)
calls = initializing initial ∷ promoting initial proposal judgement ∷ []

abbrev current : WeightProfile ℤ
current = value_of initial (active_profile rendering (serve_all rendering calls empty_store))

current-generation : current.generation ≡ 1
unfolding learning
current-generation = refl

reads_current : succeeds (active_profile rendering (serve_all rendering calls empty_store)) ≡ true
unfolding learning
reads_current = refl

reads_initial :
    get_profile rendering (serve_all rendering calls empty_store) "weights-v0000" ≡ ok initial
unfolding learning
reads_initial = refl

serve_all-IsNext_example : IsNext rendering empty_store (serve_all rendering calls empty_store)
unfolding learning
serve_all-IsNext_example = serve_all-IsNext rendering calls empty_store (empty-IsChained rendering)

rollback-Returns_example :
    (names : List String) × (ancestors rendering
        (serve_all rendering calls empty_store)
        current.generation
        current.parent_generation_id
      ≡ ok names)
    × (length names ≤ current.generation)
    × (rollback rendering (serve_all rendering calls empty_store) "weights-v0000" ≡ (
        if mem_text "weights-v0000" names
        then ok (
          initial,
          record (serve_all rendering calls empty_store) { active = some "weights-v0000" },
        )
        else err not_an_ancestor))
unfolding learning
rollback-Returns_example =
    rollback-Returns rendering calls "weights-v0000" initial current reads_initial (
      succeeded initial (active_profile rendering (serve_all rendering calls empty_store))
        reads_current)
