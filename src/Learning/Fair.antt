-- ===== src/Learning/Fair.antt =====
-- What the teacher's result says of the episodes and of the changes that it accepts.
use mathlib.Core.Path.{subst}
use the_council.Prelude.{
  ◌≡◌, refl, sym, ◌⊎◌, inl, inr, ℕ, ◌≤◌, true, false, not, ◌&&◌, Option, none, some, List, [], ◌∷◌,
  String, ◌==◌, ltb, any, is_empty, length, map, All, Member, mem_text, eq_iff, Bool-cases, arith,
}
use the_council.Floats.{Float}
use the_council.Datetime.{Datetime, utc}
use the_council.Result.{ok, refuse, >>=-eq-ok, ok-injective, insufficient_held_out}
use the_council.Schemas.Market.{is_some}
use the_council.Experience.Models.{ExperienceEpisode, OutcomeTruth}
use the_council.Learning.Models.{
  WeightProfile, WeightProposal, WeightChange, EvaluationMetrics, TeacherConfig, TeacherResult,
  TeacherDecision, accept, reject, accept_reduced_update, validate_teacher_result,
}
use the_council.Learning.Trials.{independent_trials}
use the_council.Learning.Independent.{
  AreApart, independent_trials-AreMembers, independent_trials-AreApart,
}
use the_council.Learning.Applied.{reduced_changes}
use the_council.Learning.Metrics.{evaluate_profile}
use the_council.Learning.Teacher.{
  LearningIdentities, is_trained_on, is_after, check_held_out, Verdict, passes, metrics_with,
  reduced_verdict, verdict, evaluate_proposal,
}

not_mem_of_empty : (t : String) (ts : List String) → is_empty ts ≡ true → mem_text t ts ≡ false
not_mem_of_empty t [] h = refl
not_mem_of_empty t (s ∷ ts) h = cc h

module _ {F : Type 0} where
  -- An episode that a proposal may be judged by at a time.
  pub record IsHeldOutFrom (p : WeightProposal F) (evaluated : ℕ) (e : ExperienceEpisode F)
      : Type 0 where
    pub unseen : mem_text e.episode_id p.training_episode_ids ≡ false
    pub unlike : mem_text e.equivalence_id p.training_equivalence_ids ≡ false
    pub late : p.training_cutoff ≤ e.evidence.decision_timestamp
    pub judged : (t : OutcomeTruth F) × (e.truth ≡ some t) × (t.available_at ≤ evaluated)

  unlike_all :
      (p : WeightProposal F) (e : ExperienceEpisode F)
      → is_trained_on p e ≡ false
      → mem_text e.equivalence_id p.training_equivalence_ids ≡ false
  unlike_all p e h = elim (Bool-cases (is_empty p.training_equivalence_ids)) [
    | inl none_given ↦ not_mem_of_empty e.equivalence_id p.training_equivalence_ids none_given
    | inr given ↦ ground (arith, h, given)
  ]

  judged_by :
      (evaluated : ℕ) (truth : Option (OutcomeTruth F))
      → is_some truth ≡ true
      → is_after evaluated truth ≡ false
      → (t : OutcomeTruth F) × (truth ≡ some t) × (t.available_at ≤ evaluated)
  judged_by evaluated none h k = cc h
  judged_by evaluated (some t) h k = (t, refl, ground arith)

  all_held_out :
      (p : WeightProposal F) (evaluated : ℕ) (episodes : List (ExperienceEpisode F))
      → any (is_trained_on p) episodes ≡ false
      → any
          (λ (e : ExperienceEpisode F). ltb e.evidence.decision_timestamp p.training_cutoff)
          episodes
        ≡ false
      → any (λ (e : ExperienceEpisode F). not (is_some e.truth)) episodes ≡ false
      → any (λ (e : ExperienceEpisode F). is_after evaluated e.truth) episodes ≡ false
      → All (IsHeldOutFrom p evaluated) episodes
  all_held_out p evaluated [] a b c d = tt
  all_held_out p evaluated (e ∷ episodes) a b c d = (
    record {
      unseen = ground arith;
      unlike = unlike_all p e (ground arith);
      late = ground arith;
      judged = judged_by evaluated e.truth (ground arith) (ground arith);
    },
    all_held_out p evaluated episodes (ground arith) (ground arith) (ground arith) (ground arith),
  )

  check_held_out-eq-ok :
      (config : TeacherConfig F) (base : WeightProfile F) (p : WeightProposal F)
      (episodes : List (ExperienceEpisode F)) (evaluated : ℕ) (u : Unit {0})
      → check_held_out config base p episodes evaluated ≡ ok u
      → ((p.base_generation_id == base.generation_id) ≡ true)
        × (ltb evaluated p.created_at ≡ false)
        × (ltb (length episodes) config.minimum_held_out_episodes ≡ false)
        × (any (is_trained_on p) episodes ≡ false)
        × (any
              (λ (e : ExperienceEpisode F). ltb e.evidence.decision_timestamp p.training_cutoff)
              episodes
            ≡ false)
        × (any (λ (e : ExperienceEpisode F). not (is_some e.truth)) episodes ≡ false)
        × (any (λ (e : ExperienceEpisode F). is_after evaluated e.truth) episodes ≡ false)
  unfolding check_held_out
  check_held_out-eq-ok config base p episodes evaluated u h = ground arith

  validate_teacher_result-eq-ok :
      (identity : TeacherResult F → String) (r q : TeacherResult F)
      → validate_teacher_result identity r ≡ ok q
      → q ≡ record r { result_id = identity (record r { result_id = "" }) }
  unfolding validate_teacher_result
  validate_teacher_result-eq-ok identity r q h = ground arith

module _ {F : Type 0} ⦃f : Float F⦄ (config : TeacherConfig F) (identities : LearningIdentities F)
    (base : WeightProfile F) (episodes : List (ExperienceEpisode F)) (evaluated : ℕ)
    (baseline : EvaluationMetrics F) where
  -- Changes whose profile passes the criteria, by the metrics of the comparison.
  abbrev pub IsImproved : List (WeightChange F) → EvaluationMetrics F → Type 0
  IsImproved changes metrics =
      (metrics_with config identities base episodes evaluated changes ≡ ok metrics)
      × (passes config baseline metrics ≡ true)
      × (is_empty changes ≡ false)

  -- The three outcomes: the proposal as it is, its half, or nothing.
  abbrev pub IsJustified :
      List (WeightChange F) → TeacherDecision → List (WeightChange F) → EvaluationMetrics F → Type 0
  IsJustified changes decision accepted metrics =
      ((decision ≡ accept) × (accepted ≡ changes) × IsImproved changes metrics)
      ⊎ (((decision ≡ accept_reduced_update)
            × (reduced_changes changes ≡ ok accepted)
            × IsImproved accepted metrics)
          ⊎ ((decision ≡ reject) × (accepted ≡ [])))

  reduced-IsJustified :
      (proposed : EvaluationMetrics F) (changes : List (WeightChange F)) (v : Verdict F)
      → reduced_verdict config identities base episodes evaluated baseline proposed changes ≡ ok v
      → IsJustified changes v.decision v.accepted v.proposed
  unfolding reduced_verdict
  reduced-IsJustified proposed changes v h =
      let (reduced, halved, rest) = >>=-eq-ok (reduced_changes changes) _ h in
      let (metrics, measured, last) =
        >>=-eq-ok (metrics_with config identities base episodes evaluated reduced) _ rest in
      let of_verdict : Verdict F → Type 0 =
        λ w. IsJustified changes w.decision w.accepted w.proposed in
      elim (Bool-cases (not (is_empty reduced) && passes config baseline metrics)) [
        | inl good ↦
            subst of_verdict (ok-injective (rw good at last))
              (inr (inl (refl, halved, (measured, ground arith, ground arith))))
        | inr bad ↦ subst of_verdict (ok-injective (rw bad at last)) (inr (inr (refl, refl)))
      ]

  verdict-IsJustified :
      (changes : List (WeightChange F)) (v : Verdict F)
      → verdict config identities base episodes evaluated baseline changes ≡ ok v
      → IsJustified changes v.decision v.accepted v.proposed
  unfolding verdict
  verdict-IsJustified changes v h =
      let (metrics, measured, last) =
        >>=-eq-ok (metrics_with config identities base episodes evaluated changes) _ h in
      let of_verdict : Verdict F → Type 0 =
        λ w. IsJustified changes w.decision w.accepted w.proposed in
      elim (Bool-cases (passes config baseline metrics && not (is_empty changes))) [
        | inl good ↦
            subst of_verdict (ok-injective (rw good at last))
              (inl (refl, refl, (measured, ground arith, ground arith)))
        | inr bad ↦ reduced-IsJustified metrics changes v (rw bad at last)
      ]

module _ {F : Type 0} ⦃f : Float F⦄ (config : TeacherConfig F) (identities : LearningIdentities F)
    (base : WeightProfile F) (p : WeightProposal F) (held_out : List (ExperienceEpisode F)) where
  -- A result that rests on enough of the episodes, no two of them equivalent; none of them is one that the
  -- proposal says it was trained on, or is of an equivalence id that it names, each was decided at the
  -- training's cutoff or later, and its truth was available by the time of the evaluation.
  abbrev pub IsFair : Datetime → EvaluationMetrics F → TeacherResult F → Type 0
  IsFair evaluated_at baseline r =
      (utc evaluated_at ≡ ok r.evaluated_at)
      × (p.base_generation_id ≡ base.generation_id)
      × (p.created_at ≤ r.evaluated_at)
      × (config.minimum_held_out_episodes ≤ length (independent_trials held_out))
      × (r.held_out_episode_ids
          ≡ map (λ (e : ExperienceEpisode F). e.episode_id) (independent_trials held_out))
      × All (λ e. Member e held_out) (independent_trials held_out)
      × AreApart (independent_trials held_out)
      × All (IsHeldOutFrom p r.evaluated_at) (independent_trials held_out)
      × (evaluate_profile identities.decision base (independent_trials held_out) config
          ≡ ok baseline)
      × (config.minimum_held_out_episodes ≤ baseline.episode_count)
      × IsJustified config identities base (independent_trials held_out) r.evaluated_at baseline
          p.changes r.decision r.accepted_changes r.comparison.proposed

  -- The result of the teacher rests on enough of the held-out episodes, no two of them of the same
  -- equivalence id. None of them is among the proposal's training episodes, none has an equivalence id that
  -- is among the training equivalence ids that the proposal names (it may name none), each was decided at
  -- the training's cutoff or later, and its truth was available by the time of the evaluation. The changes
  -- that are accepted are the proposal's, or their halves, and the profile that they make passes the
  -- criteria on these episodes; or none is.
  pub evaluate_proposal-IsFair :
      (evaluated_at : Datetime) (r : TeacherResult F)
      → evaluate_proposal config identities base p held_out evaluated_at ≡ ok r
      → (baseline : EvaluationMetrics F) × IsFair evaluated_at baseline r
  unfolding evaluate_proposal
  evaluate_proposal-IsFair evaluated_at r h =
      let (evaluated, now, h1) = >>=-eq-ok (utc evaluated_at) _ h in
      let episodes = independent_trials held_out in
      let (u, checked, h2) = >>=-eq-ok (check_held_out config base p episodes evaluated) _ h1 in
      let (baseline, measured, h3) =
        >>=-eq-ok (evaluate_profile identities.decision base episodes config) _ h2 in
      let (w, enough, h4) =
        >>=-eq-ok
          (refuse (ltb baseline.episode_count config.minimum_held_out_episodes)
            insufficient_held_out)
          _ h3 in
      let (v, judged, h5) =
        >>=-eq-ok (verdict config identities base episodes evaluated baseline p.changes) _ h4 in
      let (same, before, many, unseen, late, known, available) =
        check_held_out-eq-ok config base p episodes evaluated u checked in
      (
        baseline,
        subst (IsFair evaluated_at baseline)
            (sym (validate_teacher_result-eq-ok identities.result _ r h5))
            (
              now,
              ground (arith, eq_iff p.base_generation_id base.generation_id),
              ground arith,
              ground arith,
              refl,
              independent_trials-AreMembers held_out,
              independent_trials-AreApart held_out,
              all_held_out p evaluated episodes unseen late known available,
              measured,
              ground arith,
              verdict-IsJustified config identities base episodes evaluated baseline p.changes v
                  judged,
            ),
      )
