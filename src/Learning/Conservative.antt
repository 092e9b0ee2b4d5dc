-- ===== src/Learning/Conservative.antt =====
-- What the librarian proposes: only what past, independent episodes support, in bounded steps.
use mathlib.Core.Path.{subst}
use the_council.Prelude.{
  ◌≡◌, refl, sym, ℕ, ◌≤◌, ◌<◌, true, false, Option, none, some, List, String, ltb, Member, All-map,
  Bool, [], ◌∷◌, inl, inr, Bool-cases, All-select, map, select, All, arith,
}
use the_council.Floats.{Float, nonneg_finite}
use the_council.Floats.Laws.{IsIeee}
use the_council.Datetime.{Datetime, utc}
use the_council.Result.{ok, >>=-eq-ok}
use the_council.Experience.Models.{ExperienceEpisode, OutcomeTruth}
use the_council.Learning.Scopes.{WeightScope}
use the_council.Learning.Models.{WeightProfile, WeightProposal, LibrarianConfig, validate_proposal}
use the_council.Learning.Independent.{AreApart, All-independent_trials, independent_trials-AreApart}
use the_council.Learning.Librarian.{
  episode_matches, known_before, is_eligible, changes_for, eligible_for, propose,
}
use the_council.Learning.Steps.{IsChangeOf, changes_for-AreSteps}

-- An episode to train on by a cutoff.
pub record IsPast {F : Type 0} (scope : WeightScope) (cutoff : ℕ) (e : ExperienceEpisode F)
    : Type 0 where
  pub decided : e.evidence.decision_timestamp < cutoff
  pub judged : (t : OutcomeTruth F) × (e.truth ≡ some t) × (t.available_at < cutoff)
  pub matches : episode_matches scope e ≡ true

selected_members : {A : Type 0} (p : A → Bool) (xs : List A) → All (λ x. Member x xs) (select p xs)
selected_members p [] = tt
selected_members p (x ∷ xs) =
    let later =
      All-map _ (λ y. Member y (x ∷ xs)) (select p xs) (λ y among. inr among)
        (selected_members p xs) in
    elim (Bool-cases (p x)) [
      | inl kept ↦ rw kept (inl refl, later)
      | inr dropped ↦ rw dropped later
    ]

module _ {F : Type 0} where
  known_of :
      (cutoff : ℕ) (truth : Option (OutcomeTruth F))
      → known_before cutoff truth ≡ true
      → (t : OutcomeTruth F) × (truth ≡ some t) × (t.available_at < cutoff)
  known_of cutoff none h = cc h
  known_of cutoff (some t) h = (t, refl, ground arith)

  eligible-IsPast :
      (scope : WeightScope) (cutoff : ℕ) (e : ExperienceEpisode F)
      → is_eligible scope cutoff e ≡ true
      → IsPast scope cutoff e
  eligible-IsPast scope cutoff e h = record {
    decided = ground arith;
    judged = known_of cutoff e.truth (ground arith);
    matches = ground arith;
  }

  validate_proposal-eq-ok :
      (identity : WeightProposal F → String) (p q : WeightProposal F)
      → validate_proposal identity p ≡ ok q
      → (q ≡ record p { proposal_id = identity (record p { proposal_id = "" }) })
        × (ltb p.created_at p.training_cutoff ≡ false)
  unfolding validate_proposal
  validate_proposal-eq-ok identity p q h = ground arith

module _ {F : Type 0} ⦃f : Float F⦄ (config : LibrarianConfig F) (describe : ℕ → ℕ → F → String)
    (identity : WeightProposal F → String) (profile : WeightProfile F)
    (episodes : List (ExperienceEpisode F)) (scope : WeightScope) where
  -- A proposal for a profile: it names episodes of the scope, no two of them equivalent, each decided before
  -- the cutoff with a truth that was available before it, and makes bounded steps of the profile's entries
  -- that rest on these episodes and on no other.
  abbrev pub IsConservative : ℕ → WeightProposal F → Type 0
  IsConservative cutoff q =
      let eligible = eligible_for config describe scope cutoff episodes in
      (q.training_cutoff ≡ cutoff)
      × (cutoff ≤ q.created_at)
      × (q.base_generation_id ≡ profile.generation_id)
      × (q.training_episode_ids ≡ map (λ (e : ExperienceEpisode F). e.episode_id) eligible)
      × (q.training_equivalence_ids ≡ map (λ (e : ExperienceEpisode F). e.equivalence_id) eligible)
      × All (λ e. Member e episodes) eligible
      × AreApart eligible
      × All (IsPast scope cutoff) eligible
      × All (IsChangeOf config scope eligible profile.entries) q.changes

  -- Whatever the librarian proposes is conservative. It trains on some of the episodes that it is given, no
  -- two of them equivalent, each decided before the cutoff with a truth that was available before it; the
  -- training ids that it reports are theirs. Each change is of an entry of the scope, and its sample count,
  -- its accuracy, its confidence and its new weights are those of the agent's right and wrong signals in
  -- these episodes and in no other, at most one for an episode. No weight moves further than the largest
  -- step scaled by the confidence, and no agent's weight moves on fewer than the minimum of samples.
  pub propose-IsConservative :
      (training_cutoff created_at : Datetime) (q : WeightProposal F)
      → IsIeee F
      → nonneg_finite config.maximum_weight_delta ≡ true
      → propose config describe identity profile episodes scope training_cutoff created_at ≡ ok q
      → (cutoff : ℕ) × (utc training_cutoff ≡ ok cutoff) × IsConservative cutoff q
  unfolding propose
  propose-IsConservative training_cutoff created_at q laws positive h =
      let (cutoff, until, h1) = >>=-eq-ok (utc training_cutoff) _ h in
      let (created, now, h2) = >>=-eq-ok (utc created_at) _ h1 in
      let eligible = eligible_for config describe scope cutoff episodes in
      let (changes, made, h3) =
        >>=-eq-ok (changes_for config describe scope eligible profile.entries) _ h2 in
      let (same, order) = validate_proposal-eq-ok identity _ q h3 in
      (
        cutoff,
        until,
        subst (IsConservative cutoff) (sym same) (
          refl,
          ground arith,
          refl,
          refl,
          refl,
          All-independent_trials (λ e. Member e episodes)
              (select (is_eligible scope cutoff) episodes)
              (selected_members (is_eligible scope cutoff) episodes),
          independent_trials-AreApart (select (is_eligible scope cutoff) episodes),
          All-independent_trials (IsPast scope cutoff) (select (is_eligible scope cutoff) episodes)
              (All-select (IsPast scope cutoff) (is_eligible scope cutoff) episodes
                (eligible-IsPast scope cutoff)),
          changes_for-AreSteps config describe laws positive scope eligible profile.entries changes
              made,
        ),
      )
