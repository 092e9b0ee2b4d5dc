-- ===== src/Learning/Trials.antt =====
-- `independent_trials` of learning/trials.py: of the episodes that are equivalent, the first.
use the_council.Prelude.{
  Bool, true, false, not, if◌then◌else◌, Option, none, some, List, [], ◌∷◌, String, eqb, ltb, map,
}
use the_council.Prelude.Sort.{str_leb}
use the_council.Prelude.Sort.Ranked.{sort_ranked}
use the_council.Dict.{Dict, get, put}
use the_council.Experience.Models.{ExperienceEpisode}

module _ {F : Type 0} where
  -- `(decision_timestamp, episode_id)` of the one is less than that of the other, or at most it.
  abbrev pub is_earlier : ExperienceEpisode F → ExperienceEpisode F → Bool
  is_earlier a b =
      let s = a.evidence.decision_timestamp in
      let t = b.evidence.decision_timestamp in
      if eqb s t then not (str_leb b.episode_id a.episode_id) else ltb s t

  abbrev pub is_no_later : ExperienceEpisode F → ExperienceEpisode F → Bool
  is_no_later a b =
      let s = a.evidence.decision_timestamp in
      let t = b.evidence.decision_timestamp in
      if eqb s t then str_leb a.episode_id b.episode_id else ltb s t

  abbrev pub replaces : ExperienceEpisode F → Option (ExperienceEpisode F) → Bool
  replaces e none = true
  replaces e (some current) = is_earlier e current

  abbrev pub select_if :
      Bool → ExperienceEpisode F → Dict (ExperienceEpisode F) → Dict (ExperienceEpisode F)
  select_if true e selected = put e.equivalence_id e selected
  select_if false e selected = selected

  abbrev pub select_trials :
      Dict (ExperienceEpisode F) → List (ExperienceEpisode F) → Dict (ExperienceEpisode F)
  select_trials selected [] = selected
  select_trials selected (e ∷ episodes) =
      select_trials (select_if (replaces e (get e.equivalence_id selected)) e selected) episodes

  abbrev pub values : Dict (ExperienceEpisode F) → List (ExperienceEpisode F)
  values selected = map (λ (s : String × ExperienceEpisode F). s.1) selected

  unfoldable pub independent_trials : List (ExperienceEpisode F) → List (ExperienceEpisode F)
  independent_trials episodes = sort_ranked is_no_later (values (select_trials [] episodes))
