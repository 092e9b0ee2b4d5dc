-- ===== src/Learning/Verdicts.antt =====
-- How many verdicts the librarian draws from its episodes.
use mathlib.Core.Path.{subst}
use the_council.Prelude.{
  ◌≡◌, suc, ◌≤◌, Bool, Option, none, some, List, [], ◌∷◌, String, length, length-append, arith,
}
use the_council.Result.{ok, >>=-eq-ok, ok-injective}
use the_council.Schemas.Signal.{AgentSignal}
use the_council.Experience.Models.{ExperienceEpisode, OutcomeTruth}
use the_council.Learning.Scopes.{WeightScope}
use the_council.Learning.Librarian.{correctness, correctness_of, judged_signal, judge}

module _ {F : Type 0} where
  length-judge :
      (t : OutcomeTruth F) (signal : Option (AgentSignal F)) → length (judge t signal) ≤ 1
  length-judge t none = omega arith
  length-judge t (some s) = omega arith

  length-correctness_of :
      (agent : String) (scope : WeightScope) (e : ExperienceEpisode F)
      (truth : Option (OutcomeTruth F)) (values : List Bool)
      → correctness_of agent scope e truth ≡ ok values
      → length values ≤ 1
  length-correctness_of agent scope e none values h = cc h
  length-correctness_of agent scope e (some t) values h =
      let (signal, judged, gives) =
        >>=-eq-ok (judged_signal agent scope e.evidence.timeframe t e.evidence.specialist_outputs) _
          h in
      subst (λ (vs : List Bool). length vs ≤ 1) (ok-injective gives) (length-judge t signal)

  -- An episode gives at most one verdict of an agent.
  pub length-correctness :
      (agent : String) (scope : WeightScope) (eligible : List (ExperienceEpisode F))
      (values : List Bool)
      → correctness agent scope eligible ≡ ok values
      → length values ≤ length eligible
  unfolding correctness
  length-correctness agent scope [] values h =
      subst (λ (vs : List Bool). length vs ≤ 0) (ok-injective h) (omega arith)
  length-correctness agent scope (e ∷ eligible) values h =
      let (first, judged, rest) = >>=-eq-ok (correctness_of agent scope e e.truth) _ h in
      let (others, more, last) = >>=-eq-ok (correctness agent scope eligible) _ rest in
      subst (λ (vs : List Bool). length vs ≤ suc (length eligible)) (ok-injective last)
        (omega (
          arith,
          length-append first others,
          length-correctness_of agent scope e e.truth first judged,
          length-correctness agent scope eligible others more,
        ))
