-- ===== src/Experiments/Selected.antt =====
-- The selection of experiments is blind to prices.
use the_council.Prelude.{◌≡◌, refl, ℕ, List}
use the_council.Prelude.Int.{ℤ}
use the_council.Agents.{SpecialistAgent}
use the_council.Result.{Result, ok, err, Error, ◌>>=◌}
use the_council.MarketData.Models.{HistoricalRequest, HistoricalBars}
use the_council.Experiments.Models.{ExperimentAgentConfig}
use the_council.Experiments.Selection.{
  RandomExperimentRequest, times_of, chosen_from, plan_of, select_points,
}

>>=-same :
    {A B : Type 0} (m : Result A) (f g : A → Result B)
    → ((a : A) → f a ≡ g a)
    → (m >>= f) ≡ (m >>= g)
>>=-same (ok a) f g same = same a
>>=-same (err e) f g same = refl

module _ {F : Type 0} where
  -- Two histories that differ at most in what the bars say besides when they closed and were available.
  pub record HaveSameTimes (h k : HistoricalBars F) : Type 0 where
    pub request : h.request ≡ k.request
    pub provider : h.provider ≡ k.provider
    pub times : times_of h.bars ≡ times_of k.bars

  -- Two answers that fail alike, or give such histories.
  pub data AreAlike : Result (HistoricalBars F) → Result (HistoricalBars F) → Type 0 where
    both_fail : (e : Error) → AreAlike (err e) (err e)
    both_answer : (h k : HistoricalBars F) → HaveSameTimes h k → AreAlike (ok h) (ok k)

  AreAlike->>= :
      {A : Type 0} (next : HistoricalBars F → Result A)
      → ((h k : HistoricalBars F) → HaveSameTimes h k → next h ≡ next k)
      → (m n : Result (HistoricalBars F)) → AreAlike m n
      → (m >>= next) ≡ (n >>= next)
  AreAlike->>= next same _ _ (both_fail e) = refl
  AreAlike->>= next same _ _ (both_answer h k times) = same h k times

  module _ (rank : ℤ → ℕ → ℕ)
      (build_agents : List (ExperimentAgentConfig F) → Result (List (SpecialistAgent F))) where
    -- The selection looks at no price: it is the same for all providers whose bars close and become available
    -- at the same times.
    pub select_points-Blind :
        (fetch other : HistoricalRequest → Result (HistoricalBars F))
        (r : RandomExperimentRequest F)
        → ((asked : HistoricalRequest) → AreAlike (fetch asked) (other asked))
        → select_points rank build_agents fetch r ≡ select_points rank build_agents other r
    unfolding select_points
    select_points-Blind fetch other r alike = >>=-same (plan_of build_agents r) _ _ (λ plan.
        AreAlike->>=
          (λ history.
            chosen_from rank r plan history.request history.provider (times_of history.bars))
          (λ h k same. rw (same.request, same.provider, same.times) refl) (fetch plan.asked)
          (other plan.asked) (alike plan.asked))
