-- ===== src/Learning/Metrics.antt =====
-- `evaluate_profile` of learning/teacher.py: what a profile would have made of past episodes.
use the_council.Prelude.{
  take, ℕ, zero, suc, ◌+◌, ◌-◌, ◌/◌, ◌%◌, min, Bool, true, false, if◌then◌else◌, Option, none, some,
  List, [], ◌∷◌, String, ◌==◌, ltb, length, map, foldl, is_empty,
}
use the_council.Prelude.Sort.Ranked.{sort_ranked}
use the_council.Floats.{Float, nought, of_nat, fmin, fmax, sum, or_zero, ◌⊕◌, ◌⊖◌, ◌⊗◌, ◌⊘◌, ◌=?◌}
use the_council.Dict.{Dict, get, put}
use the_council.Result.{Result, ok, ◌>>=◌, ◌>>◌, refuse, of_option, incomplete_returns, no_returns}
use the_council.Schemas.Enums.{ActionIntent, Direction, short, flat, long}
use the_council.Schemas.Market.{MarketSnapshot}
use the_council.Schemas.Signal.{AgentSignal}
use the_council.Council.Aggregator.{aggregate, validate_config}
use the_council.Risk.Restrictions.{drop}
use the_council.Experience.Models.{ExperienceEpisode, DecisionEvidence, OutcomeTruth}
use the_council.Learning.Scopes.{Occasion, resolve}
use the_council.Learning.Models.{WeightProfile, EvaluationMetrics, TeacherConfig, validate_metrics}
use the_council.Learning.Trials.{is_no_later}

abbrev same_direction : Direction → Option Direction → Bool
same_direction short (some short) = true
same_direction flat (some flat) = true
same_direction long (some long) = true
same_direction _ _ = false

-- What the loop notes of an episode.
pub record Trial (F : Type 0) : Type 0 where
  pub exposure : F
  pub returned : F
  pub benchmark : F
  pub correct : F
  pub calibration_error : F

module _ {F : Type 0} ⦃f : Float F⦄ where
  -- `prod(1.0 + value for value in values) - 1.0`.
  abbrev pub compounded : List F → F
  compounded values =
      foldl (λ product value. product ⊗ (of_nat 1 ⊕ value)) (of_nat 1) values ⊖ of_nat 1

  -- `sum(abs(current - previous) ...)` from 0.0.
  abbrev moves : F → List F → List F
  moves previous [] = []
  moves previous (current ∷ exposures) = f.abs (current ⊖ previous) ∷ moves current exposures

  abbrev pub turnover : List F → F
  turnover exposures = sum (moves nought exposures)

  abbrev drawdown_of : F → F → F
  drawdown_of peak equity = if peak =? nought then nought else (peak ⊖ equity) ⊘ peak

  abbrev drawdown_from : F → F → F → List F → F
  drawdown_from equity peak maximum [] = maximum
  drawdown_from equity peak maximum (value ∷ returns) =
      let now = equity ⊗ (of_nat 1 ⊕ value) in
      let top = fmax peak now in drawdown_from now top (fmax maximum (drawdown_of top now)) returns

  -- `_maximum_drawdown`.
  unfoldable pub maximum_drawdown : List F → F
  maximum_drawdown returns = drawdown_from (of_nat 1) (of_nat 1) nought returns

  -- `_slice_returns`: up to three slices, the first ones a trial longer if they do not divide evenly.
  abbrev slices : ℕ → ℕ → ℕ → List F → List F
  slices size remainder zero returns = []
  slices size remainder (suc count) returns =
      let n = size + (if ltb 0 remainder then 1 else 0) in
      compounded (take n returns) ∷ slices size (remainder - 1) count (drop n returns)

  unfoldable pub slice_returns : List F → List F
  slice_returns returns =
      let count = min 3 (length returns) in
      slices (length returns / count) (length returns % count) count returns

  abbrev least : F → List F → F
  least a [] = a
  least a (b ∷ bs) = least (fmin a b) bs

  abbrev pub worst_slice : List F → F
  worst_slice [] = nought
  worst_slice (a ∷ as_) = least a as_

  abbrev weight_or_one : Option F → F
  weight_or_one none = of_nat 1
  weight_or_one (some w) = w

  -- The weights of the council that decides again: `_resolved_agent_weight` for each signal.
  abbrev pub resolved_weights :
      WeightProfile F → DecisionEvidence F → List (AgentSignal F) → Dict F → Dict F
  resolved_weights profile e [] weights = weights
  resolved_weights profile e (s ∷ outputs) weights =
      let occasion : Occasion = record {
        asset_class = e.asset_class;
        symbol = e.symbol;
        regime = e.regime;
        horizon_bars = s.horizon_bars;
      } in
      resolved_weights profile e outputs
        (put s.agent_id (weight_or_one (get s.agent_id (resolve occasion profile.entries))) weights)

  abbrev as_float : Bool → F
  as_float true = of_nat 1
  as_float false = nought

  module _
      (decision_id : MarketSnapshot F → List (AgentSignal F) → ActionIntent → Option F → String)
      (profile : WeightProfile F) where
    -- One round of the loop.
    unfoldable pub trial_of : DecisionEvidence F → OutcomeTruth F → F → Result (Trial F)
    trial_of e t realized = do
      config ← validate_config (record {
        agent_weights = resolved_weights profile e e.specialist_outputs [];
        minimum_confidence = e.council_config.minimum_confidence;
        minimum_conviction = e.council_config.minimum_conviction;
      })
      decision ← aggregate config decision_id e.snapshot e.specialist_outputs
      let exposure = or_zero decision.target_exposure
      let correct =
          as_float (same_direction decision.forecast_direction t.oracle_outcome.realized_direction)
      ok (record {
        exposure = exposure;
        returned = exposure ⊗ realized;
        benchmark = realized;
        correct = correct;
        calibration_error = f.abs (decision.confidence ⊖ correct);
      })

    -- `last_exit is not None and decision_timestamp < last_exit`.
    abbrev overlaps : Option ℕ → ℕ → Bool
    overlaps none time = false
    overlaps (some last_exit) time = ltb time last_exit

    abbrev with_trial : Result (Trial F) → Result (List (Trial F)) → Result (List (Trial F))
    with_trial call rest = do trial ← call; trials ← rest; ok (trial ∷ trials)

    -- The loop over the sorted episodes; those that start before the last one has ended are passed over.
    unfoldable pub trials_of : Option ℕ → List (ExperienceEpisode F) → Result (List (Trial F))
    trials_of last_exit [] = ok []
    trials_of last_exit (e ∷ episodes) = do
      t ← of_option incomplete_returns e.truth
      realized ← of_option incomplete_returns t.oracle_outcome.realized_return
      let skipped = trials_of last_exit episodes
      let taken = trials_of (some t.oracle_outcome.horizon_end) episodes
      if overlaps last_exit e.evidence.decision_timestamp
          then skipped
          else with_trial (trial_of e.evidence t realized) taken

  -- `risk_adjusted`, kept within ten of zero.
  abbrev volatility_of : List F → F
  volatility_of returns = if ltb 1 (length returns) then f.pstdev returns else nought

  abbrev risk_adjusted : List F → F
  risk_adjusted returns =
      fmax (f.neg (of_nat 10))
        (fmin (of_nat 10) (f.mean returns ⊘ fmax (volatility_of returns) (f.scientific 1 12)))

  abbrev metric_of : EvaluationMetrics F → String → F
  metric_of m name =
      if name == "total_return"
      then m.total_return
      else if name == "benchmark_relative_return"
      then m.benchmark_relative_return
      else if name == "maximum_drawdown"
      then m.maximum_drawdown
      else if name == "hit_rate"
      then m.hit_rate
      else if name == "mean_calibration_error"
      then m.mean_calibration_error
      else if name == "risk_adjusted_return"
      then m.risk_adjusted_return
      else if name == "cost_adjusted_return"
      then m.cost_adjusted_return
      else m.worst_slice_return

  abbrev scored : TeacherConfig F → EvaluationMetrics F → EvaluationMetrics F
  scored config m = record m {
    score = sum (map (λ (w : String × F). metric_of m w.0 ⊗ w.1) config.metric_weights);
  }

  -- What is made of the trials; without one, `mean` has no answer.
  unfoldable pub metrics_of : TeacherConfig F → List (Trial F) → Result (EvaluationMetrics F)
  metrics_of config trials = do
    refuse (is_empty trials) no_returns
    let returns = map (λ (t : Trial F). t.returned) trials
    let total = compounded returns
    let moved = turnover (map (λ (t : Trial F). t.exposure) trials)
    validate_metrics (
        scored config (record {
          episode_count = length trials;
          total_return = total;
          benchmark_relative_return =
              total ⊖ compounded (map (λ (t : Trial F). t.benchmark) trials);
          maximum_drawdown = maximum_drawdown returns;
          hit_rate = f.mean (map (λ (t : Trial F). t.correct) trials);
          mean_calibration_error = f.mean (map (λ (t : Trial F). t.calibration_error) trials);
          risk_adjusted_return = risk_adjusted returns;
          turnover = moved;
          cost_adjusted_return = total ⊖ moved ⊗ config.turnover_cost_bps ⊘ of_nat 10_000;
          worst_slice_return = worst_slice (slice_returns returns);
          score = nought;
        }))

  unfoldable pub evaluate_profile :
      (decision_id : MarketSnapshot F → List (AgentSignal F) → ActionIntent → Option F → String)
      → WeightProfile F
      → List (ExperienceEpisode F)
      → TeacherConfig F
      → Result (EvaluationMetrics F)
  evaluate_profile decision_id profile episodes config = do
    trials ← trials_of decision_id profile none (sort_ranked is_no_later episodes)
    metrics_of config trials
