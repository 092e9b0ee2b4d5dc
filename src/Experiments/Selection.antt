-- ===== src/Experiments/Selection.antt =====
-- `HistoricalExperimentSelector` of experiments/batch.py: the points in time for a batch of experiments.
use the_council.Datetime.{add_time}
use the_council.Prelude.{
  ℕ, zero, suc, ◌+◌, ◌-◌, ◌*◌, Bool, false, ◌&&◌, if◌then◌else◌, some, List, [], ◌∷◌, ◌==◌, all,
  eqb, leb, ltb, length, map, foldl, select, take,
}
use Prim.Native.String.{◌++◌}
use the_council.Prelude.Int.{ℤ}
use the_council.Prelude.Digits.{decimal}
use the_council.Prelude.Numbers.{sort_at}
use the_council.Agents.{SpecialistAgent, duration_of}
use the_council.Result.{Result, ok, ◌>>=◌, ◌>>◌, guard, refuse, raised, invalid_field}
use the_council.Schemas.Market.{MarketBar}
use the_council.MarketData.Models.{
  ProviderId, HistoricalRequest, HistoricalBars, duration, validate_request, same_request,
  provider_value,
}
use the_council.Experiments.Models.{ExperimentRequest, ExperimentAgentConfig}
use the_council.Experiments.Context.{
  required_context_bars, timeframe_of, instrument_of, subtract_time, horizon_bars,
}

pub record RandomExperimentRequest (F : Type 0) : Type 0 where
  pub template : ExperimentRequest F
  pub range_start : ℕ
  pub range_end : ℕ
  pub samples : ℕ
  pub seed : ℤ

-- When each bar closed, and when it was available: a dictionary in the order of insertion.
abbrev put_close : List (ℕ × ℕ) → ℕ × ℕ → List (ℕ × ℕ)
put_close [] (time, available) = (time, available) ∷ []
put_close ((t, a) ∷ closes) (time, available) =
    let rest = put_close closes (time, available) in
    if eqb t time then (time, available) ∷ closes else (t, a) ∷ rest

-- `time in available_closes and available_closes[time] <= limit`.
abbrev is_available_by : List (ℕ × ℕ) → ℕ → ℕ → Bool
is_available_by [] time limit = false
is_available_by ((t, a) ∷ closes) time limit =
    let rest = is_available_by closes time limit in if eqb t time then leb a limit else rest

-- The numbers below n.
abbrev below : ℕ → List ℕ
below zero = []
below (suc n) = n ∷ below n

-- What is computed before the provider is asked.
pub record Plan : Type 0 where
  pub step : ℕ
  pub warmup : ℕ
  pub horizon : ℕ
  pub asked : HistoricalRequest

-- The whole context is there by the time, and the whole horizon by its end. A context that began before
-- the range's would have been refused with the range.
unfoldable pub is_selectable : Plan → List (ℕ × ℕ) → ℕ → Bool
is_selectable plan closes time =
    all (λ k. is_available_by closes (time - k * plan.step) time) (below plan.warmup)
    && all
        (λ k. is_available_by closes (time + (k + 1) * plan.step) (time + plan.horizon * plan.step))
        (below plan.horizon)

module _ {F : Type 0} where
  unfoldable pub validate_random : RandomExperimentRequest F → Result (RandomExperimentRequest F)
  validate_random r = do
    guard (ltb 0 r.samples) invalid_field
    refuse (leb r.range_end r.range_start)
        (raised "random experiment range_end must follow range_start")
    ok r

  -- `bar.closed_at: bar.available_at`.
  abbrev pub times_of : List (MarketBar F) → List (ℕ × ℕ)
  times_of bars = map (λ (b : MarketBar F). (b.closed_at, b.available_at)) bars

  -- The loop over the sorted closes.
  unfoldable pub candidates : RandomExperimentRequest F → Plan → List (ℕ × ℕ) → List ℕ
  candidates r plan times =
      let closes = foldl put_close [] times in
      select
        (λ time. (leb r.range_start time && leb time r.range_end) && is_selectable plan closes time)
        (map (λ (c : ℕ × ℕ). c.0) (sort_at (λ (c : ℕ × ℕ). c.0) closes))

  module _ (build_agents : List (ExperimentAgentConfig F) → Result (List (SpecialistAgent F))) where
    unfoldable pub plan_of : RandomExperimentRequest F → Result Plan
    plan_of r = do
      timeframe ← timeframe_of r.template.timeframe
      warmup ← required_context_bars build_agents r.template
      instrument ← instrument_of r.template.instrument
      start ← subtract_time r.range_start (warmup * duration timeframe)
      later ← duration_of r.template.forecast_horizon
      end ← add_time r.range_end later
      asked ← validate_request (record {
        instrument = instrument;
        timeframe = timeframe;
        start = start;
        end = end;
        as_of = end;
        market = "";
      })
      horizon ← horizon_bars r.template
      ok (record { step = duration timeframe; warmup = warmup; horizon = horizon; asked = asked })

  module _ (rank : ℤ → ℕ → ℕ) where
    -- The samples, in the order of their digests; `rank` is SHA-256 of the seed and the time, as a number.
    unfoldable pub chosen_from :
        RandomExperimentRequest F
        → Plan
        → HistoricalRequest
        → ProviderId
        → List (ℕ × ℕ)
        → Result (List (ExperimentRequest F))
    chosen_from r plan request provider times = do
      guard
          (same_request request plan.asked
            && provider_value provider == provider_value r.template.provider)
          (raised "historical provider returned data for a different selection request")
      let found = candidates r plan times
      refuse (ltb (length found) r.samples) (
          raised (
            "only "
            ++ decimal (length found)
            ++ " valid evaluation points are available for "
            ++ decimal r.samples
            ++ " requested samples"))
      ok (
          map (λ time. record r.template { evaluation_time = time; random_seed = some r.seed })
            (take r.samples (sort_at (rank r.seed) found)))

    module _
        (build_agents : List (ExperimentAgentConfig F) → Result (List (SpecialistAgent F))) where
      -- `select`.
      unfoldable pub select_points :
          (HistoricalRequest → Result (HistoricalBars F))
          → RandomExperimentRequest F
          → Result (List (ExperimentRequest F))
      select_points fetch r = do
        plan ← plan_of build_agents r
        history ← fetch plan.asked
        chosen_from r plan history.request history.provider (times_of history.bars)
