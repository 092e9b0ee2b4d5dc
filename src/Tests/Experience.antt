-- ===== src/Tests/Experience.antt =====
-- A store with two episodes of the small market.
use the_council.Prelude.{
  ltb, ◌≡◌, refl, ℕ, true, Option, none, some, List, [], ◌∷◌, String, ◌==◌, if◌then◌else◌,
}
use the_council.Prelude.Int.{ℤ}
use the_council.Floats.Fixed.{fixed_float}
use the_council.Datetime.{aware, utc}
use the_council.Datetime.Iso.{time_text}
use the_council.Dict.{get, put}
use the_council.Result.{ok, err, raised}
use the_council.Schemas.Enums.{long}
use the_council.Experience.Models.{
  ExperienceEpisode, OutcomeTruth, TemporalReplaySplit, any_episode,
}
use the_council.Experience.Names.{validate_identity}
use the_council.Experience.Store.{Store, Payloads, save, get_episode, read_payload, stored, hit}
use the_council.Experience.Queries.{
  query, selects, has_asked_agent, replay, temporal_split, replay_of,
}
use the_council.Experience.Kept.{Holds, save-Holds}
use the_council.Experience.Saved.{save-IsKept}
use the_council.Experience.Split.{IsSplitOf, temporal_split-IsSplit}
use the_council.Tests.Data.{snapshot, signal_of, decision, config, num}
use the_council.MarketData.Models.{in_memory, btc, usd, hour_1}

abbrev pub truth : OutcomeTruth ℤ
truth = record {
  oracle_outcome = record {
    experiment_id = "run";
    evaluation_time = 3000;
    horizon_end = 4000;
    start_price = some (num 100 0);
    endpoint_price = some (num 110 0);
    realized_return = some (num 1 1);
    realized_direction = some long;
    maximum_favorable_excursion = some (num 1 1);
    maximum_adverse_excursion = some (num 0 0);
    provenance = record {
      request = record {
        instrument = record { base = btc; quote = usd };
        timeframe = hour_1;
        start = 3000;
        end = 4000;
        as_of = 4000;
        market = "spot";
      };
      provider = in_memory;
      fetched_at = 4000;
      source_version = "1";
      adapter_semantic_version = "1";
      cache_key = "key";
      content_identity = "content";
    };
    horizon_complete = true;
  };
  judge_evaluation = record {
    experiment_id = "run";
    forecast_id = "forecast";
    directional_correctness = true;
    forecast_direction = long;
    realized_direction = long;
    expected_return = some (num 5 2);
    realized_return = num 1 1;
    absolute_return_error = some (num 5 2);
    signed_return_error = some (num 5 2);
    confidence = num 8 1;
    calibration_bucket = "0.8-1.0";
    evaluated_at = 4500;
  };
  available_at = 4500;
}

abbrev pub episode_of : String → Option (OutcomeTruth ℤ) → ExperienceEpisode ℤ
episode_of name truth = record {
  schema_version = "1.0";
  evidence = record {
    symbol = "BTC/USD";
    asset_class = none;
    timeframe = "1h";
    decision_timestamp = 3000;
    market_data_content_identity = "content";
    market_data_version = "kraken:1:1";
    snapshot = snapshot;
    specialist_outputs = signal_of "trend" ∷ [];
    agent_versions = record { agent_id = "trend"; version = "1" } ∷ [];
    council_config = config;
    applied_weights = [];
    weight_generation_id = "weights-v0000";
    council_decision = decision;
    risk_policy_version = "1";
    risk_decision = none;
    execution_report = none;
    portfolio_state = none;
    backtest_run_id = "run";
    regime = none;
  };
  truth = truth;
  episode_id = name;
  equivalence_id = name;
  decision_cache_key = name;
}

abbrev name_of : ℕ → String
name_of n =
    if ltb n 1
    then "0000000000000000000000000000000000000000000000000000000000000000"
    else if ltb n 2
    then "1111111111111111111111111111111111111111111111111111111111111111"
    else "2222222222222222222222222222222222222222222222222222222222222222"

abbrev first : ExperienceEpisode ℤ
first = episode_of (name_of 0) (some truth)

abbrev second : ExperienceEpisode ℤ
second = episode_of (name_of 1) none

-- One that was decided later.
abbrev third : ExperienceEpisode ℤ
third =
    let e = episode_of (name_of 2) none in
    record e { evidence = record e.evidence { decision_timestamp = 6000 } }

-- Each episode is rendered as its name.
abbrev payloads : Payloads ℤ
payloads = record {
  canonical_payload = λ e. e.episode_id;
  parse = λ s.
      if s == name_of 0
      then ok first
      else if s == name_of 1
      then ok second
      else if s == name_of 2
      then ok third
      else err (raised "no JSON");
  sha256 = λ s. s;
  same_episode = λ a b. a.episode_id == b.episode_id;
}

abbrev empty : Store
empty = record { rows = []; files = [] }

-- What the examples compute with.
unfoldable keeping : Unit {0}
unfolding save get_episode read_payload validate_identity get put time_text query selects
    has_asked_agent replay temporal_split
keeping = tt

abbrev both : Store
both = (save payloads second (save payloads first empty).1).1

save-IsKept_example :
    ((loaded : ExperienceEpisode ℤ) × Holds payloads
        (save payloads first empty).1
        first.episode_id
        loaded
      × (payloads.same_episode loaded first ≡ true))
    × (save payloads first (save payloads first empty).1 ≡ (ok hit, (save payloads first empty).1))
unfolding keeping
save-IsKept_example =
    save-IsKept payloads first refl empty stored (record { parse-render = refl; same_refl = refl })
      tt refl

save-Holds_example : Holds payloads both (name_of 0) first
unfolding keeping
save-Holds_example = save-Holds payloads second first (save payloads first empty).1 (name_of 0) refl

abbrev all_three : Store
all_three = (save payloads third both).1

-- At the instant 5000 the first episode is known, the truth of the second is not, and the third lies ahead.
abbrev cutoff_split : TemporalReplaySplit ℤ
cutoff_split = record {
  cutoff = 5000;
  training = replay_of payloads first ∷ [];
  held_out = replay_of payloads third ∷ [];
  excluded_unavailable_truth = name_of 1 ∷ [];
}

temporal_split-IsSplit_example :
    (cutoff : ℕ) × (episodes : List (ExperienceEpisode ℤ)) × (utc (aware 5000) ≡ ok cutoff)
    × (query payloads all_three any_episode ≡ ok episodes)
    × IsSplitOf payloads all_three cutoff episodes cutoff_split
unfolding keeping
temporal_split-IsSplit_example =
    temporal_split-IsSplit payloads all_three (aware 5000) (some any_episode) cutoff_split refl
