-- ===== src/Experience/Queries.antt =====
-- The readers of experience/store.py: `query`, `equivalent`, `cached_decisions`, `replay`, `reaggregate`
-- and `temporal_split`.
use the_council.Prelude.{
  ℕ, Bool, true, false, not, ◌&&◌, ◌||◌, if◌then◌else◌, Option, none, some, List, [], ◌∷◌, String,
  ◌==◌, any, select, leb,
}
use Prim.Native.String.{◌++◌}
use the_council.Prelude.Sort.{str_leb}
use the_council.Prelude.Sort.Ranked.{sort_ranked}
use the_council.Floats.{Float}
use the_council.Datetime.{Datetime, utc}
use the_council.Datetime.Iso.{time_text}
use the_council.Result.{Result, ok, ◌>>=◌, ◌>>◌, traverse}
use the_council.Schemas.Enums.{ActionIntent}
use the_council.Schemas.Market.{MarketSnapshot}
use the_council.Schemas.Signal.{AgentSignal, CouncilDecision}
use the_council.Council.Aggregator.{CouncilConfig, aggregate}
use the_council.Experience.Models.{
  ExperienceEpisode, EpisodeQuery, CouncilReplay, OutcomeTruth, TemporalReplaySplit, any_episode,
}
use the_council.Experience.Names.{validate_identity, starts_with}
use the_council.Experience.Store.{IndexRow, Store, Payloads, get_episode}

-- `column = ?`, which no NULL meets, and the tests on the time, a text.
abbrev equals : Option String → String → Bool
equals none column = true
equals (some value) column = column == value

abbrev equals_present : Option String → Option String → Bool
equals_present none column = true
equals_present (some value) none = false
equals_present (some value) (some column) = column == value

abbrev from_start : Option ℕ → String → Bool
from_start none column = true
from_start (some start) column = str_leb (time_text start) column

abbrev before_end : Option ℕ → String → Bool
before_end none column = true
before_end (some end_) column = not (str_leb (time_text end_) column)

-- The WHERE clause.
unfoldable pub selects : EpisodeQuery → IndexRow → Bool
selects q row =
    equals q.symbol row.symbol
    && equals q.weight_generation_id row.weight_generation_id
    && equals_present q.regime row.regime
    && from_start q.start row.decision_timestamp
    && before_end q.end row.decision_timestamp
    && (not q.training_only || row.training_eligible)

-- What is left out after the rows are read.
abbrev has_version : Option String → String → List String → Bool
has_version none agent versions = any (λ value. starts_with (agent ++ "@") value) versions
has_version (some version) agent versions =
    any (λ value. value == agent ++ ("@" ++ version)) versions

abbrev has_agent : Option String → Option String → List String → Bool
has_agent none version versions = true
has_agent (some agent) version versions = has_version version agent versions

unfoldable pub has_asked_agent : EpisodeQuery → IndexRow → Bool
has_asked_agent q row = has_agent q.agent_id q.agent_version row.agent_versions

-- ORDER BY decision_timestamp, episode_id.
abbrev row_before : String × IndexRow → String × IndexRow → Bool
row_before (i, a) (j, b) =
    if a.decision_timestamp == b.decision_timestamp
    then str_leb i j
    else str_leb a.decision_timestamp b.decision_timestamp

abbrev pub ordered : List (String × IndexRow) → List (String × IndexRow)
ordered = sort_ranked row_before

-- The names of the rows that a query is for, in order.
abbrev pub found_by : EpisodeQuery → Store → List (String × IndexRow)
found_by q store =
    select (λ (r : String × IndexRow). has_asked_agent q r.1)
      (ordered (select (λ (r : String × IndexRow). selects q r.1) store.rows))

abbrev pub asked_query : Option EpisodeQuery → EpisodeQuery
asked_query none = record any_episode { training_only = true }
asked_query (some q) = q

module _ {F : Type 0} where
  -- `truth is None or truth.available_at >= cutoff`.
  abbrev pub is_unavailable : ℕ → Option (OutcomeTruth F) → Bool
  is_unavailable cutoff none = true
  is_unavailable cutoff (some truth) = leb cutoff truth.available_at

  abbrev pub hold_out : CouncilReplay F → TemporalReplaySplit F → TemporalReplaySplit F
  hold_out r split = record split { held_out = r ∷ split.held_out }

  abbrev pub train : CouncilReplay F → TemporalReplaySplit F → TemporalReplaySplit F
  train r split = record split { training = r ∷ split.training }

  abbrev pub with_replay :
      Result (CouncilReplay F)
      → Result (TemporalReplaySplit F)
      → (CouncilReplay F → TemporalReplaySplit F → TemporalReplaySplit F)
      → Result (TemporalReplaySplit F)
  with_replay call rest add = do r ← call; split ← rest; ok (add r split)

  abbrev pub without_replay :
      Result (TemporalReplaySplit F) → String → Result (TemporalReplaySplit F)
  without_replay rest episode_id = do
    split ← rest
    ok (record split { excluded_unavailable_truth = episode_id ∷ split.excluded_unavailable_truth })

module _ {F : Type 0} (p : Payloads F) where
  abbrev pub read_all : Store → List (String × IndexRow) → Result (List (ExperienceEpisode F))
  read_all store rows = traverse (λ (r : String × IndexRow). get_episode p store r.0) rows

  unfoldable pub query : Store → EpisodeQuery → Result (List (ExperienceEpisode F))
  query store q = read_all store (found_by q store)

  -- `_by_identity` for its two columns.
  abbrev by_identity : Store → (IndexRow → String) → String → Result (List (ExperienceEpisode F))
  by_identity store column identity = do
    validate_identity identity
    read_all store (ordered (select (λ (r : String × IndexRow). column r.1 == identity) store.rows))

  unfoldable pub equivalent : Store → String → Result (List (ExperienceEpisode F))
  equivalent store identity = by_identity store (λ (r : IndexRow). r.equivalence_id) identity

  abbrev pub replay_of : ExperienceEpisode F → CouncilReplay F
  replay_of e = record {
    episode_id = e.episode_id;
    snapshot = e.evidence.snapshot;
    specialist_outputs = e.evidence.specialist_outputs;
    original_council_config = e.evidence.council_config;
    original_weight_generation_id = e.evidence.weight_generation_id;
    original_decision_id = e.evidence.council_decision.decision_id;
  }

  unfoldable pub replay : Store → String → Result (CouncilReplay F)
  replay store episode_id = do e ← get_episode p store episode_id; ok (replay_of e)

  unfoldable pub cached_decisions : Store → String → Result (List (CouncilReplay F))
  cached_decisions store identity = do
    episodes ← by_identity store (λ (r : IndexRow). r.decision_cache_key) identity
    traverse (λ (e : ExperienceEpisode F). replay store e.episode_id) episodes

  unfoldable pub reaggregate :
      ⦃f : Float F⦄
      → (decision_id : MarketSnapshot F → List (AgentSignal F) → ActionIntent → Option F → String)
      → Store
      → String
      → CouncilConfig F
      → Result (CouncilDecision F)
  reaggregate decision_id store episode_id config = do
    r ← replay store episode_id
    aggregate config decision_id r.snapshot r.specialist_outputs

  -- The loop over the episodes of the query: each is held out, excluded, or goes to the training. Replays
  -- are read from the store.
  abbrev pub split_all : Store → ℕ → List (ExperienceEpisode F) → Result (TemporalReplaySplit F)
  split_all store cutoff [] =
      ok (record { cutoff = cutoff; training = []; held_out = []; excluded_unavailable_truth = [] })
  split_all store cutoff (e ∷ episodes) =
      let rest = split_all store cutoff episodes in
      if leb cutoff e.evidence.decision_timestamp
      then with_replay (replay store e.episode_id) rest hold_out
      else if is_unavailable cutoff e.truth
      then without_replay rest e.episode_id
      else with_replay (replay store e.episode_id) rest train

  -- The query that is left out is for episodes with truth.
  unfoldable pub temporal_split :
      Store → Datetime → Option EpisodeQuery → Result (TemporalReplaySplit F)
  temporal_split store time q = do
    cutoff ← utc time
    episodes ← query store (asked_query q)
    split_all store cutoff episodes
