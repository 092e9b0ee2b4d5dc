-- ===== src/Experience/Store.antt =====
-- experience/store.py: `ExperienceStore`, whose state is the table `episodes` and the payload files. The
-- rendering of an episode as JSON, its parse and SHA-256 are third-party code, the record `Payloads`. A
-- list of texts is kept in the table as such: its JSON text is only parsed back.
use the_council.Prelude.{◌≡◌, Bool, true, Option, none, some, List, [], ◌∷◌, String, ◌==◌, map}
use the_council.Experience.Names.{validate_identity}
use the_council.Dict.{Dict, get, put}
use Prim.Native.String.{◌++◌}
use the_council.Datetime.Iso.{time_text}
use the_council.Result.{
  Result, ok, err, Error, ◌>>=◌, ◌>>◌, guard, of_option, corrupt_payload, index_conflict,
  payload_conflict, unindexed_conflict, unknown_episode, incompatible_episode,
}
use the_council.Experience.Models.{
  ExperienceEpisode, training_eligible, experience_schema_version, OutcomeTruth,
}

pub data CacheWriteStatus : Type 0 where
  stored hit : CacheWriteStatus

-- A row of the table.
pub record IndexRow : Type 0 where
  pub equivalence_id : String
  pub decision_cache_key : String
  pub schema_version : String
  pub symbol : String
  pub timeframe : String
  pub decision_timestamp : String
  pub weight_generation_id : String
  pub regime : Option String
  pub agent_versions : List String
  pub training_eligible : Bool
  pub truth_available_at : Option String
  pub payload_hash : String

-- A payload file holds rows of a table too; `none` is a value that is no text.
pub record Store : Type 0 where
  pub rows : Dict IndexRow
  pub files : Dict (List (Option String))

pub record Payloads (F : Type 0) : Type 0 where
  pub canonical_payload : ExperienceEpisode F → String
  pub parse : String → Result (ExperienceEpisode F)
  pub sha256 : String → String
  pub same_episode : ExperienceEpisode F → ExperienceEpisode F → Bool

-- An episode's own rendering parses back to it, and an episode is `==` itself.
pub record IsFaithful {F : Type 0} (p : Payloads F) (e : ExperienceEpisode F) : Type 0 where
  pub parse-render : p.parse (p.canonical_payload e) ≡ ok e
  pub same_refl : p.same_episode e e ≡ true

abbrev map_option : {A B : Type 0} → (A → B) → Option A → Option B
map_option f none = none
map_option f (some a) = some (f a)

module _ {F : Type 0} where
  abbrev pub row_of : ExperienceEpisode F → String → IndexRow
  row_of e hash = record {
    equivalence_id = e.equivalence_id;
    decision_cache_key = e.decision_cache_key;
    schema_version = e.schema_version;
    symbol = e.evidence.symbol;
    timeframe = e.evidence.timeframe;
    decision_timestamp = time_text e.evidence.decision_timestamp;
    weight_generation_id = e.evidence.weight_generation_id;
    regime = e.evidence.regime;
    agent_versions = map (λ v. v.agent_id ++ ("@" ++ v.version)) e.evidence.agent_versions;
    training_eligible = training_eligible e;
    truth_available_at = map_option (λ (t : OutcomeTruth F). time_text t.available_at) e.truth;
    payload_hash = hash;
  }

module _ {F : Type 0} (p : Payloads F) where
  abbrev pub read_row : String → String → Option String → Result (ExperienceEpisode F)
  read_row name hash none = err corrupt_payload
  read_row name hash (some payload) = do
    guard (p.sha256 payload == hash) corrupt_payload
    e ← p.parse payload
    guard (e.episode_id == name) corrupt_payload
    ok e

  abbrev pub read_rows :
      String → String → Option (List (Option String)) → Result (ExperienceEpisode F)
  read_rows name hash (some (row ∷ [])) = read_row name hash row
  read_rows name hash _ = err corrupt_payload

  -- `_read_payload`: whatever goes wrong is reported as corruption.
  unfoldable pub read_payload : Store → String → String → Result (ExperienceEpisode F)
  read_payload store name hash = read_rows name hash (get name store.files)

  -- The comparison with the episode that is saved.
  abbrev pub agrees : Result (ExperienceEpisode F) → ExperienceEpisode F → Error → Result (Unit {0})
  agrees loaded e conflict = do other ← loaded; guard (p.same_episode other e) conflict

  abbrev pub insert : Store → ExperienceEpisode F → String → Store
  insert store e hash = record store { rows = put e.episode_id (row_of e hash) store.rows }

  abbrev pub write_payload : Store → ExperienceEpisode F → String → Store
  write_payload store e payload = record store {
    files = put e.episode_id (some payload ∷ []) store.files;
  }

  abbrev pub save_indexed :
      Store → ExperienceEpisode F → String → IndexRow → Result CacheWriteStatus × Store
  save_indexed store e hash row = (
    do
      guard (row.payload_hash == hash) index_conflict
      agrees (read_payload store e.episode_id hash) e payload_conflict
      ok hit,
    store,
  )

  abbrev pub kept : Store → Store → Result (Unit {0}) → Result CacheWriteStatus × Store
  kept store next (err e) = (err e, store)
  kept store next (ok u) = (ok stored, next)

  abbrev pub save_new :
      Store
      → ExperienceEpisode F
      → String
      → Option (List (Option String))
      → Result CacheWriteStatus × Store
  save_new store e payload none =
      (ok stored, insert (write_payload store e payload) e (p.sha256 payload))
  save_new store e payload (some file) =
      kept store (insert store e (p.sha256 payload))
        (agrees (read_payload store e.episode_id (p.sha256 payload)) e unindexed_conflict)

  abbrev pub save_row :
      Store → ExperienceEpisode F → String → Option IndexRow → Result CacheWriteStatus × Store
  save_row store e payload (some row) = save_indexed store e (p.sha256 payload) row
  save_row store e payload none = save_new store e payload (get e.episode_id store.files)

  abbrev pub behind :
      Store → Result (Unit {0}) → Result CacheWriteStatus × Store → Result CacheWriteStatus × Store
  behind store (err e) call = (err e, store)
  behind store (ok u) call = call

  -- `save`: the answer, and the store after it.
  unfoldable pub save : ExperienceEpisode F → Store → Result CacheWriteStatus × Store
  save e store =
      behind store (validate_identity e.episode_id)
        (save_row store e (p.canonical_payload e) (get e.episode_id store.rows))

  -- `get`.
  unfoldable pub get_episode : Store → String → Result (ExperienceEpisode F)
  get_episode store name = do
    validate_identity name
    row ← of_option (unknown_episode name) (get name store.rows)
    guard (row.schema_version == experience_schema_version)
        (incompatible_episode row.schema_version)
    read_payload store name row.payload_hash
