-- ===== src/Experience/Saved.antt =====
-- What is saved can be read back, and saving it again changes nothing.
use the_council.Prelude.{
  ◌≡◌, refl, ◌∙◌, true, Option, none, some, List, [], ◌∷◌, String, ◌==◌, eq_iff, All, arith,
}
use the_council.Dict.{Dict, get, get-put}
use the_council.Result.{
  Result, ok, err, Error, guard, >>=-eq-ok, guard-eq-ok, payload_conflict, unindexed_conflict,
  index_conflict,
}
use the_council.Experience.Models.{ExperienceEpisode, experience_schema_version}
use the_council.Experience.Names.{validate_identity}
use the_council.Experience.Store.{
  CacheWriteStatus, hit, IndexRow, Store, Payloads, IsFaithful, agrees, insert, read_payload,
  row_of, save, save_new, save_row, save_indexed, get_episode, write_payload, behind, kept,
}
use the_council.Experience.Kept.{Holds}

text_refl : (s : String) → (s == s) ≡ true
text_refl s = ground (arith, eq_iff s s)

text_of : {s t : String} → (s == t) ≡ true → s ≡ t
text_of {s} {t} h = ground (arith, eq_iff s t)

abbrev pub HasVersion : IndexRow → Type 0
HasVersion row = (row.schema_version == experience_schema_version) ≡ true

-- Every row is of the version that the store was opened for.
abbrev pub IsCurrent : Store → Type 0
IsCurrent store = All (λ (r : String × IndexRow). HasVersion r.1) store.rows

version_at :
    (name : String) (rows : Dict IndexRow) (row : IndexRow)
    → All (λ (r : String × IndexRow). HasVersion r.1) rows
    → get name rows ≡ some row
    → HasVersion row
unfolding get
version_at name [] row current h = cc h
version_at name ((k, r) ∷ rows) row (c, current) h =
    ground (arith, version_at name rows row current)

module _ {F : Type 0} (p : Payloads F) (e : ExperienceEpisode F) where
  -- The row and the payload that a save leaves.
  record IsSaved (store : Store) : Type 0 where
    row : IndexRow
    loaded : ExperienceEpisode F
    found : get e.episode_id store.rows ≡ some row
    hashed : (row.payload_hash == p.sha256 (p.canonical_payload e)) ≡ true
    version : HasVersion row
    read : read_payload p store e.episode_id (p.sha256 (p.canonical_payload e)) ≡ ok loaded
    same : p.same_episode loaded e ≡ true

  agrees-eq-ok :
      (call : Result (ExperienceEpisode F)) (conflict : Error) (u : Unit {0})
      → agrees p call e conflict ≡ ok u
      → (loaded : ExperienceEpisode F) × (call ≡ ok loaded) × (p.same_episode loaded e ≡ true)
  agrees-eq-ok call conflict u h =
      let (loaded, read, rest) = >>=-eq-ok call _ h in (loaded, read, guard-eq-ok _ conflict u rest)

  indexed-IsSaved :
      (store : Store) (row : IndexRow) (status : CacheWriteStatus)
      → IsCurrent store
      → get e.episode_id store.rows ≡ some row
      → (save_indexed p store e (p.sha256 (p.canonical_payload e)) row).0 ≡ ok status
      → IsSaved store
  indexed-IsSaved store row status current found h =
      let (u, hashed, rest) =
        >>=-eq-ok (guard (row.payload_hash == p.sha256 (p.canonical_payload e)) index_conflict) _
          h in
      let (v, agreed, last) =
        >>=-eq-ok
          (agrees p (read_payload p store e.episode_id (p.sha256 (p.canonical_payload e))) e
            payload_conflict)
          _ rest in
      let (loaded, read, same) = agrees-eq-ok _ payload_conflict v agreed in
      record {
        row = row;
        loaded = loaded;
        found = found;
        hashed = guard-eq-ok _ index_conflict u hashed;
        version = version_at e.episode_id store.rows row current found;
        read = read;
        same = same;
      }

  -- The row that is new.
  inserted :
      (store : Store) (hash : String)
      → get e.episode_id (insert p store e hash).rows ≡ some (row_of e hash)
  inserted store hash =
      get-put e.episode_id e.episode_id (row_of e hash) store.rows
      ∙ rw (text_refl e.episode_id) refl

  written_read :
      (store : Store)
      → IsFaithful p e
      → read_payload p
          (write_payload p store e (p.canonical_payload e))
          e.episode_id
          (p.sha256 (p.canonical_payload e))
        ≡ ok e
  unfolding read_payload
  written_read store faithful =
      rw
        (
          get-put e.episode_id e.episode_id (some (p.canonical_payload e) ∷ []) store.files,
          text_refl e.episode_id,
          text_refl (p.sha256 (p.canonical_payload e)),
          faithful.parse-render,
          text_refl e.episode_id,
        )
        refl

  read-insert :
      (store : Store) (name hash read_hash : String)
      → read_payload p (insert p store e hash) name read_hash ≡ read_payload p store name read_hash
  unfolding read_payload
  read-insert store name hash read_hash = refl

  module _ (valid : (e.schema_version == experience_schema_version) ≡ true) where
    insert-IsSaved :
        (store : Store) (loaded : ExperienceEpisode F)
        → read_payload p store e.episode_id (p.sha256 (p.canonical_payload e)) ≡ ok loaded
        → p.same_episode loaded e ≡ true
        → IsSaved (insert p store e (p.sha256 (p.canonical_payload e)))
    insert-IsSaved store loaded read same = record {
      row = row_of e (p.sha256 (p.canonical_payload e));
      loaded = loaded;
      found = inserted store (p.sha256 (p.canonical_payload e));
      hashed = text_refl (p.sha256 (p.canonical_payload e));
      version = valid;
      read =
          read-insert store e.episode_id (p.sha256 (p.canonical_payload e))
            (p.sha256 (p.canonical_payload e))
          ∙ read;
      same = same;
    }

    kept-IsSaved :
        (store : Store) (status : CacheWriteStatus) (answer : Result (Unit {0}))
        → agrees p
            (read_payload p store e.episode_id (p.sha256 (p.canonical_payload e)))
            e
            unindexed_conflict
          ≡ answer
        → (kept p store (insert p store e (p.sha256 (p.canonical_payload e))) answer).0 ≡ ok status
        → IsSaved (kept p store (insert p store e (p.sha256 (p.canonical_payload e))) answer).1
    kept-IsSaved store status (err failure) h k = cc k
    kept-IsSaved store status (ok u) h k =
        let (loaded, read, same) = agrees-eq-ok _ unindexed_conflict u h in
        insert-IsSaved store loaded read same

    new-IsSaved :
        (store : Store) (status : CacheWriteStatus) (file : Option (List (Option String)))
        → IsFaithful p e
        → (save_new p store e (p.canonical_payload e) file).0 ≡ ok status
        → IsSaved (save_new p store e (p.canonical_payload e) file).1
    new-IsSaved store status none faithful h =
        insert-IsSaved (write_payload p store e (p.canonical_payload e)) e
          (written_read store faithful) (faithful.same_refl)
    new-IsSaved store status (some file) faithful h = kept-IsSaved store status _ refl h

    row-IsSaved :
        (store : Store) (status : CacheWriteStatus) (row : Option IndexRow)
        → IsFaithful p e
        → IsCurrent store
        → get e.episode_id store.rows ≡ row
        → (save_row p store e (p.canonical_payload e) row).0 ≡ ok status
        → IsSaved (save_row p store e (p.canonical_payload e) row).1
    row-IsSaved store status (some row) faithful current found h =
        indexed-IsSaved store row status current found h
    row-IsSaved store status none faithful current found h =
        new-IsSaved store status (get e.episode_id store.files) faithful h

    behind-IsSaved :
        (store : Store) (status : CacheWriteStatus) (test : Result (Unit {0}))
        (call : Result CacheWriteStatus × Store)
        → (call.0 ≡ ok status → IsSaved call.1)
        → (behind p store test call).0 ≡ ok status
        → IsSaved (behind p store test call).1 × (test ≡ ok tt)
    behind-IsSaved store status (err failure) call saved h = cc h
    behind-IsSaved store status (ok u) call saved h = (saved h, refl)

    IsSaved-step :
        (store : Store) (status : CacheWriteStatus)
        → IsFaithful p e
        → IsCurrent store
        → (save p e store).0 ≡ ok status
        → IsSaved (save p e store).1 × (validate_identity e.episode_id ≡ ok tt)
    unfolding save
    IsSaved-step store status faithful current h =
        behind-IsSaved store status (validate_identity e.episode_id) _
          (row-IsSaved store status (get e.episode_id store.rows) faithful current refl) h

    IsSaved-read :
        (store : Store) (saved : IsSaved store)
        → validate_identity e.episode_id ≡ ok tt
        → Holds p store e.episode_id saved.loaded
    unfolding get_episode
    IsSaved-read store saved named =
        rw (named, saved.found, saved.version, text_of saved.hashed) saved.read

    IsSaved-again :
        (store : Store) (saved : IsSaved store)
        → validate_identity e.episode_id ≡ ok tt
        → save p e store ≡ (ok hit, store)
    unfolding save
    IsSaved-again store saved named =
        rw (named, saved.found, saved.hashed, saved.read, saved.same) refl

    -- A saved episode is read as one that is `==` to it, and saving it again answers `hit` and changes
    -- nothing.
    pub save-IsKept :
        (store : Store) (status : CacheWriteStatus)
        → IsFaithful p e
        → IsCurrent store
        → (save p e store).0 ≡ ok status
        → ((loaded : ExperienceEpisode F) × Holds p (save p e store).1 e.episode_id loaded
            × (p.same_episode loaded e ≡ true))
          × (save p e (save p e store).1 ≡ (ok hit, (save p e store).1))
    save-IsKept store status faithful current h =
        let (saved, named) = IsSaved-step store status faithful current h in
        (
          (saved.loaded, IsSaved-read (save p e store).1 saved named, saved.same),
          IsSaved-again (save p e store).1 saved named,
        )
