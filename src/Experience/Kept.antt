-- ===== src/Experience/Kept.antt =====
-- What the store keeps: an episode that is saved can be read, and stays as it is.
use the_council.Prelude.{
  ◌≡◌, refl, ◌∙◌, true, false, Option, none, some, List, [], ◌∷◌, String, ◌==◌, eq_iff, arith,
}
use the_council.Dict.{get, get-put}
use the_council.Result.{
  Result, ok, err, guard, of_option, unknown_episode, incompatible_episode, of_option-eq-ok,
  >>=-eq-ok, guard-eq-ok,
}
use the_council.Experience.Models.{ExperienceEpisode, experience_schema_version}
use the_council.Experience.Names.{validate_identity}
use the_council.Experience.Store.{
  CacheWriteStatus, IndexRow, Store, Payloads, insert, read_payload, row_of, save, write_payload,
  behind, kept, save_new, save_row, get_episode,
}

module _ {F : Type 0} (p : Payloads F) where
  -- What the store has under a name: a row, of the known version, and a payload that reads as an episode.
  abbrev pub Holds : Store → String → ExperienceEpisode F → Type 0
  Holds store name e = get_episode p store name ≡ ok e

  pub get_episode-eq-ok :
      (store : Store) (name : String) (e : ExperienceEpisode F)
      → Holds store name e
      → (row : IndexRow) × (validate_identity name ≡ ok tt)
        × (get name store.rows ≡ some row)
        × ((row.schema_version == experience_schema_version) ≡ true)
        × (read_payload p store name row.payload_hash ≡ ok e)
  unfolding get_episode
  get_episode-eq-ok store name e h =
      let (u, named, rest) = >>=-eq-ok (validate_identity name) _ h in
      let (row, found, last) =
        >>=-eq-ok (of_option (unknown_episode name) (get name store.rows)) _ rest in
      let (v, version, read) =
        >>=-eq-ok
          (guard (row.schema_version == experience_schema_version)
            (incompatible_episode row.schema_version))
          _ last in
      (
        row,
        named,
        of_option-eq-ok _ (get name store.rows) row found,
        guard-eq-ok _ _ v version,
        read,
      )

  -- A name with a row and its file is read the same from any store with that row and that file.
  Holds-same :
      (store next : Store) (name : String) (e : ExperienceEpisode F)
      → get name next.rows ≡ get name store.rows
      → get name next.files ≡ get name store.files
      → Holds store name e
      → Holds next name e
  unfolding get_episode read_payload
  Holds-same store next name e r f h = rw (r, f) h

  -- Another episode's row and file make no difference.
  Holds-insert :
      (store : Store) (x e : ExperienceEpisode F) (name hash : String)
      → (x.episode_id == name) ≡ false
      → Holds store name e
      → Holds (insert p store x hash) name e
  Holds-insert store x e name hash other h =
      Holds-same store (insert p store x hash) name e
        (get-put x.episode_id name (row_of x hash) store.rows ∙ rw other refl) refl h

  Holds-write :
      (store : Store) (x e : ExperienceEpisode F) (name payload : String)
      → (x.episode_id == name) ≡ false
      → Holds store name e
      → Holds (write_payload p store x payload) name e
  Holds-write store x e name payload other h =
      Holds-same store (write_payload p store x payload) name e refl
        (get-put x.episode_id name (some payload ∷ []) store.files ∙ rw other refl) h

  -- A name that holds an episode is not the name of one without a row.
  names_differ :
      (store : Store) (x e : ExperienceEpisode F) (name : String)
      → get x.episode_id store.rows ≡ none
      → Holds store name e
      → (x.episode_id == name) ≡ false
  names_differ store x e name absent h =
      let (row, _, found, _, _) = get_episode-eq-ok store name e h in
      ground (arith, eq_iff x.episode_id name)

  module _ (x e : ExperienceEpisode F) (store : Store) (name : String)
      (h : Holds store name e) where
    Holds-kept :
        (next : Store) (answer : Result (Unit {0}))
        → Holds next name e
        → Holds (kept p store next answer).1 name e
    Holds-kept next (err failure) n = h
    Holds-kept next (ok u) n = n

    Holds-new :
        (payload : String) (file : Option (List (Option String)))
        → (x.episode_id == name) ≡ false
        → Holds (save_new p store x payload file).1 name e
    Holds-new payload none other =
        Holds-insert (write_payload p store x payload) x e name (p.sha256 payload) other
          (Holds-write store x e name payload other h)
    Holds-new payload (some file) other =
        Holds-kept (insert p store x (p.sha256 payload)) _
          (Holds-insert store x e name (p.sha256 payload) other h)

    Holds-row :
        (payload : String) (row : Option IndexRow)
        → get x.episode_id store.rows ≡ row
        → Holds (save_row p store x payload row).1 name e
    Holds-row payload (some row) found = h
    Holds-row payload none found =
        Holds-new payload (get x.episode_id store.files) (names_differ store x e name found h)

    Holds-behind :
        (test : Result (Unit {0})) (call : Result CacheWriteStatus × Store)
        → Holds call.1 name e
        → Holds (behind p store test call).1 name e
    Holds-behind (err failure) call n = h
    Holds-behind (ok u) call n = n

    -- Whatever is saved, with whatever answer, an episode that could be read is read the same.
    pub save-Holds : Holds (save p x store).1 name e
    unfolding save
    save-Holds =
        Holds-behind (validate_identity x.episode_id) _
          (Holds-row (p.canonical_payload x) (get x.episode_id store.rows) refl)
