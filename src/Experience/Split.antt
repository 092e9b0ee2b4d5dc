-- ===== src/Experience/Split.antt =====
-- The split of experience by time lets nothing through that was not known at the cutoff.
use mathlib.Core.Path.{subst}
use the_council.Prelude.{
  ◌≡◌, refl, sym, ℕ, ◌≤◌, ◌<◌, false, Option, none, some, List, [], ◌∷◌, String, ◌==◌, leb,
  Bool-cases, inl, inr, eq_iff, All, leb→le, arith, ◌⊎◌, true,
}
use the_council.Datetime.{Datetime, utc}
use the_council.Result.{Result, ok, err, guard, >>=-eq-ok, ok-injective, corrupt_payload, ◌>>=◌}
use the_council.Experience.Models.{
  ExperienceEpisode, EpisodeQuery, CouncilReplay, OutcomeTruth, TemporalReplaySplit,
}
use the_council.Experience.Store.{IndexRow, Store, Payloads, get_episode, read_payload, read_rows}
use the_council.Experience.Queries.{
  query, read_all, found_by, replay, replay_of, split_all, temporal_split, is_unavailable, hold_out,
  train, asked_query,
}
use the_council.Experience.Kept.{Holds, get_episode-eq-ok}

module _ {F : Type 0} (p : Payloads F) (store : Store) where
  -- An episode of the store that was decided before the cutoff, and whose truth was available before it.
  abbrev pub WasKnown : ℕ → ExperienceEpisode F → Type 0
  WasKnown cutoff e =
      (t : OutcomeTruth F) × Holds p store e.episode_id e
      × (e.truth ≡ some t)
      × (e.evidence.decision_timestamp < cutoff)
      × (t.available_at < cutoff)

  -- One that was decided at the cutoff or later.
  abbrev pub IsHeldOut : ℕ → ExperienceEpisode F → Type 0
  IsHeldOut cutoff e = Holds p store e.episode_id e × (cutoff ≤ e.evidence.decision_timestamp)

  -- An episode that was decided before the cutoff, and whose truth was not available before it.
  abbrev pub IsUnknown : ℕ → ExperienceEpisode F → Type 0
  IsUnknown cutoff e =
      (e.evidence.decision_timestamp < cutoff)
      × ((e.truth ≡ none) ⊎ ((t : OutcomeTruth F) × (e.truth ≡ some t) × (cutoff ≤ t.available_at)))

  -- The parts that a list of episodes is split into, each in the order of the list: every episode is in
  -- the one part that its times call for, and nothing else is in a part.
  pub data IsSplit (cutoff : ℕ)
      : List (ExperienceEpisode F)
        → (training held_out : List (CouncilReplay F)) → (excluded : List String) → Type 0 where
    all_split : IsSplit cutoff [] [] [] []
    for_training :
        {episodes : List (ExperienceEpisode F)} {training held_out : List (CouncilReplay F)}
        {excluded : List String} (e : ExperienceEpisode F)
        → WasKnown cutoff e
        → IsSplit cutoff episodes training held_out excluded
        → IsSplit cutoff (e ∷ episodes) (replay_of p e ∷ training) held_out excluded
    for_later :
        {episodes : List (ExperienceEpisode F)} {training held_out : List (CouncilReplay F)}
        {excluded : List String} (e : ExperienceEpisode F)
        → IsHeldOut cutoff e
        → IsSplit cutoff episodes training held_out excluded
        → IsSplit cutoff (e ∷ episodes) training (replay_of p e ∷ held_out) excluded
    for_none :
        {episodes : List (ExperienceEpisode F)} {training held_out : List (CouncilReplay F)}
        {excluded : List String} (e : ExperienceEpisode F)
        → IsUnknown cutoff e
        → IsSplit cutoff episodes training held_out excluded
        → IsSplit cutoff (e ∷ episodes) training held_out (e.episode_id ∷ excluded)

  abbrev pub IsSplitOf : ℕ → List (ExperienceEpisode F) → TemporalReplaySplit F → Type 0
  IsSplitOf cutoff episodes split =
      (split.cutoff ≡ cutoff)
      × IsSplit cutoff episodes split.training split.held_out split.excluded_unavailable_truth

  -- An episode is read under its own name.
  row_named :
      (name hash : String) (rows : Option (List (Option String))) (e : ExperienceEpisode F)
      → read_rows p name hash rows ≡ ok e
      → e.episode_id ≡ name
  row_named name hash (some (some payload ∷ [])) e h =
      let (u, hashed, rest) = >>=-eq-ok (guard (p.sha256 payload == hash) corrupt_payload) _ h in
      let (other, parsed, last) = >>=-eq-ok (p.parse payload) _ rest in
      ground (arith, eq_iff other.episode_id name)
  row_named name hash (some (none ∷ [])) e h = cc h
  row_named name hash (some []) e h = cc h
  row_named name hash (some (a ∷ b ∷ rows)) e h = cc h
  row_named name hash none e h = cc h

  Holds-named :
      (name : String) (e : ExperienceEpisode F)
      → Holds p store name e
      → Holds p store e.episode_id e
  unfolding read_payload
  Holds-named name e h =
      let (row, _, _, _, read) = get_episode-eq-ok p store name e h in
      subst (λ n. Holds p store n e) (sym (row_named name row.payload_hash _ e read)) h

  read_all_hold :
      (rows : List (String × IndexRow)) (episodes : List (ExperienceEpisode F))
      → read_all p store rows ≡ ok episodes
      → All (λ (e : ExperienceEpisode F). Holds p store e.episode_id e) episodes
  read_all_hold [] episodes h =
      subst (All (λ (e : ExperienceEpisode F). Holds p store e.episode_id e)) (ok-injective h) tt
  read_all_hold (r ∷ rows) episodes h =
      let (e, first, rest) = >>=-eq-ok (get_episode p store r.0) _ h in
      let (more, others, last) = >>=-eq-ok (read_all p store rows) _ rest in
      subst (All (λ (x : ExperienceEpisode F). Holds p store x.episode_id x)) (ok-injective last)
        (Holds-named r.0 e first, read_all_hold rows more others)

  replay_held :
      (e : ExperienceEpisode F)
      → Holds p store e.episode_id e
      → replay p store e.episode_id ≡ ok (replay_of p e)
  unfolding replay
  replay_held e h = rw h refl

  -- One more episode, and the split of the others.
  module _ (cutoff : ℕ) (episodes : List (ExperienceEpisode F)) (e : ExperienceEpisode F)
      (split : TemporalReplaySplit F) where
    added-IsSplitOf :
        (rest : Result (TemporalReplaySplit F))
        (add : TemporalReplaySplit F → TemporalReplaySplit F)
        → ((more : TemporalReplaySplit F) → rest ≡ ok more → IsSplitOf cutoff episodes more)
        → ((more : TemporalReplaySplit F)
            → IsSplitOf cutoff episodes more
            → IsSplitOf cutoff (e ∷ episodes) (add more))
        → (rest >>= λ more. ok (add more)) ≡ ok split
        → IsSplitOf cutoff (e ∷ episodes) split
    added-IsSplitOf (err failure) add others extend h = cc h
    added-IsSplitOf (ok more) add others extend h =
        subst (IsSplitOf cutoff (e ∷ episodes)) (ok-injective h) (extend more (others more refl))

  available_of :
      (cutoff : ℕ) (truth : Option (OutcomeTruth F))
      → is_unavailable cutoff truth ≡ false
      → (t : OutcomeTruth F) × (truth ≡ some t) × (t.available_at < cutoff)
  available_of cutoff none h = cc h
  available_of cutoff (some t) h = (t, refl, ground (arith))

  unavailable_of :
      (cutoff : ℕ) (truth : Option (OutcomeTruth F))
      → is_unavailable cutoff truth ≡ true
      → (truth ≡ none) ⊎ ((t : OutcomeTruth F) × (truth ≡ some t) × (cutoff ≤ t.available_at))
  unavailable_of cutoff none h = inl refl
  unavailable_of cutoff (some t) h = inr (t, refl, ground (arith))

  split_all-IsSplitOf :
      (cutoff : ℕ) (episodes : List (ExperienceEpisode F)) (split : TemporalReplaySplit F)
      → All (λ (e : ExperienceEpisode F). Holds p store e.episode_id e) episodes
      → split_all p store cutoff episodes ≡ ok split
      → IsSplitOf cutoff episodes split
  split_all-IsSplitOf cutoff [] split held h =
      subst (IsSplitOf cutoff []) (ok-injective h) (refl, all_split)
  split_all-IsSplitOf cutoff (e ∷ episodes) split (here, held) h =
      let rest = split_all p store cutoff episodes in
      let others : (more : TemporalReplaySplit F)
          → split_all p store cutoff episodes ≡ ok more
          → IsSplitOf cutoff episodes more =
        λ more g. split_all-IsSplitOf cutoff episodes more held g in
      elim (Bool-cases (leb cutoff e.evidence.decision_timestamp)) [
        | inl late ↦
            added-IsSplitOf cutoff episodes e split rest (hold_out (replay_of p e)) others
              (λ more (same, parts). (same, for_later e (here, leb→le _ _ late) parts))
              (rw (late, replay_held e here) at h)
        | inr early ↦ elim (Bool-cases (is_unavailable cutoff e.truth)) [
          | inl unknown ↦
              added-IsSplitOf cutoff episodes e split rest _ others
                (λ more (same, parts).
                  (same, for_none e (ground arith, unavailable_of cutoff e.truth unknown) parts))
                (rw (early, unknown) at h)
          | inr known ↦
              let (t, truth, before) = available_of cutoff e.truth known in
              added-IsSplitOf cutoff episodes e split rest (train (replay_of p e)) others
                (λ more (same, parts).
                  (same, for_training e (t, here, truth, ground arith, before) parts))
                (rw (early, known, replay_held e here) at h)
        ]
      ]

  -- Each episode that the query finds is in exactly one part of the split, and nothing else is in any. The
  -- replays for training are of the episodes that were decided before the cutoff and whose truth was
  -- available before it; those held out are of the ones decided at the cutoff or later; and excluded, by
  -- their names, are those decided before it whose truth was not available then.
  pub temporal_split-IsSplit :
      (time : Datetime) (q : Option EpisodeQuery) (split : TemporalReplaySplit F)
      → temporal_split p store time q ≡ ok split
      → (cutoff : ℕ) × (episodes : List (ExperienceEpisode F)) × (utc time ≡ ok cutoff)
        × (query p store (asked_query q) ≡ ok episodes)
        × IsSplitOf cutoff episodes split
  unfolding temporal_split query
  temporal_split-IsSplit time q split h =
      let (cutoff, aware_time, rest) = >>=-eq-ok (utc time) _ h in
      let (episodes, asked, last) = >>=-eq-ok (query p store (asked_query q)) _ rest in
      (
        cutoff,
        episodes,
        aware_time,
        asked,
        split_all-IsSplitOf cutoff episodes split
            (read_all_hold (found_by (asked_query q) store) episodes asked) last,
      )
