-- ===== src/Learning/Independent.antt =====
-- The independent trials are among the episodes, and no two of them are equivalent.
use mathlib.Core.Path.{subst}
use the_council.Prelude.{
  ◌≡◌, refl, sym, ◌∙◌, eq_iff, arith, Member, All-map, Bool, true, false, List, [], ◌∷◌, String,
  ◌==◌, All, Bool-cases, inl, inr,
}
use the_council.Prelude.Sort.Ranked.{All-insert, All-sort, insert_ranked, sort_ranked}
use the_council.Dict.{Dict, get, put}
use the_council.Experience.Models.{ExperienceEpisode}
use the_council.Learning.Trials.{
  is_no_later, replaces, select_if, select_trials, values, independent_trials,
}

module _ {F : Type 0} (P : ExperienceEpisode F → Type 0) where
  abbrev Each : Dict (ExperienceEpisode F) → Type 0
  Each selected = All (λ (s : String × ExperienceEpisode F). P s.1) selected

  Each-put :
      (k : String) (e : ExperienceEpisode F) (selected : Dict (ExperienceEpisode F))
      → P e
      → Each selected
      → Each (put k e selected)
  unfolding put
  Each-put k e [] p ps = (p, tt)
  Each-put k e ((j, x) ∷ selected) p (q, qs) = elim (Bool-cases (j == k)) [
    | inl same ↦ rw same (p, qs)
    | inr other ↦ rw other (q, Each-put k e selected p qs)
  ]

  Each-select_if :
      (test : Bool) (e : ExperienceEpisode F) (selected : Dict (ExperienceEpisode F))
      → P e
      → Each selected
      → Each (select_if test e selected)
  Each-select_if true e selected p ps = Each-put e.equivalence_id e selected p ps
  Each-select_if false e selected p ps = ps

  Each-select_trials :
      (selected : Dict (ExperienceEpisode F)) (episodes : List (ExperienceEpisode F))
      → Each selected
      → All P episodes
      → Each (select_trials selected episodes)
  Each-select_trials selected [] ps qs = ps
  Each-select_trials selected (e ∷ episodes) ps (q, qs) =
      Each-select_trials (select_if (replaces e (get e.equivalence_id selected)) e selected)
        episodes (Each-select_if (replaces e (get e.equivalence_id selected)) e selected q ps) qs

  All-values : (selected : Dict (ExperienceEpisode F)) → Each selected → All P (values selected)
  All-values [] ps = tt
  All-values ((k, e) ∷ selected) (p, ps) = (p, All-values selected ps)

  -- What holds of every episode holds of every trial.
  pub All-independent_trials :
      (episodes : List (ExperienceEpisode F)) → All P episodes → All P (independent_trials episodes)
  unfolding independent_trials
  All-independent_trials episodes ps =
      All-sort is_no_later P (values (select_trials [] episodes))
        (All-values (select_trials [] episodes) (Each-select_trials [] episodes tt ps))

module _ {F : Type 0} where
  all_members : (episodes : List (ExperienceEpisode F)) → All (λ e. Member e episodes) episodes
  all_members [] = tt
  all_members (e ∷ episodes) =
      (inl refl, All-map _ _ episodes (λ x among. inr among) (all_members episodes))

  pub independent_trials-AreMembers :
      (episodes : List (ExperienceEpisode F))
      → All (λ e. Member e episodes) (independent_trials episodes)
  independent_trials-AreMembers episodes =
      All-independent_trials (λ e. Member e episodes) episodes (all_members episodes)

  -- Episodes that are not equivalent.
  abbrev pub IsApart : ExperienceEpisode F → ExperienceEpisode F → Type 0
  IsApart a b = (a.equivalence_id == b.equivalence_id) ≡ false

  -- No two of the episodes are equivalent.
  abbrev pub AreApart : List (ExperienceEpisode F) → Type 0
  AreApart [] = Unit
  AreApart (e ∷ episodes) = All (IsApart e) episodes × AreApart episodes

  IsApart-sym : (a b : ExperienceEpisode F) → IsApart a b → IsApart b a
  IsApart-sym a b h =
      ground (
        arith,
        h,
        eq_iff a.equivalence_id b.equivalence_id,
        eq_iff b.equivalence_id a.equivalence_id,
      )

  insert_ranked-AreApart :
      (e : ExperienceEpisode F) (episodes : List (ExperienceEpisode F))
      → All (IsApart e) episodes
      → AreApart episodes
      → AreApart (insert_ranked is_no_later e episodes)
  insert_ranked-AreApart e [] ps qs = (tt, tt)
  insert_ranked-AreApart e (x ∷ episodes) (p, ps) (q, qs) = elim (Bool-cases (is_no_later e x)) [
    | inl h ↦ rw h ((p, ps), (q, qs))
    | inr h ↦ rw h (
      All-insert is_no_later (IsApart x) e episodes (IsApart-sym e x p) q,
      insert_ranked-AreApart e episodes ps qs,
    )
  ]

  sort_ranked-AreApart :
      (episodes : List (ExperienceEpisode F))
      → AreApart episodes
      → AreApart (sort_ranked is_no_later episodes)
  sort_ranked-AreApart [] ps = tt
  sort_ranked-AreApart (e ∷ episodes) (p, ps) =
      insert_ranked-AreApart e (sort_ranked is_no_later episodes)
        (All-sort is_no_later (IsApart e) episodes p) (sort_ranked-AreApart episodes ps)

  -- A selection in which each episode stands under its equivalence id, and no two are equivalent.
  abbrev IsSelection : Dict (ExperienceEpisode F) → Type 0
  IsSelection [] = Unit
  IsSelection ((k, e) ∷ selected) =
      (k ≡ e.equivalence_id) × Each (IsApart e) selected × IsSelection selected

  put-IsSelection :
      (e : ExperienceEpisode F) (selected : Dict (ExperienceEpisode F))
      → IsSelection selected
      → IsSelection (put e.equivalence_id e selected)
  unfolding put
  put-IsSelection e [] ps = (refl, tt, tt)
  put-IsSelection e ((k, x) ∷ selected) (named, apart, ps) =
      elim (Bool-cases (k == e.equivalence_id)) [
        | inl same ↦
            let equal : k ≡ e.equivalence_id = (eq_iff k e.equivalence_id).0 same in
            rw same (
              equal,
              subst (λ (i : String). All (λ s. (i == s.1.equivalence_id) ≡ false) selected)
                  (sym named ∙ equal) apart,
              ps,
            )
        | inr other ↦ rw other (
          named,
          Each-put (IsApart x) e.equivalence_id e selected
              (subst (λ (i : String). (i == e.equivalence_id) ≡ false) named other) apart,
          put-IsSelection e selected ps,
        )
      ]

  select_if-IsSelection :
      (test : Bool) (e : ExperienceEpisode F) (selected : Dict (ExperienceEpisode F))
      → IsSelection selected
      → IsSelection (select_if test e selected)
  select_if-IsSelection true e selected ps = put-IsSelection e selected ps
  select_if-IsSelection false e selected ps = ps

  select_trials-IsSelection :
      (selected : Dict (ExperienceEpisode F)) (episodes : List (ExperienceEpisode F))
      → IsSelection selected
      → IsSelection (select_trials selected episodes)
  select_trials-IsSelection selected [] ps = ps
  select_trials-IsSelection selected (e ∷ episodes) ps =
      let replaced = replaces e (get e.equivalence_id selected) in
      select_trials-IsSelection (select_if replaced e selected) episodes
        (select_if-IsSelection replaced e selected ps)

  values-AreApart :
      (selected : Dict (ExperienceEpisode F)) → IsSelection selected → AreApart (values selected)
  values-AreApart [] ps = tt
  values-AreApart ((k, e) ∷ selected) (named, apart, ps) =
      (All-values (IsApart e) selected apart, values-AreApart selected ps)

  pub independent_trials-AreApart :
      (episodes : List (ExperienceEpisode F)) → AreApart (independent_trials episodes)
  unfolding independent_trials
  independent_trials-AreApart episodes =
      sort_ranked-AreApart (values (select_trials [] episodes))
        (values-AreApart (select_trials [] episodes) (select_trials-IsSelection [] episodes tt))
