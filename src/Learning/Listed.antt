-- ===== src/Learning/Listed.antt =====
-- What the methods of a weight profile store read of a chained store.
use mathlib.Core.Path.{subst}
use the_council.Prelude.{
  ◌≡◌, sym, ap, ◌∙◌, inl, inr, ℕ, ◌<◌, Bool-cases, Option, none, some, List, [], ◌∷◌, String, ◌==◌,
  eq_iff, select, Member, arith,
}
use the_council.Prelude.Members.{Member-select, Member-sort_at}
use the_council.Floats.{Float}
use the_council.Dict.{Dict, get, keys}
use the_council.Result.{
  Result, ok, guard, of_option, traverse, >>=-eq-ok, ok-injective, not_initialized,
  undeclared_scope, review_conflict,
}
use the_council.Learning.Models.{
  WeightProfile, WeightChange, WeightProposal, TeacherResult, LearningReview, validate_profile,
  validate_review,
}
use the_council.Learning.Names.{is_generation_id}
use the_council.Learning.Applied.{apply_changes, applied_entries, are_declared}
use the_council.Learning.Profiles.{
  ProfileStore, Rendering, get_profile, active_profile, list_profiles, next_generation,
  record_review, keep_review,
}
use the_council.Learning.Chained.{IsChained, get_profile-Reads, get_profile-Found}

Member-keys : {V : Type 0} (k : String) (d : Dict V) (v : V) → get k d ≡ some v → Member k (keys d)
unfolding get
Member-keys k [] v h = cc h
Member-keys k ((j, w) ∷ d) v h = elim (Bool-cases (j == k)) [
  | inl same ↦ inl (ground (arith, eq_iff j k))
  | inr other ↦ inr (Member-keys k d v (rw other at h))
]

traverse-Member :
    {A B : Type 0} (g : A → Result B) (x : A) (y : B) (xs : List A) (ys : List B)
    → traverse g xs ≡ ok ys
    → Member x xs
    → g x ≡ ok y
    → Member y ys
traverse-Member g x y [] ys h m e = elim m [ ]
traverse-Member g x y (z ∷ xs) ys h m e =
    let (first, got, rest) = >>=-eq-ok (g z) _ h in
    let (others, more, last) = >>=-eq-ok (traverse g xs) _ rest in
    subst (Member y) (ok-injective last) (elim m [
      | inl same ↦ inl (ok-injective (sym e ∙ ap g same ∙ got))
      | inr later ↦ inr (traverse-Member g x y xs others more later e)
    ])

module _ {F : Type 0} where
  validate_profile-eq-ok :
      (identity : WeightProfile F → String) (p q : WeightProfile F)
      → validate_profile identity p ≡ ok q
      → q ≡ record p { profile_id = identity (record p { profile_id = "" }) }
  unfolding validate_profile
  validate_profile-eq-ok identity p q h = ground arith

  -- A profile that has been validated is valid.
  pub validated_valid :
      (identity : WeightProfile F → String) (p q : WeightProfile F)
      → validate_profile identity p ≡ ok q
      → validate_profile identity q ≡ ok q
  unfolding validate_profile
  validated_valid identity p q h =
      subst (λ (x : WeightProfile F). validate_profile identity x ≡ ok x)
        (sym (validate_profile-eq-ok identity p q h))
        (ground (
          arith,
          eq_iff (identity (record p { profile_id = "" }))
              (identity (record p { profile_id = "" })),
        ))

  pub next_generation-Above :
      (r : Rendering F) (p : WeightProfile F) (ps : List (WeightProfile F))
      → Member p ps
      → p.generation < next_generation r ps
  next_generation-Above r p [] m = elim m [ ]
  next_generation-Above r p (q ∷ ps) (inl same) =
      omega (arith, ap (λ (x : WeightProfile F). x.generation) same)
  next_generation-Above r p (q ∷ ps) (inr later) = omega (arith, next_generation-Above r p ps later)

module _ {F : Type 0} ⦃f : Float F⦄ where
  pub apply_changes-eq-ok :
      (identity : WeightProfile F → String) (base : WeightProfile F)
      (changes : List (WeightChange F)) (created_at : ℕ) (scoring_version : String) (generation : ℕ)
      (q : WeightProfile F)
      → apply_changes identity base changes created_at scoring_version generation ≡ ok q
      → (validate_profile identity q ≡ ok q)
        × (q.parent_generation_id ≡ some base.generation_id)
        × (q.generation ≡ generation)
  unfolding apply_changes
  apply_changes-eq-ok identity base changes created_at scoring_version generation q h =
      let (entries, applied, rest) = >>=-eq-ok (applied_entries changes base.entries) _ h in
      let (u, declared, last) =
        >>=-eq-ok (guard (are_declared base.entries changes) undeclared_scope) _ rest in
      (
        validated_valid identity _ q last,
        ap (λ (x : WeightProfile F). x.parent_generation_id)
            (validate_profile-eq-ok identity _ q last),
        ap (λ (x : WeightProfile F). x.generation) (validate_profile-eq-ok identity _ q last),
      )

module _ {F : Type 0} (r : Rendering F) where
  -- Every stored profile is listed.
  pub listed :
      (store : ProfileStore F) (ps : List (WeightProfile F)) (name : String) (p : WeightProfile F)
      → IsChained r store
      → list_profiles r store ≡ ok ps
      → get name store.profiles ≡ some p
      → Member p ps
  unfolding list_profiles
  listed store ps name p chained h found =
      let (read, all_read, last) =
        >>=-eq-ok (traverse (get_profile r store) (select is_generation_id (keys store.profiles))) _
          h in
      subst (Member p) (ok-injective last) (
        Member-sort_at (λ (x : WeightProfile F). x.generation) p read
          (traverse-Member (get_profile r store) name p _ read all_read
            (Member-select is_generation_id name (keys store.profiles)
              (Member-keys name store.profiles p found) (chained.linked name p found).legal)
            (get_profile-Reads r store name p chained found)))

  pub active_profile-Found :
      (store : ProfileStore F) (p : WeightProfile F)
      → IsChained r store
      → active_profile r store ≡ ok p
      → get p.generation_id store.profiles ≡ some p
  unfolding active_profile
  active_profile-Found store p chained h =
      let (name, active, read) = >>=-eq-ok (of_option not_initialized store.active) _ h in
      let found = get_profile-Found r store name p chained read in
      subst (λ n. get n store.profiles ≡ some p) (sym (chained.linked name p found).named) found

  -- A review changes no profile.
  pub record_review-profiles :
      (store : ProfileStore F) (proposal : WeightProposal F) (result : TeacherResult F)
      (next : ProfileStore F)
      → record_review r store proposal result ≡ ok next
      → (next.profiles ≡ store.profiles) × (next.active ≡ store.active)
  unfolding record_review
  record_review-profiles store proposal result next h =
      let (review, joined, rest) =
        >>=-eq-ok (validate_review (record { proposal = proposal; result = result })) _ h in
      kept review (get result.result_id store.reviews) rest
    where
      kept :
          (review : LearningReview F) (o : Option (LearningReview F))
          → keep_review r store review o ≡ ok next
          → (next.profiles ≡ store.profiles) × (next.active ≡ store.active)
      kept review none k = (
        ap (λ (s : ProfileStore F). s.profiles) (sym (ok-injective k)),
        ap (λ (s : ProfileStore F). s.active) (sym (ok-injective k)),
      )
      kept review (some stored) k =
          let (u, same, gives) =
            >>=-eq-ok (guard (r.render_review stored == r.render_review review) review_conflict) _
              k in
          (
            ap (λ (s : ProfileStore F). s.profiles) (sym (ok-injective gives)),
            ap (λ (s : ProfileStore F). s.active) (sym (ok-injective gives)),
          )
