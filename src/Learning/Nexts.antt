-- ===== src/Learning/Nexts.antt =====
-- The methods of a weight profile store that write keep the chain of generations.
use mathlib.Core.Path.{subst, subst₂}
use the_council.Prelude.{
  ◌≡◌, refl, sym, ap, ◌∙◌, inl, inr, Bool, true, false, not, ◌||◌, Option, none, some, String, eqb,
  eq_iff, arith,
}
use the_council.Floats.{Float}
use the_council.Dict.{get}
use the_council.Result.{
  Result, ok, err, ◌>>◌, guard, refuse, >>=-eq-ok, guard-eq-ok, ok-injective, initial_profile,
  rejected_proposal, base_not_active, already_initialized,
}
use the_council.Schemas.Market.{is_some}
use the_council.Learning.Models.{
  WeightProfile, WeightProposal, TeacherResult, is_reject, validate_profile,
}
use the_council.Learning.Profiles.{
  ProfileStore, Rendering, active_profile, list_profiles, next_generation, write_profile,
  initialize, promoted, check_promotion, write_and_activate, same_profile, activate_if_new, begun,
  finished,
}
use the_council.Learning.Chained.{Keeps, IsChained, IsAfter, write_profile-IsAfter}
use the_council.Learning.Listed.{
  next_generation-Above, apply_changes-eq-ok, listed, active_profile-Found,
}

parentless :
    (o : Option String) (b : Bool) (u : Unit {0})
    → refuse (b || is_some o) initial_profile ≡ ok u
    → o ≡ none
parentless none b u h = refl
parentless (some s) b u h = ground arith

module _ {F : Type 0} ⦃f : Float F⦄ (r : Rendering F) where
  -- A later store of a history: chained, with all that was stored.
  abbrev pub IsNext : ProfileStore F → ProfileStore F → Type 0
  IsNext store next = IsChained r next × Keeps store next

  pub same-IsNext : (store : ProfileStore F) → IsChained r store → IsNext store store
  same-IsNext store chained = (chained, (λ name p found. found))

  -- A stored profile becomes the active one.
  pub activated-IsNext :
      (store next : ProfileStore F) (name : String)
      → IsAfter r store name next
      → IsNext store (record next { active = some name })
  activated-IsNext store next name (chained, keeps, (q, found)) = (
    record {
      linked = λ n p h.
          let link = chained.linked n p h in
          record {
            named = link.named;
            legal = link.legal;
            valid = link.valid;
            parent = link.parent;
          };
      active = λ n h. (q, subst (λ x. get x next.profiles ≡ some q) (ground (arith, h)) found);
    },
    keeps,
  )

  -- The same profiles and active name.
  pub reviewed-IsNext :
      (store next : ProfileStore F)
      → IsChained r store
      → next.profiles ≡ store.profiles
      → next.active ≡ store.active
      → IsNext store next
  reviewed-IsNext store next chained same active = (
    subst₂ (λ d a. IsChained r (record next { profiles = d; active = a })) (sym same) (sym active)
        (record {
          linked = λ n p h.
              let link = chained.linked n p h in
              record {
                named = link.named;
                legal = link.legal;
                valid = link.valid;
                parent = link.parent;
              };
          active = λ n h. chained.active n h;
        }),
    (λ name p found. ap (get name) same ∙ found),
  )

  stays :
      (next : ProfileStore F) (profile : WeightProfile F) (name : String)
      (call : Result (WeightProfile F))
      → (finished next (activate_if_new r next profile (some name) call) profile).1 ≡ next
  stays next profile name (err e) = refl
  stays next profile name (ok active) = tested (same_profile active profile)
    where
      tested :
          (b : Bool) → (finished next (guard b already_initialized >> ok next) profile).1 ≡ next
      tested true = refl
      tested false = refl

  module _ (store : ProfileStore F) (chained : IsChained r store) where
    initialized-IsNext :
        (profile : WeightProfile F) (next : ProfileStore F)
        → IsAfter r store profile.generation_id next
        → (active : Option String) (call : Result (WeightProfile F))
        → IsNext store (finished next (activate_if_new r next profile active call) profile).1
    initialized-IsNext profile next after none call =
        activated-IsNext store next profile.generation_id after
    initialized-IsNext profile next after (some name) call =
        subst (IsNext store) (sym (stays next profile name call)) (after.0, after.1)

    pub initialize-IsNext :
        (profile : WeightProfile F)
        → validate_profile r.identity profile ≡ ok profile
        → IsNext store (initialize r profile store).1
    unfolding initialize
    initialize-IsNext profile valid = begun_of _ refl
      where
        begun_of :
            (answer : Result (ProfileStore F))
            → refuse
                  (not (eqb profile.generation 0) || is_some profile.parent_generation_id)
                  initial_profile
                >> write_profile r store profile
              ≡ answer
            → IsNext store
                (begun store answer (λ written.
                  finished written
                    (activate_if_new r written profile written.active (active_profile r written))
                    profile)).1
        begun_of (err e) h = same-IsNext store chained
        begun_of (ok written) h =
            let (u, original, writes) =
              >>=-eq-ok
                (refuse (not (eqb profile.generation 0) || is_some profile.parent_generation_id)
                  initial_profile)
                _ h in
            initialized-IsNext profile written
              (write_profile-IsAfter r store profile written chained valid
                (inl (
                  parentless profile.parent_generation_id (not (eqb profile.generation 0)) u
                    original))
                writes)
              written.active (active_profile r written)

    -- What `promote` writes after the review: a profile whose parent is the active one.
    pub promoted-IsNext :
        (base : WeightProfile F) (proposal : WeightProposal F) (result : TeacherResult F)
        (checked : check_promotion r store base proposal result ≡ ok tt) (profile : WeightProfile F)
        (next : ProfileStore F)
        → promoted r store base result ≡ ok profile
        → write_and_activate r store profile ≡ ok next
        → IsNext store next
    unfolding check_promotion promoted write_and_activate
    promoted-IsNext base proposal result checked profile next h k =
        let (active, now, tests) = >>=-eq-ok (active_profile r store) _ checked in
        let (v, same, _) = >>=-eq-ok (guard (same_profile active base) base_not_active) _ tests in
        let found = active_profile-Found r store active chained now in
        let (w, accepted, rest) =
          >>=-eq-ok (refuse (is_reject result.decision) rejected_proposal) _ h in
        let (profiles, all_listed, last) = >>=-eq-ok (list_profiles r store) _ rest in
        let (valid, parent, generation) =
          apply_changes-eq-ok r.identity base result.accepted_changes result.evaluated_at
            result.scoring_version (next_generation r profiles) profile last in
        let (written, writes, gives) = >>=-eq-ok (write_profile r store profile) _ k in
        let earlier =
          next_generation-Above r active profiles
            (listed r store profiles active.generation_id active chained all_listed found) in
        let equal = guard-eq-ok (same_profile active base) base_not_active v same in
        subst (IsNext store) (ok-injective gives) (
          activated-IsNext store written profile.generation_id (
            write_profile-IsAfter r store profile written chained valid
              (inr (
                base.generation_id,
                active,
                parent,
                subst (λ n. get n store.profiles ≡ some active)
                    (ground (arith, equal, eq_iff active.generation_id base.generation_id)) found,
                omega (arith, earlier, generation),
              ))
              writes))
