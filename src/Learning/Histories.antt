-- ===== src/Learning/Histories.antt =====
-- Any sequence of calls of a weight profile store keeps the chain of generations.
use mathlib.Core.Path.{subst}
use the_council.Prelude.{
  ◌≡◌, refl, sym, ap, ◌∙◌, ◌≤◌, if◌then◌else◌, Bool, true, false, some, List, [], ◌∷◌, String,
  length, mem_text, arith,
}
use the_council.Floats.{Float}
use the_council.Dict.{get}
use the_council.Result.{
  Result, ok, err, ◌>>=◌, ◌>>◌, guard, >>=-eq-ok, ok-injective, not_an_ancestor,
}
use the_council.Learning.Models.{WeightProfile, WeightProposal, TeacherResult, validate_profile}
use the_council.Learning.Profiles.{
  ProfileStore, Rendering, empty_store, get_profile, active_profile, ancestors, record_review,
  rollback, promote, promoted, check_promotion, write_and_activate, begun, made, Call, initializing,
  promoting, reviewing, rolling_back, store_of, rolled, initialized, serve, serve_all,
}
use the_council.Learning.Chained.{IsChained, empty-IsChained, get_profile-Found, ancestors-Returns}
use the_council.Learning.Listed.{validated_valid, active_profile-Found, record_review-profiles}
use the_council.Learning.Nexts.{
  IsNext, same-IsNext, reviewed-IsNext, initialize-IsNext, promoted-IsNext, activated-IsNext,
}

module _ {F : Type 0} ⦃f : Float F⦄ (r : Rendering F) where
  check_same :
      (store reviewed : ProfileStore F) (base : WeightProfile F) (proposal : WeightProposal F)
      (result : TeacherResult F)
      → reviewed.profiles ≡ store.profiles
      → reviewed.active ≡ store.active
      → check_promotion r reviewed base proposal result
        ≡ check_promotion r store base proposal result
  unfolding check_promotion active_profile get_profile
  check_same store reviewed base proposal result profiles active = rw (profiles, active) refl

  IsNext-trans : (a b c : ProfileStore F) → IsNext r a b → IsNext r b c → IsNext r a c
  IsNext-trans a b c (_, keeps) (chained, more) =
      (chained, (λ name p found. more name p (keeps name p found)))

  module _ (store : ProfileStore F) (chained : IsChained r store) where
    promote-IsNext :
        (base : WeightProfile F) (proposal : WeightProposal F) (result : TeacherResult F)
        → IsNext r store (promote r base proposal result store).1
    unfolding promote
    promote-IsNext base proposal result = begun_of _ refl
      where
        made_of :
            (reviewed : ProfileStore F)
            → IsNext r store reviewed
            → check_promotion r reviewed base proposal result ≡ ok tt
            → (answer : Result (WeightProfile F × ProfileStore F))
            → (promoted r reviewed base result >>= λ profile.
                write_and_activate r reviewed profile >>= λ written. ok (profile, written))
              ≡ answer
            → IsNext r store (made reviewed answer).1
        made_of reviewed next checked (err e) h = next
        made_of reviewed next checked (ok (profile, written)) h =
            let (p, makes, rest) = >>=-eq-ok (promoted r reviewed base result) _ h in
            let (w, writes, last) = >>=-eq-ok (write_and_activate r reviewed p) _ rest in
            IsNext-trans store reviewed written next (
              subst (IsNext r reviewed)
                (ap (λ (x : WeightProfile F × ProfileStore F). x.1) (ok-injective last))
                (promoted-IsNext r reviewed next.0 base proposal result checked p w makes writes))

        begun_of :
            (answer : Result (ProfileStore F))
            → check_promotion r store base proposal result >> record_review r store proposal result
              ≡ answer
            → IsNext r store
                (begun store answer (λ reviewed. made reviewed (
                  promoted r reviewed base result >>= λ profile.
                  write_and_activate r reviewed profile >>= λ written. ok (profile, written)))).1
        begun_of (err e) h = same-IsNext r store chained
        begun_of (ok reviewed) h =
            let (u, checked, reviews) =
              >>=-eq-ok (check_promotion r store base proposal result) _ h in
            let (profiles, active) =
              record_review-profiles r store proposal result reviewed reviews in
            made_of reviewed (reviewed-IsNext r store reviewed chained profiles active)
              (check_same store reviewed base proposal result profiles active ∙ checked) _ refl

    rollback-IsNext :
        (name : String) (answer : Result (WeightProfile F × ProfileStore F))
        → rollback r store name ≡ answer
        → IsNext r store (rolled r store answer)
    unfolding rollback
    rollback-IsNext name (err e) h = same-IsNext r store chained
    rollback-IsNext name (ok (target, next)) h =
        let (t, targeted, h1) = >>=-eq-ok (get_profile r store name) _ h in
        let (current, now, h2) = >>=-eq-ok (active_profile r store) _ h1 in
        let (names, collected, h3) =
          >>=-eq-ok (ancestors r store current.generation current.parent_generation_id) _ h2 in
        let (u, among, last) =
          >>=-eq-ok (guard (mem_text t.generation_id names) not_an_ancestor) _ h3 in
        let found = get_profile-Found r store name t chained targeted in
        subst (IsNext r store)
          (ap (λ (x : WeightProfile F × ProfileStore F). x.1) (ok-injective last))
          (activated-IsNext r store store t.generation_id (
            chained,
            (λ n p g. g),
            (
              t,
              subst (λ n. get n store.profiles ≡ some t) (sym (chained.linked name t found).named)
                  found,
            ),
          ))

    serve-IsNext : (call : Call F) → IsNext r store (serve r call store)
    serve-IsNext (initializing profile) = validated (validate_profile r.identity profile) refl
      where
        validated :
            (answer : Result (WeightProfile F))
            → validate_profile r.identity profile ≡ answer
            → IsNext r store (initialized r store answer)
        validated (err e) h = same-IsNext r store chained
        validated (ok q) h =
            initialize-IsNext r store chained q (validated_valid r.identity profile q h)
    serve-IsNext (promoting base proposal result) = promote-IsNext base proposal result
    serve-IsNext (reviewing proposal result) = recorded (record_review r store proposal result) refl
      where
        recorded :
            (answer : Result (ProfileStore F))
            → record_review r store proposal result ≡ answer
            → IsNext r store (store_of r store answer)
        recorded (err e) h = same-IsNext r store chained
        recorded (ok next) h =
            let (profiles, active) = record_review-profiles r store proposal result next h in
            reviewed-IsNext r store next chained profiles active
    serve-IsNext (rolling_back name) = rollback-IsNext name (rollback r store name) refl

  -- Whatever calls a store serves, from one in which each profile stands under its own name, is valid, and
  -- has its parent stored in an earlier generation: it stays so, and every profile stays what it is.
  pub serve_all-IsNext :
      (calls : List (Call F)) (store : ProfileStore F)
      → IsChained r store
      → IsNext r store (serve_all r calls store)
  serve_all-IsNext [] store chained = same-IsNext r store chained
  serve_all-IsNext (call ∷ calls) store chained =
      let next = serve-IsNext store chained call in
      IsNext-trans store (serve r call store) (serve_all r calls (serve r call store)) next
        (serve_all-IsNext calls (serve r call store) next.0)

  -- In any store with a history, the loop of `rollback` ends, for every profile that is active: the call
  -- activates the stored profile it is asked for if that is an ancestor of the active one, and otherwise
  -- refuses.
  pub rollback-Returns :
      (calls : List (Call F)) (name : String) (target current : WeightProfile F)
      → get_profile r (serve_all r calls empty_store) name ≡ ok target
      → active_profile r (serve_all r calls empty_store) ≡ ok current
      → (names : List String) × (ancestors r
            (serve_all r calls empty_store)
            current.generation
            current.parent_generation_id
          ≡ ok names)
        × (length names ≤ current.generation)
        × (rollback r (serve_all r calls empty_store) name ≡ (
            if mem_text name names
            then ok (target, record (serve_all r calls empty_store) { active = some name })
            else err not_an_ancestor))
  unfolding rollback
  rollback-Returns calls name target current asked active =
      let store = serve_all r calls empty_store in
      let chained = (serve_all-IsNext calls empty_store (empty-IsChained r)).0 in
      let found = active_profile-Found r store current chained active in
      let (names, collected, short) =
        ancestors-Returns r store current.generation current chained
          (chained.linked current.generation_id current found).parent (omega arith) in
      let named =
        (chained.linked name target (get_profile-Found r store name target chained asked)).named in
      (
        names,
        collected,
        short,
        rw (asked, active, collected)
            (subst (chosen_by store target names) named (
              tested (target, record store { active = some target.generation_id })
                (mem_text target.generation_id names))),
      )
    where
      tested :
          {A : Type 0} (answer : A) (b : Bool)
          → (guard b not_an_ancestor >> ok answer) ≡ (if b then ok answer else err not_an_ancestor)
      tested answer true = refl
      tested answer false = refl

      after : ProfileStore F → WeightProfile F → String → WeightProfile F × ProfileStore F
      after store target n = (target, record store { active = some n })

      chosen_by : ProfileStore F → WeightProfile F → List String → String → Type 0
      chosen_by store target names n =
          (guard (mem_text target.generation_id names) not_an_ancestor
            >> ok (after store target target.generation_id))
          ≡ (if mem_text n names then ok (after store target n) else err not_an_ancestor)
