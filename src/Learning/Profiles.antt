-- ===== src/Learning/Profiles.antt =====
-- `WeightProfileStore` of learning/profiles.py. A file stands for the object whose JSON it holds, and two
-- files are compared by that text, the parameter `render`.
use the_council.Prelude.{
  ℕ, zero, suc, ◌+◌, max, Bool, true, false, not, ◌&&◌, ◌||◌, Option, none, some, List, [], ◌∷◌,
  String, ◌==◌, eqb, select, mem_text,
}
use the_council.Prelude.Numbers.{sort_at}
use the_council.Floats.{Float}
use the_council.Dict.{Dict, get, put, keys}
use the_council.Result.{
  Result, ok, err, ◌>>=◌, ◌>>◌, guard, refuse, of_option, traverse, initial_profile,
  already_initialized, not_initialized, unknown_generation, generation_id_mismatch,
  invalid_generation_id, base_not_active, wrong_base, different_bases, result_of_another,
  rejected_proposal, overwrite_generation, review_conflict, not_an_ancestor, looping,
}
use the_council.Schemas.Market.{is_some}
use the_council.Learning.Scopes.{ScopedAgentWeight, same_scope, same_weight, same_text}
use the_council.Learning.Models.{
  WeightProfile, WeightProposal, TeacherResult, LearningReview, is_reject, validate_profile,
  validate_review,
}
use the_council.Learning.Applied.{apply_changes}
use the_council.Learning.Names.{is_generation_id}

pub record ProfileStore (F : Type 0) : Type 0 where
  pub profiles : Dict (WeightProfile F)
  pub reviews : Dict (LearningReview F)
  pub active : Option String

-- What the store uses of SHA-256 and of JSON.
pub record Rendering (F : Type 0) : Type 0 where
  pub identity : WeightProfile F → String
  pub render_profile : WeightProfile F → String
  pub render_review : LearningReview F → String

-- `WeightProfileStore.__init__` in an empty folder.
abbrev pub empty_store : {F : Type 0} → ProfileStore F
empty_store = record { profiles = []; reviews = []; active = none }

module _ {F : Type 0} ⦃f : Float F⦄ where
  abbrev same_entries : List (ScopedAgentWeight F) → List (ScopedAgentWeight F) → Bool
  same_entries [] [] = true
  same_entries (a ∷ as_) (b ∷ bs) =
      a.agent_id == b.agent_id
      && same_scope a.scope b.scope
      && same_weight a.weight b.weight
      && same_entries as_ bs
  same_entries _ _ = false

  -- `==` on profiles.
  abbrev pub same_profile : WeightProfile F → WeightProfile F → Bool
  same_profile a b =
      a.schema_version == b.schema_version
      && eqb a.generation b.generation
      && a.generation_id == b.generation_id
      && same_text a.parent_generation_id b.parent_generation_id
      && eqb a.created_at b.created_at
      && same_entries a.entries b.entries
      && a.scoring_version == b.scoring_version
      && a.profile_id == b.profile_id

module _ {F : Type 0} (r : Rendering F) where
  -- `get`.
  unfoldable pub get_profile : ProfileStore F → String → Result (WeightProfile F)
  get_profile store name = do
    guard (is_generation_id name) invalid_generation_id
    stored ← of_option (unknown_generation name) (get name store.profiles)
    value ← validate_profile r.identity stored
    guard (value.generation_id == name) generation_id_mismatch
    ok value

  -- `active`.
  unfoldable pub active_profile : ProfileStore F → Result (WeightProfile F)
  active_profile store = do name ← of_option not_initialized store.active; get_profile store name

  -- `list`.
  unfoldable pub list_profiles : ProfileStore F → Result (List (WeightProfile F))
  list_profiles store = do
    found ← traverse (get_profile store) (select is_generation_id (keys store.profiles))
    ok (sort_at (λ (p : WeightProfile F). p.generation) found)

  -- `max(..., default=-1) + 1`.
  abbrev pub next_generation : List (WeightProfile F) → ℕ
  next_generation [] = 0
  next_generation (p ∷ profiles) = max (p.generation + 1) (next_generation profiles)

  abbrev pub unless_other :
      ProfileStore F → WeightProfile F → Option (WeightProfile F) → Result (ProfileStore F)
  unless_other store profile none =
      ok (record store { profiles = put profile.generation_id profile store.profiles })
  unless_other store profile (some stored) = do
    guard (r.render_profile stored == r.render_profile profile) overwrite_generation
    ok store

  -- `_write_profile`: what it raises, or the store after it.
  unfoldable pub write_profile : ProfileStore F → WeightProfile F → Result (ProfileStore F)
  write_profile store profile = do
    guard (is_generation_id profile.generation_id) invalid_generation_id
    unless_other store profile (get profile.generation_id store.profiles)

  abbrev pub keep_review :
      ProfileStore F → LearningReview F → Option (LearningReview F) → Result (ProfileStore F)
  keep_review store review none =
      ok (record store { reviews = put review.result.result_id review store.reviews })
  keep_review store review (some stored) = do
    guard (r.render_review stored == r.render_review review) review_conflict
    ok store

  -- `record_review`.
  unfoldable pub record_review :
      ProfileStore F → WeightProposal F → TeacherResult F → Result (ProfileStore F)
  record_review store proposal result = do
    review ← validate_review (record { proposal = proposal; result = result })
    keep_review store review (get result.result_id store.reviews)

  -- The loop of `rollback` that collects the ancestors; `fuel` bounds its rounds.
  abbrev pub ancestors : ProfileStore F → ℕ → Option String → Result (List String)
  ancestors store fuel none = ok []
  ancestors store zero (some parent) = err looping
  ancestors store (suc fuel) (some parent) = do
    cursor ← get_profile store parent
    others ← ancestors store fuel cursor.parent_generation_id
    ok (parent ∷ others)

  -- `rollback`: the store after it, and the profile.
  unfoldable pub rollback : ProfileStore F → String → Result (WeightProfile F × ProfileStore F)
  rollback store name = do
    target ← get_profile store name
    current ← active_profile store
    names ← ancestors store current.generation current.parent_generation_id
    guard (mem_text target.generation_id names) not_an_ancestor
    ok (target, record store { active = some target.generation_id })

-- A part of a method that has raised leaves the store as it was; what follows the part has its store.
module _ {F : Type 0} where
  abbrev pub begun :
      ProfileStore F
      → Result (ProfileStore F)
      → (ProfileStore F → Result (WeightProfile F) × ProfileStore F)
      → Result (WeightProfile F) × ProfileStore F
  begun store (err e) next = (err e, store)
  begun store (ok written) next = next written

  abbrev pub finished :
      ProfileStore F
      → Result (ProfileStore F)
      → WeightProfile F
      → Result (WeightProfile F) × ProfileStore F
  finished store (err e) profile = (err e, store)
  finished store (ok written) profile = (ok profile, written)

  abbrev pub made :
      ProfileStore F
      → Result (WeightProfile F × ProfileStore F)
      → Result (WeightProfile F) × ProfileStore F
  made store (err e) = (err e, store)
  made store (ok (profile, written)) = (ok profile, written)

module _ {F : Type 0} ⦃f : Float F⦄ (r : Rendering F) where
  abbrev pub activate_if_new :
      ProfileStore F
      → WeightProfile F
      → Option String
      → Result (WeightProfile F)
      → Result (ProfileStore F)
  activate_if_new store profile none call =
      ok (record store { active = some profile.generation_id })
  activate_if_new store profile (some name) call = do
    active ← call
    guard (same_profile active profile) already_initialized
    ok store

  -- `initialize`: the store after it, or after what it has written before it raises.
  unfoldable pub initialize :
      WeightProfile F → ProfileStore F → Result (WeightProfile F) × ProfileStore F
  initialize profile store =
      begun store
        (do
          refuse (not (eqb profile.generation 0) || is_some profile.parent_generation_id)
              initial_profile
          write_profile r store profile)
        (λ written.
          finished written
            (activate_if_new written profile written.active (active_profile r written)) profile)

  -- The checks of `promote`, and the profile it makes.
  unfoldable pub check_promotion :
      ProfileStore F → WeightProfile F → WeightProposal F → TeacherResult F → Result (Unit {0})
  check_promotion store base proposal result = do
    active ← active_profile r store
    guard (same_profile active base) base_not_active
    guard (proposal.base_generation_id == base.generation_id) wrong_base
    guard (result.base_generation_id == base.generation_id) different_bases
    guard (result.proposal_id == proposal.proposal_id) result_of_another

  unfoldable pub promoted :
      ProfileStore F → WeightProfile F → TeacherResult F → Result (WeightProfile F)
  promoted store base result = do
    refuse (is_reject result.decision) rejected_proposal
    profiles ← list_profiles r store
    apply_changes r.identity base result.accepted_changes result.evaluated_at result.scoring_version
        (next_generation r profiles)

  unfoldable pub write_and_activate : ProfileStore F → WeightProfile F → Result (ProfileStore F)
  write_and_activate store profile = do
    written ← write_profile r store profile
    ok (record written { active = some profile.generation_id })

  -- `promote`: a review that is recorded stays recorded, whatever is raised after it.
  unfoldable pub promote :
      WeightProfile F
      → WeightProposal F
      → TeacherResult F
      → ProfileStore F
      → Result (WeightProfile F) × ProfileStore F
  promote base proposal result store =
      begun store
        (do check_promotion store base proposal result; record_review r store proposal result)
        (λ reviewed. made reviewed (do
          profile ← promoted reviewed base result
          written ← write_and_activate reviewed profile
          ok (profile, written)))

-- A call of one of the methods that write.
pub data Call (F : Type 0) : Type 0 where
  initializing : WeightProfile F → Call F
  promoting : WeightProfile F → WeightProposal F → TeacherResult F → Call F
  reviewing : WeightProposal F → TeacherResult F → Call F
  rolling_back : String → Call F

module _ {F : Type 0} ⦃f : Float F⦄ (r : Rendering F) where
  abbrev pub store_of : ProfileStore F → Result (ProfileStore F) → ProfileStore F
  store_of store (err e) = store
  store_of store (ok next) = next

  abbrev pub rolled : ProfileStore F → Result (WeightProfile F × ProfileStore F) → ProfileStore F
  rolled store (err e) = store
  rolled store (ok (target, next)) = next

  -- The store after an initial profile has passed its own validator, and then the method's call.
  abbrev pub initialized : ProfileStore F → Result (WeightProfile F) → ProfileStore F
  initialized store (err e) = store
  initialized store (ok profile) = (initialize r profile store).1

  abbrev pub serve : Call F → ProfileStore F → ProfileStore F
  serve (initializing profile) store = initialized store (validate_profile r.identity profile)
  serve (promoting base proposal result) store = (promote r base proposal result store).1
  serve (reviewing proposal result) store = store_of store (record_review r store proposal result)
  serve (rolling_back name) store = rolled store (rollback r store name)

  abbrev pub serve_all : List (Call F) → ProfileStore F → ProfileStore F
  serve_all [] store = store
  serve_all (call ∷ calls) store = serve_all calls (serve call store)
