-- ===== src/Learning/Chained.antt =====
-- The chain of generations in a store: each profile is under its own name, valid, and its parent is stored
-- and of an earlier generation.
use mathlib.Core.Path.{subst}
use the_council.Prelude.{
  ◌≡◌, refl, sym, ap, ◌∙◌, ◌⊎◌, inl, inr, ℕ, zero, suc, ◌≤◌, ◌<◌, true, Option, none, some, List,
  [], ◌∷◌, String, ◌==◌, Bool-cases, eq_iff, length, arith,
}
use the_council.Dict.{get, put, get-put}
use the_council.Result.{
  ok, guard, of_option, >>=-eq-ok, guard-eq-ok, ok-injective, of_option-eq-ok, unknown_generation,
  generation_id_mismatch, invalid_generation_id, overwrite_generation,
}
use the_council.Learning.Models.{WeightProfile, validate_profile}
use the_council.Learning.Names.{is_generation_id}
use the_council.Learning.Profiles.{
  ProfileStore, Rendering, empty_store, get_profile, unless_other, write_profile, ancestors,
}

module _ {F : Type 0} where
  -- The parent, if there is one, is stored and of an earlier generation.
  abbrev pub HasParent : ProfileStore F → WeightProfile F → Type 0
  HasParent store p =
      (p.parent_generation_id ≡ none)
      ⊎ ((name : String) × (parent : WeightProfile F) × (p.parent_generation_id ≡ some name)
          × (get name store.profiles ≡ some parent)
          × (parent.generation < p.generation))

  -- Nothing that is stored is lost or changed.
  abbrev pub Keeps : ProfileStore F → ProfileStore F → Type 0
  Keeps store next =
      (name : String) (p : WeightProfile F)
      → get name store.profiles ≡ some p
      → get name next.profiles ≡ some p

  HasParent-kept :
      (store next : ProfileStore F) (p : WeightProfile F)
      → Keeps store next
      → HasParent store p
      → HasParent next p
  HasParent-kept store next p keeps (inl none_) = inl none_
  HasParent-kept store next p keeps (inr (name, parent, named, found, earlier)) =
      inr (name, parent, named, keeps name parent found, earlier)

module _ {F : Type 0} (r : Rendering F) where
  pub record IsLinked (store : ProfileStore F) (name : String) (p : WeightProfile F) : Type 0 where
    pub named : p.generation_id ≡ name
    pub legal : is_generation_id name ≡ true
    pub valid : validate_profile r.identity p ≡ ok p
    pub parent : HasParent store p

  pub record IsChained (store : ProfileStore F) : Type 0 where
    pub linked :
        (name : String) (p : WeightProfile F)
        → get name store.profiles ≡ some p
        → IsLinked store name p
    pub active :
        (name : String)
        → store.active ≡ some name
        → (p : WeightProfile F) × (get name store.profiles ≡ some p)

  pub empty-IsChained : IsChained empty_store
  unfolding get
  empty-IsChained = record { linked = λ name p h. cc h; active = λ name h. cc h }

  -- What is stored is read.
  pub get_profile-Reads :
      (store : ProfileStore F) (name : String) (p : WeightProfile F)
      → IsChained store
      → get name store.profiles ≡ some p
      → get_profile r store name ≡ ok p
  unfolding get_profile
  get_profile-Reads store name p chained h =
      let link = chained.linked name p h in
      rw (link.legal, h, link.valid) (ground (arith, link.named, eq_iff p.generation_id name))

  -- What is read is stored.
  pub get_profile-Found :
      (store : ProfileStore F) (name : String) (p : WeightProfile F)
      → IsChained store
      → get_profile r store name ≡ ok p
      → get name store.profiles ≡ some p
  unfolding get_profile
  get_profile-Found store name p chained h =
      let (u, legal, rest) = >>=-eq-ok (guard (is_generation_id name) invalid_generation_id) _ h in
      let (stored, known, valid) =
        >>=-eq-ok (of_option (unknown_generation name) (get name store.profiles)) _ rest in
      let found =
        of_option-eq-ok (unknown_generation name) (get name store.profiles) stored known in
      let (value, same, last) = >>=-eq-ok (validate_profile r.identity stored) _ valid in
      let (v, tested, gives) =
        >>=-eq-ok (guard (value.generation_id == name) generation_id_mismatch) _ last in
      found
      ∙ ap some
          (ok-injective (sym (chained.linked name stored found).valid ∙ same) ∙ ok-injective gives)

  -- The loop ends: there are at most as many ancestors as the generation's number.
  pub ancestors-Returns :
      (store : ProfileStore F) (fuel : ℕ) (p : WeightProfile F)
      → IsChained store
      → HasParent store p
      → p.generation ≤ fuel
      → (names : List String) × (ancestors r store fuel p.parent_generation_id ≡ ok names)
        × (length names ≤ fuel)
  ancestors-Returns store fuel p chained (inl alone) few = ([], (rw alone refl), omega arith)
  ancestors-Returns store zero p chained (inr (name, parent, named, found, earlier)) few =
      absurd (omega (arith, earlier, few))
  ancestors-Returns store (suc fuel) p chained (inr (name, parent, named, found, earlier)) few =
      let (names, others, short) =
        ancestors-Returns store fuel parent chained (chained.linked name parent found).parent
          (omega (arith, earlier, few)) in
      (
        name ∷ names,
        rw (named, get_profile-Reads store name parent chained found, others) refl,
        omega (arith, short),
      )

  -- A store after one in which a profile's name is taken.
  abbrev pub IsAfter : ProfileStore F → String → ProfileStore F → Type 0
  IsAfter store name next =
      IsChained next
      × Keeps store next
      × ((q : WeightProfile F) × (get name next.profiles ≡ some q))

  module _ (store : ProfileStore F) (p : WeightProfile F) (chained : IsChained store)
      (valid : validate_profile r.identity p ≡ ok p) (parent : HasParent store p)
      (legal : is_generation_id p.generation_id ≡ true) where
    abbrev added : ProfileStore F
    added = record store { profiles = put p.generation_id p store.profiles }

    added-Keeps : get p.generation_id store.profiles ≡ none → Keeps store added
    added-Keeps absent name q found =
        get-put p.generation_id name p store.profiles ∙ ground (arith, eq_iff p.generation_id name)

    added-IsLinked :
        get p.generation_id store.profiles ≡ none
        → (name : String) (q : WeightProfile F) → get name added.profiles ≡ some q
        → IsLinked added name q
    added-IsLinked absent name q found = elim (Bool-cases (p.generation_id == name)) [
      | inl same ↦
          let own : p ≡ q = ground (arith, get-put p.generation_id name p store.profiles) in
          subst (IsLinked added name) own (record {
            named = ground (arith, eq_iff p.generation_id name);
            legal =
                subst (λ n. is_generation_id n ≡ true) (ground (arith, eq_iff p.generation_id name))
                  legal;
            valid = valid;
            parent = HasParent-kept store added p (added-Keeps absent) parent;
          })
      | inr other ↦
          let link =
            chained.linked name q (ground (arith, get-put p.generation_id name p store.profiles)) in
          record {
            named = link.named;
            legal = link.legal;
            valid = link.valid;
            parent = HasParent-kept store added q (added-Keeps absent) link.parent;
          }
    ]

    added-IsAfter : get p.generation_id store.profiles ≡ none → IsAfter store p.generation_id added
    added-IsAfter absent = (
      record {
        linked = added-IsLinked absent;
        active = λ name h.
            let (q, found) = chained.active name h in (q, added-Keeps absent name q found);
      },
      added-Keeps absent,
      (
        p,
        get-put p.generation_id p.generation_id p store.profiles
            ∙ ground (arith, eq_iff p.generation_id p.generation_id),
      ),
    )

    unless_other-IsAfter :
        (o : Option (WeightProfile F)) (next : ProfileStore F)
        → get p.generation_id store.profiles ≡ o
        → unless_other r store p o ≡ ok next
        → IsAfter store p.generation_id next
    unless_other-IsAfter (some stored) next found k =
        let (u, tested, gives) =
          >>=-eq-ok (guard (r.render_profile stored == r.render_profile p) overwrite_generation) _
            k in
        subst (IsAfter store p.generation_id) (ok-injective gives)
          (chained, (λ name q g. g), (stored, found))
    unless_other-IsAfter none next absent k =
        subst (IsAfter store p.generation_id) (ok-injective k) (added-IsAfter absent)

  -- A profile that is valid and whose parent is stored is written, or its name is taken; the chain goes on.
  pub write_profile-IsAfter :
      (store : ProfileStore F) (p : WeightProfile F) (next : ProfileStore F)
      → IsChained store
      → validate_profile r.identity p ≡ ok p
      → HasParent store p
      → write_profile r store p ≡ ok next
      → IsAfter store p.generation_id next
  unfolding write_profile
  write_profile-IsAfter store p next chained valid parent h =
      let (u, legal, rest) =
        >>=-eq-ok (guard (is_generation_id p.generation_id) invalid_generation_id) _ h in
      unless_other-IsAfter store p chained valid parent
        (guard-eq-ok _ invalid_generation_id u legal) (get p.generation_id store.profiles) next refl
        rest
