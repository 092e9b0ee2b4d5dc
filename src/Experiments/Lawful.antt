-- ===== src/Experiments/Lawful.antt =====
-- The lifecycles of all records in the repository follow the permitted transitions.
use the_council.Prelude.{
  arith, ℕ, ◌≡◌, refl, sym, ap, ◌∙◌, Bool, true, ◌&&◌, some, List, [], ◌∷◌, ◌++◌, String, ◌==◌, All,
  get_last?, Bool-cases, inl, inr,
}
use mathlib.Core.Path.{subst}
use the_council.Dict.{get, put}
use the_council.Result.{Result, ok, err, >>=-eq-ok, ok-injective}
use the_council.Experiments.Models.{
  ExperimentState, is_state, ExperimentRequest, ExperimentRecord, LifecycleEvent, Equality,
  validate_record, tail_is,
}
use the_council.Experiments.Lifecycle.{is_allowed, transition}
use the_council.Experiments.Moves.{transition-eq-ok, moved}
use the_council.Experiments.Repository.{Repository, protect_forecast, save}
use the_council.Experiments.Attempt.{Progress, Attempt, after, assign, move, save_current, saved_as}

abbrev pub is_path : List LifecycleEvent → Bool
is_path [] = true
is_path (a ∷ []) = true
is_path (a ∷ b ∷ events) = is_allowed a.state b.state && is_path (b ∷ events)

is_state-eq : (s t : ExperimentState) → is_state s t ≡ true → s ≡ t
is_state-eq s t h = ground arith

and-eq-true : (a b : Bool) → (a && b) ≡ true → (a ≡ true) × (b ≡ true)
and-eq-true a b h = ground arith

path-append :
    (events : List LifecycleEvent) (state : ExperimentState) (e : LifecycleEvent)
    → is_path events ≡ true
    → tail_is state (get_last? events) ≡ true
    → is_allowed state e.state ≡ true
    → is_path (events ++ e ∷ []) ≡ true
path-append [] state e h t a = refl
path-append (x ∷ []) state e h t a =
    let here = subst (λ s. is_allowed s e.state ≡ true) (sym (is_state-eq x.state state t)) a in
    ground (arith, here)
path-append (x ∷ y ∷ events) state e h t a =
    let (first, rest) = and-eq-true (is_allowed x.state y.state) (is_path (y ∷ events)) h in
    ground (arith, first, path-append (y ∷ events) state e rest t a)

module _ {F : Type 0} (identity : ExperimentRequest F → String) where
  -- The record passes its validator, and each state of its lifecycle is permitted after the one before.
  abbrev pub IsLawful : ExperimentRecord F → Type 0
  IsLawful r = (validate_record identity r ≡ ok r) × (is_path r.lifecycle ≡ true)

  abbrev pub AreLawful : Repository F → Type 0
  AreLawful = All (λ (e : String × ExperimentRecord F). IsLawful e.1)

  pub get-IsLawful :
      (id : String) (records : Repository F) (r : ExperimentRecord F)
      → AreLawful records
      → get id records ≡ some r
      → IsLawful r
  unfolding get
  get-IsLawful id [] r h g = absurd (cc)
  get-IsLawful id ((k, s) ∷ records) r (h, hs) g = elim (Bool-cases (k == id)) [
    | inl b ↦ subst IsLawful (ground arith) h
    | inr b ↦ get-IsLawful id records r hs (ground arith)
  ]

  put-AreLawful :
      (id : String) (r : ExperimentRecord F) (records : Repository F)
      → IsLawful r
      → AreLawful records
      → AreLawful (put id r records)
  unfolding put
  put-AreLawful id r [] l h = (l, tt)
  put-AreLawful id r ((k, s) ∷ records) l (h, hs) = elim (Bool-cases (k == id)) [
    | inl b ↦ rw (put, b) (l, hs)
    | inr b ↦ rw (put, b) (h, put-AreLawful id r records l hs)
  ]

  tail-valid :
      (r : ExperimentRecord F)
      → validate_record identity r ≡ ok r
      → tail_is r.state (get_last? r.lifecycle) ≡ true
  unfolding validate_record
  tail-valid r h = ground arith

  pub transition-IsLawful :
      (r : ExperimentRecord F) (state : ExperimentState) (at : ℕ) (message : String)
      (updates : ExperimentRecord F → ExperimentRecord F) (q : ExperimentRecord F)
      → ((s : ExperimentRecord F) → (updates s).lifecycle ≡ s.lifecycle)
      → IsLawful r
      → transition identity r state at message updates ≡ ok q
      → IsLawful q
  transition-IsLawful r state at message updates q same l h =
      let (allowed, made, valid) = transition-eq-ok identity r state at message updates q h in
      (
        subst (λ x. validate_record identity x ≡ ok q) (sym made) valid,
        ap (λ x. is_path x.lifecycle) made
            ∙ ap is_path (same (moved identity r state at message))
            ∙ path-append r.lifecycle r.state
                (record { state = state; occurred_at = at; message = message }) l.1
                (tail-valid r l.0) allowed,
      )

  -- The record at hand and all in the repository.
  abbrev pub IsLawfulProgress : Progress F → Type 0
  IsLawfulProgress p = IsLawful p.current × AreLawful p.records

  abbrev pub KeepsLawful : {A : Type 0} → Attempt F A → Type 0
  KeepsLawful m = (p : Progress F) → IsLawfulProgress p → IsLawfulProgress (m p).1

  pub KeepsLawful-then :
      {A B : Type 0} (m : Attempt F A) (next : A → Attempt F B)
      → KeepsLawful m
      → ((a : A) → KeepsLawful (next a))
      → KeepsLawful (λ p. after (m p) next)
  KeepsLawful-then m next h k p l = go (m p) (h p l)
    where
      go : (x : Result _ × Progress F) → IsLawfulProgress x.1 → IsLawfulProgress (after x next).1
      go (ok a, q) e = k a q e
      go (err e, q) d = d

  pub assign-KeepsLawful :
      (make : ExperimentRecord F → Result (ExperimentRecord F))
      → ((r q : ExperimentRecord F) → IsLawful r → make r ≡ ok q → IsLawful q)
      → KeepsLawful (assign make)
  assign-KeepsLawful make h p l = go (make p.current) refl
    where
      go :
          (m : Result (ExperimentRecord F))
          → make p.current ≡ m
          → IsLawfulProgress (assign (λ _. m) p).1
      go (err e) k = l
      go (ok q) k = (h p.current q l.0 k, l.1)

  pub move-KeepsLawful :
      (state : ExperimentState) (at : ℕ) (message : String)
      (updates : ExperimentRecord F → ExperimentRecord F)
      → ((s : ExperimentRecord F) → (updates s).lifecycle ≡ s.lifecycle)
      → KeepsLawful (move identity state at message updates)
  move-KeepsLawful state at message updates same =
      assign-KeepsLawful _ (λ r q. transition-IsLawful r state at message updates q same)

  module _ (eq : Equality F) where
    pub save-AreLawful :
        (records : Repository F) (r : ExperimentRecord F) (after_ : Repository F)
        → IsLawful r
        → AreLawful records
        → save eq records r ≡ ok after_
        → AreLawful after_
    unfolding save
    save-AreLawful records r after_ l h k =
        let (_, _, e) = >>=-eq-ok (protect_forecast eq (get r.experiment_id records) r) _ k in
        subst AreLawful (ok-injective e) (put-AreLawful r.experiment_id r records l h)

    pub save_current-KeepsLawful : KeepsLawful (save_current eq)
    save_current-KeepsLawful p l = go (save eq p.records p.current) refl
      where
        go :
            (m : Result (Repository F))
            → save eq p.records p.current ≡ m
            → IsLawfulProgress (saved_as p m).1
        go (err e) k = l
        go (ok records) k = (l.0, save-AreLawful p.records p.current records l.0 l.1 k)
