-- ===== src/Experiments/Moves.antt =====
-- What a transition that is accepted leaves.
use the_council.Prelude.{arith, ℕ, ◌≡◌, true, [], ◌∷◌, ◌++◌, String}
use the_council.Result.{ok, guard, >>=-eq-ok, guard-eq-ok, invalid_transition}
use the_council.Experiments.Models.{
  ExperimentState, ExperimentRequest, ExperimentRecord, validate_record,
}
use the_council.Experiments.Lifecycle.{transition, is_allowed}

module _ {F : Type 0} (identity : ExperimentRequest F → String) where
  pub validate_record-eq-ok : (r q : ExperimentRecord F) → validate_record identity r ≡ ok q → q ≡ r
  unfolding validate_record
  validate_record-eq-ok r q h = ground arith

  abbrev pub moved : ExperimentRecord F → ExperimentState → ℕ → String → ExperimentRecord F
  moved r state at message = record r {
    state = state;
    lifecycle = r.lifecycle ++ record { state = state; occurred_at = at; message = message } ∷ [];
  }

  pub transition-eq-ok :
      (r : ExperimentRecord F) (state : ExperimentState) (at : ℕ) (message : String)
      (updates : ExperimentRecord F → ExperimentRecord F) (q : ExperimentRecord F)
      → transition identity r state at message updates ≡ ok q
      → (is_allowed r.state state ≡ true)
        × (q ≡ updates (moved r state at message))
        × (validate_record identity (updates (moved r state at message)) ≡ ok q)
  unfolding transition
  transition-eq-ok r state at message updates q h =
      let (u, allowed, valid) =
        >>=-eq-ok (guard (is_allowed r.state state) invalid_transition) _ h in
      (
        guard-eq-ok _ _ u allowed,
        validate_record-eq-ok (updates (moved r state at message)) q valid,
        valid,
      )
