-- ===== src/Experiments/Lifecycle.antt =====
-- experiments/lifecycle.py: the permitted transitions, and the one way to take them.
use the_council.Prelude.{ℕ, Bool, List, [], ◌∷◌, ◌++◌, String, any}
use the_council.Result.{Result, ◌>>◌, guard, invalid_transition}
use the_council.Experiments.Models.{
  ExperimentState, created, context_ready, forecasting, forecast_locked, evaluating, complete,
  failed, is_state, ExperimentRequest, ExperimentRecord, validate_record,
}

-- `_ALLOWED`.
abbrev pub allowed_after : ExperimentState → List ExperimentState
allowed_after created = context_ready ∷ failed ∷ []
allowed_after context_ready = forecasting ∷ failed ∷ []
allowed_after forecasting = forecast_locked ∷ failed ∷ []
allowed_after forecast_locked = evaluating ∷ failed ∷ []
allowed_after evaluating = complete ∷ failed ∷ []
allowed_after complete = []
allowed_after failed = []

abbrev pub is_allowed : ExperimentState → ExperimentState → Bool
is_allowed from to = any (is_state to) (allowed_after from)

module _ {F : Type 0} (identity : ExperimentRequest F → String) where
  -- `transition`, with `updates` as a function on the record.
  unfoldable pub transition :
      ExperimentRecord F
      → ExperimentState
      → ℕ
      → String
      → (ExperimentRecord F → ExperimentRecord F)
      → Result (ExperimentRecord F)
  transition r state occurred_at message updates = do
    guard (is_allowed r.state state) invalid_transition
    validate_record identity (
        updates (record r {
          state = state;
          lifecycle =
              r.lifecycle
              ++ record { state = state; occurred_at = occurred_at; message = message } ∷ [];
        }))
