-- ===== src/Experiments/Attempt.antt =====
-- The variables of a `try` block of `ExperimentService.run`: the record and the repository. A step that
-- raises keeps what was assigned and saved before it.
use the_council.Prelude.{ℕ, String}
use the_council.Result.{Result, ok, err}
use the_council.Experiments.Models.{ExperimentState, ExperimentRequest, ExperimentRecord, Equality}
use the_council.Experiments.Lifecycle.{transition}
use the_council.Experiments.Repository.{Repository, find, save}

pub record Progress (F : Type 0) : Type 0 where
  pub current : ExperimentRecord F
  pub records : Repository F

abbrev pub Attempt : Type 0 → Type 0 → Type 0
Attempt F A = Progress F → Result A × Progress F

module _ {F : Type 0} where
  abbrev pub after :
      {A B : Type 0} → Result A × Progress F → (A → Attempt F B) → Result B × Progress F
  after (ok a, p) next = next a p
  after (err e, p) next = (err e, p)

  infixl 5 ◌>>=◌ ◌>>◌
  abbrev pub ◌>>=◌ : {A B : Type 0} → Attempt F A → (A → Attempt F B) → Attempt F B
  m >>= next = λ p. after (m p) next

  abbrev pub ◌>>◌ : {A B : Type 0} → Attempt F A → Attempt F B → Attempt F B
  m >> next = λ p. after (m p) (λ a. next)

  abbrev pub lift : {A : Type 0} → Result A → Attempt F A
  lift r = λ p. (r, p)

  abbrev set_current : Progress F → Result (ExperimentRecord F) → Result (Unit {0}) × Progress F
  set_current p (ok r) = (ok tt, record p { current = r })
  set_current p (err e) = (err e, p)

  -- `record = make(record)`.
  abbrev pub assign : (ExperimentRecord F → Result (ExperimentRecord F)) → Attempt F (Unit {0})
  assign make = λ p. set_current p (make p.current)

  abbrev pub load : String → Attempt F (ExperimentRecord F)
  load experiment_id = λ p. (find p.records experiment_id, p)

  abbrev pub saved_as : Progress F → Result (Repository F) → Result (Unit {0}) × Progress F
  saved_as p (ok records) = (ok tt, record p { records = records })
  saved_as p (err e) = (err e, p)

  -- `self._repository.save(record)`.
  abbrev pub save_current : Equality F → Attempt F (Unit {0})
  save_current eq = λ p. saved_as p (save eq p.records p.current)

  -- `record = transition(record, ...)`.
  abbrev pub move :
      (ExperimentRequest F → String)
      → ExperimentState
      → ℕ
      → String
      → (ExperimentRecord F → ExperimentRecord F)
      → Attempt F (Unit {0})
  move identity state at message updates =
      assign (λ r. transition identity r state at message updates)
