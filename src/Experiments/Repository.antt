-- ===== src/Experiments/Repository.antt =====
-- `InMemoryExperimentRepository` of experiments/persistence.py, whose state is its dictionary.
use the_council.Prelude.{
  Bool, ◌&&◌, ◌||◌, not, if◌then◌else◌, Option, none, some, List, [], ◌∷◌, String, ltb, eqb,
}
use the_council.Prelude.Sort.{str_leb}
use the_council.Dict.{Dict, get, put}
use the_council.Result.{
  Result, ok, ◌>>◌, guard, refuse, of_option, unknown_experiment, forecast_immutable,
  request_immutable,
}
use the_council.Schemas.Market.{is_some}
use the_council.Experiments.Models.{ExperimentRecord, Equality}

abbrev pub Repository : Type 0 → Type 0
Repository F = Dict (ExperimentRecord F)

module _ {F : Type 0} where
  -- `get`, which raises `LookupError`.
  unfoldable pub find : Repository F → String → Result (ExperimentRecord F)
  find records experiment_id =
      of_option (unknown_experiment experiment_id) (get experiment_id records)

  -- The reverse of the order by (evaluation_time, experiment_id).
  abbrev is_listed_before : ExperimentRecord F → ExperimentRecord F → Bool
  is_listed_before a b =
      let s = a.request.evaluation_time in
      let t = b.request.evaluation_time in
      ltb t s || eqb s t && str_leb b.experiment_id a.experiment_id

  abbrev insert_listed : ExperimentRecord F → List (ExperimentRecord F) → List (ExperimentRecord F)
  insert_listed r [] = r ∷ []
  insert_listed r (s ∷ rs) =
      let rest = insert_listed r rs in if is_listed_before r s then r ∷ s ∷ rs else s ∷ rest

  -- `list`.
  unfoldable pub list_records : Repository F → List (ExperimentRecord F)
  list_records [] = []
  list_records ((experiment_id, r) ∷ records) = insert_listed r (list_records records)

module _ {F : Type 0} (eq : Equality F) where
  unfoldable pub protect_forecast :
      Option (ExperimentRecord F) → ExperimentRecord F → Result (Unit {0})
  protect_forecast none current = ok tt
  protect_forecast (some previous) current = do
    refuse (is_some previous.forecast && not (eq.same_forecast current.forecast previous.forecast))
        forecast_immutable
    guard (eq.same_request previous.request current.request) request_immutable

  -- `save`: what it raises, or the repository after it.
  unfoldable pub save : Repository F → ExperimentRecord F → Result (Repository F)
  save records r = do
    protect_forecast (get r.experiment_id records) r
    ok (put r.experiment_id r records)
