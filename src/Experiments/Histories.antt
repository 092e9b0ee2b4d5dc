-- ===== src/Experiments/Histories.antt =====
-- The service under any sequence of calls.
use the_council.Prelude.{List, [], ◌∷◌, String}
use the_council.Experiments.Models.{ExperimentRequest, Equality}
use the_council.Experiments.Repository.{Repository}
use the_council.Experiments.Service.{Collaborators, create, run}
use the_council.Experiments.Lawful.{AreLawful}
use the_council.Experiments.Reached.{run-AreLawful, create-AreLawful}

pub data ServiceCall (F : Type 0) : Type 0 where
  creation : ExperimentRequest F → ServiceCall F
  running : String → ServiceCall F

module _ {F : Type 0} (eq : Equality F) (identity : ExperimentRequest F → String)
    (service : Collaborators F) where
  unfoldable pub serve_call : Repository F → ServiceCall F → Repository F
  serve_call records (creation request) = (create eq identity records request).1
  serve_call records (running id) = (run eq identity service records id).1

  unfoldable pub serve_calls : Repository F → List (ServiceCall F) → Repository F
  serve_calls records [] = records
  serve_calls records (c ∷ calls) = serve_calls (serve_call records c) calls

  -- If every record of a repository passes its validator and has a lifecycle of permitted transitions,
  -- then so it is after any creations and runs of experiments, whatever they return or raise, and
  -- whatever the market data, the agents and the oracle do.
  pub serve_calls-AreLawful :
      (records : Repository F) (calls : List (ServiceCall F))
      → AreLawful identity records
      → AreLawful identity (serve_calls records calls)
  unfolding serve_calls serve_call
  serve_calls-AreLawful records [] h = h
  serve_calls-AreLawful records (creation request ∷ calls) h =
      serve_calls-AreLawful (create eq identity records request).1 calls
        (create-AreLawful eq identity service records request h)
  serve_calls-AreLawful records (running id ∷ calls) h =
      serve_calls-AreLawful (run eq identity service records id).1 calls
        (run-AreLawful eq identity service records id h)
