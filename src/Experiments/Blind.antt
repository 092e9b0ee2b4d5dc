-- ===== src/Experiments/Blind.antt =====
-- The forecast of an experiment does not depend on the oracle, nor on what was not yet available.
use the_council.Prelude.{
  ℕ, ◌≡◌, refl, sym, ap, ◌∙◌, Bool, true, false, Option, none, some, String, get_last?,
}
use the_council.Result.{Result, ok, err, Error, ok-injective}
use the_council.Experiments.Models.{
  ExperimentState, failed, complete, is_ended, ExperimentRequest, ExperimentRecord, Forecast,
  OracleOutcome, Equality, LifecycleEvent, horizon_end,
}
use the_council.Experiments.Lifecycle.{transition}
use the_council.Experiments.Moves.{transition-eq-ok, moved}
use the_council.Experiments.Repository.{Repository, save}
use the_council.Experiments.Attempt.{Progress, Attempt, after, lift, assign, move}
use the_council.Experiments.Service.{
  Collaborators, lock, resolve, conclude, run_created, finish, handle, store, saved, fail_record,
  fail_after, safe_failure,
}

module _ {F : Type 0} (eq : Equality F) (identity : ExperimentRequest F → String) where
  -- The forecast stands in the record, whatever a step does.
  abbrev KeepsForecast : {A : Type 0} → Attempt F A → Type 0
  KeepsForecast m = (p : Progress F) → (m p).1.current.forecast ≡ p.current.forecast

  KeepsForecast-then :
      {A B : Type 0} (m : Attempt F A) (next : A → Attempt F B)
      → KeepsForecast m
      → ((a : A) → KeepsForecast (next a))
      → KeepsForecast (λ p. after (m p) next)
  KeepsForecast-then m next h k p = go (m p) (h p)
    where
      go :
          (x : Result _ × Progress F)
          → x.1.current.forecast ≡ p.current.forecast
          → (after x next).1.current.forecast ≡ p.current.forecast
      go (ok a, q) e = k a q ∙ e
      go (err e, q) h = h

  move-KeepsForecast :
      (state : ExperimentState) (at : ℕ) (message : String)
      (updates : ExperimentRecord F → ExperimentRecord F)
      → ((r : ExperimentRecord F) → (updates r).forecast ≡ r.forecast)
      → KeepsForecast (move identity state at message updates)
  move-KeepsForecast state at message updates same p =
      go (transition identity p.current state at message updates) refl
    where
      go :
          (m : Result (ExperimentRecord F))
          → transition identity p.current state at message updates ≡ m
          → (assign (λ _. m) p).1.current.forecast ≡ p.current.forecast
      go (err e) h = refl
      go (ok q) h =
          let moves = transition-eq-ok identity p.current state at message updates q h in
          ap (λ x. x.forecast) moves.1 ∙ same (moved identity p.current state at message)

  module _ (service : Collaborators F) where
    conclude-KeepsForecast :
        (forecast : Forecast F) (outcome : OracleOutcome F) (end : ℕ) (complete_ : Bool)
        → KeepsForecast (conclude eq identity service forecast outcome end complete_)
    conclude-KeepsForecast forecast outcome end false =
        move-KeepsForecast failed end "oracle horizon is incomplete" _ (λ r. refl)
    conclude-KeepsForecast forecast outcome end true =
        KeepsForecast-then (lift (service.evaluate forecast outcome)) _ (λ p. refl)
          (λ evaluation. move-KeepsForecast complete evaluation.evaluated_at "" _ (λ r. refl))

    resolve-KeepsForecast :
        (request : ExperimentRequest F) (forecast : Forecast F)
        → KeepsForecast (resolve eq identity service request forecast)
    unfolding resolve
    resolve-KeepsForecast request forecast =
        KeepsForecast-then (lift (service.outcome request)) _ (λ p. refl)
          (λ outcome.
            KeepsForecast-then (lift (horizon_end request)) _ (λ p. refl)
              (λ end. conclude-KeepsForecast forecast outcome end outcome.horizon_complete))

    store-eq-ok :
        (records : Repository F) (m : Result (ExperimentRecord F)) (q : ExperimentRecord F)
        → (store eq identity records m).0 ≡ ok q
        → m ≡ ok q
    store-eq-ok records (err e) q h = absurd (cc)
    store-eq-ok records (ok r) q h = go (save eq records r) h
      where
        go : (m : Result (Repository F)) → (saved eq identity records r m).0 ≡ ok q → ok r ≡ ok q
        go (ok after_) h = h
        go (err e) h = absurd (cc)

    fail_record-forecast :
        (r : ExperimentRecord F) (e : Error) (q : ExperimentRecord F)
        → fail_record eq identity service r e ≡ ok q
        → q.forecast ≡ r.forecast
    unfolding fail_record
    fail_record-forecast r e q h = go (get_last? r.lifecycle) h
      where
        go :
            (l : Option LifecycleEvent)
            → fail_after eq identity service r e l ≡ ok q
            → q.forecast ≡ r.forecast
        go none k = absurd (cc)
        go (some last) k =
            let moves =
              transition-eq-ok identity r failed last.occurred_at (safe_failure e) _ q k in
            ap (λ x. x.forecast) moves.1

    finish-forecast :
        (x : Result (Unit {0}) × Progress F) (q : ExperimentRecord F)
        → (finish eq identity service x).0 ≡ ok q
        → q.forecast ≡ x.1.current.forecast
    finish-forecast (ok u, p) q h =
        ap (λ m. m.forecast) (sym (ok-injective (store-eq-ok p.records (ok p.current) q h)))
    finish-forecast (err e, p) q h = go (is_ended p.current.state) h
      where
        go :
            (b : Bool)
            → (handle eq identity service e p b).0 ≡ ok q
            → q.forecast ≡ p.current.forecast
        go true k = absurd (cc)
        go false k =
            fail_record-forecast p.current e q
              (store-eq-ok p.records (fail_record eq identity service p.current e) q k)

  -- Two services that build the same context of a request, and forecast alike from it.
  abbrev pub SameSight : ExperimentRequest F → Collaborators F → Collaborators F → Type 0
  SameSight request a b = (a.build request ≡ b.build request) × (a.forecast ≡ b.forecast)

  module _ (a b : Collaborators F) where
    lock-SameSight :
        (request : ExperimentRequest F) (experiment_id : String)
        → SameSight request a b
        → lock eq identity a request experiment_id ≡ lock eq identity b request experiment_id
    unfolding lock
    lock-SameSight request experiment_id (e, k) = rw (e, k) refl

    -- The forecast of a record that an attempt leaves.
    abbrev left : (Result (Forecast F) × Progress F) → Option (Forecast F)
    left x = x.1.current.forecast

    run_created-forecast :
        (service : Collaborators F) (records : Repository F) (experiment_id : String)
        (r q : ExperimentRecord F)
        → (run_created eq identity service records experiment_id r).0 ≡ ok q
        → q.forecast
          ≡ left (
              lock eq identity service r.request experiment_id
                (record { current = r; records = records }))
    unfolding run_created
    run_created-forecast service records experiment_id r q h =
        finish-forecast service _ q h
        ∙ go (
            lock eq identity service r.request experiment_id
              (record { current = r; records = records }))
      where
        go :
            (x : Result (Forecast F) × Progress F)
            → (after x
                (λ forecast. resolve eq identity service r.request forecast)).1.current.forecast
              ≡ left x
        go (ok forecast, p) = resolve-KeepsForecast service r.request forecast p
        go (err e, p) = refl

    pub run_created_blind :
        (records : Repository F) (experiment_id : String) (r ra rb : ExperimentRecord F)
        → SameSight r.request a b
        → (run_created eq identity a records experiment_id r).0 ≡ ok ra
        → (run_created eq identity b records experiment_id r).0 ≡ ok rb
        → ra.forecast ≡ rb.forecast
    run_created_blind records experiment_id r ra rb same ha hb =
        run_created-forecast a records experiment_id r ra ha
        ∙ ap (λ m. left (m (record { current = r; records = records })))
            (lock-SameSight r.request experiment_id same)
        ∙ sym (run_created-forecast b records experiment_id r rb hb)
