-- ===== src/Experiments/Reached.antt =====
-- What the service leaves in the repository.
use the_council.Prelude.{
  ℕ, ◌≡◌, refl, sym, ap, Bool, true, false, ◌&&◌, Option, none, some, String, get_last?, Bool-cases,
  inl, inr,
}
use mathlib.Core.Path.{subst}
use the_council.Dict.{get}
use the_council.Result.{
  Result, ok, err, Error, guard, raised, of_option, unknown_experiment, ok-injective,
}
use the_council.Experiments.Models.{
  ExperimentState, created, context_ready, forecasting, forecast_locked, evaluating, complete,
  failed, is_state, is_ended, ExperimentRequest, ExperimentRecord, LifecycleEvent, Forecast,
  OracleOutcome, Equality, horizon_end, validate_record,
}
use the_council.Experiments.Lifecycle.{transition}
use the_council.Experiments.Moves.{validate_record-eq-ok}
use the_council.Experiments.Repository.{Repository, find, save}
use the_council.Experiments.Attempt.{
  Progress, Attempt, after, lift, assign, load, move, save_current,
}
use the_council.Experiments.Service.{
  Collaborators, lock, resolve, conclude, run_created, run_found, run, create, create_unless,
  new_record, finish, handle, store, saved, fail_record, fail_after, safe_failure,
}
use the_council.Experiments.Lawful.{
  IsLawful, AreLawful, IsLawfulProgress, KeepsLawful, KeepsLawful-then, assign-KeepsLawful,
  move-KeepsLawful, save-AreLawful, save_current-KeepsLawful, get-IsLawful, transition-IsLawful,
  is_path,
}

module _ {F : Type 0} (eq : Equality F) (identity : ExperimentRequest F → String) where
  load-KeepsLawful :
      {B : Type 0} (id : String) (next : ExperimentRecord F → Attempt F B)
      → ((r : ExperimentRecord F) → IsLawful identity r → KeepsLawful identity (next r))
      → KeepsLawful identity (λ p. after (load id p) next)
  unfolding find
  load-KeepsLawful id next k p l = go (get id p.records) refl
    where
      go :
          (o : Option (ExperimentRecord F))
          → get id p.records ≡ o
          → IsLawfulProgress identity (after (of_option (unknown_experiment id) o, p) next).1
      go none h = l
      go (some r) h = k r (get-IsLawful identity id p.records r l.1 h) p l

  save-then :
      {B : Type 0} (next : Unit {0} → Attempt F B)
      → ((u : Unit {0}) → KeepsLawful identity (next u))
      → KeepsLawful identity (λ p. after (save_current eq p) next)
  save-then next k =
      KeepsLawful-then identity (save_current eq) next (save_current-KeepsLawful identity eq) k

  lift-then :
      {A B : Type 0} (r : Result A) (next : A → Attempt F B)
      → ((a : A) → KeepsLawful identity (next a))
      → KeepsLawful identity (λ p. after (lift r p) next)
  lift-then r next k = KeepsLawful-then identity (lift r) next (λ p l. l) k

  -- A transition, and the record saved.
  move-then :
      {B : Type 0} (state : ExperimentState) (at : ℕ)
      (updates : ExperimentRecord F → ExperimentRecord F) (next : Unit {0} → Attempt F B)
      → ((s : ExperimentRecord F) → (updates s).lifecycle ≡ s.lifecycle)
      → ((u : Unit {0}) → KeepsLawful identity (next u))
      → KeepsLawful identity (λ p. after (move identity state at "" updates p) next)
  move-then state at updates next same k =
      KeepsLawful-then identity (move identity state at "" updates) next
        (move-KeepsLawful identity state at "" updates same) k

  module _ (service : Collaborators F) where
    lock-KeepsLawful :
        (request : ExperimentRequest F) (id : String)
        → KeepsLawful identity (lock eq identity service request id)
    unfolding lock
    lock-KeepsLawful request id = lift-then (service.build request) _ λ context.
        move-then context_ready request.evaluation_time (λ r. record r { context = some context }) _
          (λ s. refl)
          λ _. save-then _ λ _.
            move-then forecasting request.evaluation_time (λ r. r) _ (λ s. refl)
              λ _. save-then _ λ _. lift-then (service.forecast request context) _ λ forecast.
                move-then forecast_locked forecast.finalized_at
                  (λ r. record r { forecast = some forecast }) _ (λ s. refl)
                  λ _. save-then _ λ _. load-KeepsLawful id _ λ locked l.
                    lift-then
                      (guard
                        (eq.same_forecast locked.forecast (some forecast)
                          && is_state locked.state forecast_locked)
                        (raised "forecast lock was not durably persisted"))
                      _
                      λ _. lift-then (horizon_end request) _ λ end.
                        KeepsLawful-then identity
                          (assign (λ r. transition identity locked evaluating end "" (λ q. q))) _
                          (assign-KeepsLawful identity _ (λ r q _ h.
                            transition-IsLawful identity locked evaluating end "" (λ x. x) q
                              (λ s. refl) l h))
                          λ _. save-then _ λ _ p k. k

    conclude-KeepsLawful :
        (forecast : Forecast F) (outcome : OracleOutcome F) (end : ℕ) (whole : Bool)
        → KeepsLawful identity (conclude eq identity service forecast outcome end whole)
    conclude-KeepsLawful forecast outcome end false =
        move-KeepsLawful identity failed end "oracle horizon is incomplete" _ (λ s. refl)
    conclude-KeepsLawful forecast outcome end true =
        lift-then (service.evaluate forecast outcome) _
          λ evaluation. move-KeepsLawful identity complete evaluation.evaluated_at "" _ (λ s. refl)

    resolve-KeepsLawful :
        (request : ExperimentRequest F) (forecast : Forecast F)
        → KeepsLawful identity (resolve eq identity service request forecast)
    unfolding resolve
    resolve-KeepsLawful request forecast = lift-then (service.outcome request) _ λ outcome.
        lift-then (horizon_end request) _
          λ end. conclude-KeepsLawful forecast outcome end outcome.horizon_complete

    store-AreLawful :
        (records : Repository F) (m : Result (ExperimentRecord F))
        → AreLawful identity records
        → ((r : ExperimentRecord F) → m ≡ ok r → IsLawful identity r)
        → AreLawful identity (store eq identity records m).1
    store-AreLawful records (err e) h k = h
    store-AreLawful records (ok r) h k = go (save eq records r) refl
      where
        go :
            (m : Result (Repository F))
            → save eq records r ≡ m
            → AreLawful identity (saved eq identity records r m).1
        go (err e) s = h
        go (ok after_) s = save-AreLawful identity eq records r after_ (k r refl) h s

    fail_record-IsLawful :
        (r : ExperimentRecord F) (e : Error) (q : ExperimentRecord F)
        → IsLawful identity r
        → fail_record eq identity service r e ≡ ok q
        → IsLawful identity q
    unfolding fail_record
    fail_record-IsLawful r e q l h = go (get_last? r.lifecycle) h
      where
        go :
            (o : Option LifecycleEvent)
            → fail_after eq identity service r e o ≡ ok q
            → IsLawful identity q
        go none k = absurd (cc)
        go (some last) k =
            transition-IsLawful identity r failed last.occurred_at (safe_failure e) _ q (λ s. refl)
              l k

    finish-AreLawful :
        (x : Result (Unit {0}) × Progress F)
        → IsLawfulProgress identity x.1
        → AreLawful identity (finish eq identity service x).1
    finish-AreLawful (ok u, p) l =
        store-AreLawful p.records (ok p.current) l.1
          (λ r e. subst (IsLawful identity) (ok-injective e) l.0)
    finish-AreLawful (err e, p) l = go (is_ended p.current.state)
      where
        go : (b : Bool) → AreLawful identity (handle eq identity service e p b).1
        go true = l.1
        go false =
            store-AreLawful p.records (fail_record eq identity service p.current e) l.1
              (λ q h. fail_record-IsLawful p.current e q l.0 h)

    run_created-AreLawful :
        (records : Repository F) (id : String) (r : ExperimentRecord F)
        → IsLawful identity r
        → AreLawful identity records
        → AreLawful identity (run_created eq identity service records id r).1
    unfolding run_created
    run_created-AreLawful records id r l h = finish-AreLawful _ (
        KeepsLawful-then identity (lock eq identity service r.request id) _
          (lock-KeepsLawful r.request id) (λ forecast. resolve-KeepsLawful r.request forecast)
          (record { current = r; records = records }) (l, h))

    pub run-AreLawful :
        (records : Repository F) (id : String)
        → AreLawful identity records
        → AreLawful identity (run eq identity service records id).1
    unfolding run find
    run-AreLawful records id h = go (get id records) refl
      where
        go :
            (o : Option (ExperimentRecord F))
            → get id records ≡ o
            → AreLawful identity
                (run_found eq identity service records id (of_option (unknown_experiment id) o)).1
        go none e = h
        go (some r) e = elim (Bool-cases (is_ended r.state)) [
          | inl a ↦ rw a h
          | inr a ↦ elim (Bool-cases (is_state r.state created)) [
            | inl b ↦
                rw (a, b)
                  (run_created-AreLawful records id r (get-IsLawful identity id records r h e) h)
            | inr b ↦ rw (a, b) h
          ]
        ]

    pub create-AreLawful :
        (records : Repository F) (request : ExperimentRequest F)
        → AreLawful identity records
        → AreLawful identity (create eq identity records request).1
    unfolding create
    create-AreLawful records request h = go (get (identity request) records)
      where
        go :
            (o : Option (ExperimentRecord F))
            → AreLawful identity (create_unless eq identity records request o).1
        go (some existing) = elim (Bool-cases (eq.same_request existing.request request)) [
          | inl a ↦ rw a h
          | inr a ↦ rw a h
        ]
        go none =
            store-AreLawful records (validate_record identity (new_record eq identity request)) h
              (λ r e.
                let same = validate_record-eq-ok identity (new_record eq identity request) r e in
                (
                  subst (λ x. validate_record identity x ≡ ok r) (sym same) e,
                  ap (λ x. is_path x.lifecycle) same,
                ))
