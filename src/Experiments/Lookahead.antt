-- ===== src/Experiments/Lookahead.antt =====
-- Experiments on the in-memory provider do not look ahead.
use the_council.Prelude.{
  arith, ℕ, ◌≡◌, refl, sym, ap, ◌∙◌, ◌⊎◌, inl, inr, Bool-cases, true, false, List, String, select,
  ◌*◌,
}
use mathlib.Core.Path.{subst}
use the_council.Floats.{Float}
use the_council.Result.{Result, ok, err, ◌>>=◌, >>=-eq-ok}
use the_council.MarketData.Models.{HistoricalRequest, HistoricalBars, duration, validate_request}
use the_council.Schemas.Market.{MarketBar}
use the_council.MarketData.InMemory.{InMemoryHistoricalProvider, is_available, fetch_historical}
use the_council.MarketData.Causal.{fetch_causal}
use the_council.Experiments.Models.{is_ended, ExperimentRequest, ExperimentRecord}
use the_council.Experiments.Context.{
  build, blind_request, required_context_bars, timeframe_of, instrument_of, subtract_time,
  context_of,
}
use the_council.Experiments.Composed.{Setting, collaborators}
use the_council.Experiments.Repository.{Repository, find}
use the_council.Experiments.Service.{Collaborators, run, run_created}
use the_council.Experiments.Blind.{run_created_blind}

validate_request-eq-ok : (r q : HistoricalRequest) → validate_request r ≡ ok q → q ≡ r
unfolding validate_request
validate_request-eq-ok r q h = ground arith

-- `ok` binds agree if what follows agrees on the value.
bind_lem :
    {A B : Type 0} (m : Result A) (f g : A → Result B)
    → ((a : A) → m ≡ ok a → f a ≡ g a)
    → m >>= f ≡ m >>= g
bind_lem (ok a) f g h = h a refl
bind_lem (err e) f g h = refl

module _ {F : Type 0} ⦃f : Float F⦄ (s : Setting F) where
  as_of-blind_request :
      (request : ExperimentRequest F) (required : ℕ) (asked : HistoricalRequest)
      → blind_request s.build_agents request required ≡ ok asked
      → asked.as_of ≡ request.evaluation_time
  unfolding blind_request
  as_of-blind_request request required asked h =
      let (timeframe, _, h1) = >>=-eq-ok (timeframe_of request.timeframe) _ h in
      let (instrument, _, h2) = >>=-eq-ok (instrument_of request.instrument) _ h1 in
      let (start, _, h3) =
        >>=-eq-ok (subtract_time request.evaluation_time (required * duration timeframe)) _ h2 in
      ap (λ q. q.as_of) (validate_request-eq-ok _ asked h3)

  abbrev pub fetch : InMemoryHistoricalProvider F → HistoricalRequest → Result (HistoricalBars F)
  fetch provider = fetch_historical s.cache_key provider

  abbrev Ran :
      Collaborators F → Repository F → String → ExperimentRecord F → ExperimentRecord F → Type 0
  Ran service records experiment_id r q =
      ((is_ended r.state ≡ true) × (q ≡ r))
      ⊎ ((is_ended r.state ≡ false)
          × ((run_created s.eq s.identity service records experiment_id r).0 ≡ ok q))

  run_found-eq-ok :
      (service : Collaborators F) (records : Repository F) (experiment_id : String)
      (r q : ExperimentRecord F)
      → find records experiment_id ≡ ok r
      → (run s.eq s.identity service records experiment_id).0 ≡ ok q
      → Ran service records experiment_id r q
  unfolding run
  run_found-eq-ok service records experiment_id r q found h = elim (Bool-cases (is_ended r.state)) [
    | inl x ↦ inl (x, ground arith)
    | inr x ↦ inr (x, ground arith)
  ]

  abbrev pub ran :
      InMemoryHistoricalProvider F → Repository F → String → Result (ExperimentRecord F)
  ran provider records experiment_id =
      (run s.eq s.identity (collaborators s (fetch provider)) records experiment_id).0

  module _ (self : InMemoryHistoricalProvider F) (others : List (MarketBar F)) where
    abbrev pub altered : InMemoryHistoricalProvider F
    altered = record self { bars = others }

    build_causal :
        (request : ExperimentRequest F)
        → select (is_available request.evaluation_time) self.bars
          ≡ select (is_available request.evaluation_time) others
        → (collaborators s (fetch self)).build request
          ≡ (collaborators s (fetch altered)).build request
    unfolding build
    build_causal request e = bind_lem (timeframe_of request.timeframe) _ _ λ timeframe _.
        bind_lem (required_context_bars s.build_agents request) _ _ λ required _.
          bind_lem (blind_request s.build_agents request required) _ _ λ asked h.
            ap
              (λ m.
                m
                >>= context_of s.build_agents s.matches s.digest s.content_identity s.identity
                    request required asked)
              (fetch_causal s.cache_key self others asked (
                subst (λ t. select (is_available t) self.bars ≡ select (is_available t) others)
                  (sym (as_of-blind_request request required asked h)) e))

    -- Two providers that hold the same bars of those available by the evaluation time of a stored
    -- experiment, whatever they hold of later ones, lead to the same forecast in the record that a run
    -- of the experiment returns.
    pub run_blind :
        (records : Repository F) (experiment_id : String) (r ra rb : ExperimentRecord F)
        → find records experiment_id ≡ ok r
        → select (is_available r.request.evaluation_time) self.bars
          ≡ select (is_available r.request.evaluation_time) others
        → ran self records experiment_id ≡ ok ra
        → ran altered records experiment_id ≡ ok rb
        → ra.forecast ≡ rb.forecast
    run_blind records experiment_id r ra rb found e ha hb =
        go (run_found-eq-ok (collaborators s (fetch self)) records experiment_id r ra found ha)
          (run_found-eq-ok (collaborators s (fetch altered)) records experiment_id r rb found hb)
      where
        go :
            Ran (collaborators s (fetch self)) records experiment_id r ra
            → Ran (collaborators s (fetch altered)) records experiment_id r rb
            → ra.forecast ≡ rb.forecast
        go (inl (x, a)) (inl (y, b)) = ap (λ q. q.forecast) (a ∙ sym b)
        go (inl (x, a)) (inr (y, b)) = absurd (cc)
        go (inr (x, a)) (inl (y, b)) = absurd (cc)
        go (inr (x, a)) (inr (y, b)) =
            run_created_blind s.eq s.identity (collaborators s (fetch self))
              (collaborators s (fetch altered)) records experiment_id r ra rb
              (build_causal r.request e, refl) a b
