-- ===== src/Context/Causal.antt =====
-- What a market context holds, whoever made it, and that the service makes it for its request.
use the_council.Context.Sequenced.{guarded_give}
use the_council.Context.Service.{enrich, collect_data, Cache}
use mathlib.Core.Path.{subst}
use the_council.Prelude.{
  ◌≡◌, refl, ◌≤◌, true, false, not, List, [], ◌∷◌, String, All, any, ltb, eqb, eqb_iff, arith, ℕ,
  eq_iff, sym, ap, ◌∙◌,
}
use the_council.Result.{Result, ok, err}
use the_council.Schemas.Market.{MarketSnapshot}
use the_council.Context.Capabilities.{
  Capabilities, minus, union, same_capabilities, is_none-absent, ContextCapability,
}
use the_council.Context.Models.{
  ContextDatum, ContextRequest, MarketContext, available_in, validate_market_context,
  has_unique_identities,
}
use the_council.Context.Providers.{ContextProvider, check_request, enriched_context, guarded}

-- A datum that was available, and taken in, by a time.
pub record IsKnownBy {F : Type 0} (time : ℕ) (d : ContextDatum F) : Type 0 where
  pub published : d.provenance.provider_available_at ≤ time
  pub ingested : d.provenance.ingested_at ≤ time

-- A context that says what it has and what it lacks, with nothing from after its time.
pub record IsCausal {F : Type 0} (c : MarketContext F) : Type 0 where
  pub clock : c.snapshot.as_of ≡ c.as_of
  pub known : All (IsKnownBy c.as_of) c.data_items
  pub asked :
      All
        (λ (d : ContextDatum F).
          union c.requested_required c.requested_optional d.capability ≡ true)
        c.data_items
  pub lacks_required :
      (a : ContextCapability)
      → c.missing_required a ≡ minus c.requested_required (available_in c.data_items) a
  pub lacks_optional :
      (a : ContextCapability)
      → c.missing_optional a ≡ minus c.requested_optional (available_in c.data_items) a
  pub identities : has_unique_identities c.data_items ≡ true

same_at : (s t : Capabilities) → same_capabilities s t ≡ true → (a : ContextCapability) → s a ≡ t a
unfolding same_capabilities
same_at s t h a = ground (arith, is_none-absent (minus s t) a, is_none-absent (minus t s) a)

module _ {F : Type 0} where
  known_of :
      (time : ℕ) (items : List (ContextDatum F))
      → any (λ (d : ContextDatum F). ltb time d.provenance.provider_available_at) items ≡ false
      → any (λ (d : ContextDatum F). ltb time d.provenance.ingested_at) items ≡ false
      → All (IsKnownBy time) items
  known_of time [] h k = tt
  known_of time (d ∷ items) h k = (
    record { published = ground arith; ingested = ground arith },
    known_of time items (ground arith) (ground arith),
  )

  asked_of :
      (s : Capabilities) (items : List (ContextDatum F))
      → any (λ (d : ContextDatum F). not (s d.capability)) items ≡ false
      → All (λ (d : ContextDatum F). s d.capability ≡ true) items
  asked_of s [] h = tt
  asked_of s (d ∷ items) h = (ground arith, asked_of s items (ground arith))

  module _ (context_identity : MarketContext F → String) where
    -- The tests that a context has passed.
    validate_market_context-eq-ok :
        (c d : MarketContext F)
        → validate_market_context context_identity c ≡ ok d
        → (d ≡ record c { context_id = context_identity c })
          × (eqb c.snapshot.as_of c.as_of ≡ true)
          × (any
                (λ (i : ContextDatum F).
                  not (union c.requested_required c.requested_optional i.capability))
                c.data_items
              ≡ false)
          × (same_capabilities c.missing_required
                (minus c.requested_required (available_in c.data_items))
              ≡ true)
          × (same_capabilities c.missing_optional
                (minus c.requested_optional (available_in c.data_items))
              ≡ true)
          × (any
                (λ (i : ContextDatum F). ltb c.as_of i.provenance.provider_available_at)
                c.data_items
              ≡ false)
          × (any (λ (i : ContextDatum F). ltb c.as_of i.provenance.ingested_at) c.data_items
              ≡ false)
          × (has_unique_identities c.data_items ≡ true)
    unfolding validate_market_context
    validate_market_context-eq-ok c d h = ground arith

    IsCausal-of :
        (c : MarketContext F)
        → validate_market_context context_identity c
          ≡ ok (record c { context_id = context_identity c })
        → IsCausal (record c { context_id = context_identity c })
    IsCausal-of c h =
        let (_, clock, asked, required, optional, available, ingested, unique) =
          validate_market_context-eq-ok c _ h in
        record {
          clock = ground (arith, eqb_iff c.snapshot.as_of c.as_of);
          known = known_of c.as_of c.data_items available ingested;
          asked = asked_of (union c.requested_required c.requested_optional) c.data_items asked;
          lacks_required = same_at _ _ required;
          lacks_optional = same_at _ _ optional;
          identities = unique;
        }

    -- Whatever passes the validator is causal.
    pub validate_market_context-IsCausal :
        (c d : MarketContext F) → validate_market_context context_identity c ≡ ok d → IsCausal d
    validate_market_context-IsCausal c d h =
        let same = (validate_market_context-eq-ok c d h).0 in
        subst IsCausal (sym same) (IsCausal-of c (h ∙ ap ok same))

    abbrev pub IsContextFor : MarketSnapshot F → ContextRequest F → MarketContext F → Type 0
    IsContextFor snapshot request c =
        (c.snapshot ≡ snapshot)
        × (c.as_of ≡ request.as_of)
        × (c.requested_required ≡ request.required)
        × (c.requested_optional ≡ request.optional)
        × (snapshot.symbol ≡ request.instrument)
        × (snapshot.timeframe ≡ request.timeframe)
        × IsCausal c

    made_for :
        (snapshot : MarketSnapshot F) (request : ContextRequest F) (found : List (ContextDatum F))
        (c : MarketContext F)
        → check_request snapshot request ≡ ok tt
        → validate_market_context context_identity (enriched_context snapshot request found) ≡ ok c
        → IsContextFor snapshot request c
    unfolding check_request enriched_context
    made_for snapshot request found c t h =
        let same = (validate_market_context-eq-ok _ c h).0 in
        (
          ap (λ (m : MarketContext F). m.snapshot) same,
          ap (λ (m : MarketContext F). m.as_of) same,
          ap (λ (m : MarketContext F). m.requested_required) same,
          ap (λ (m : MarketContext F). m.requested_optional) same,
          ground (arith, eq_iff snapshot.symbol request.instrument),
          ground (arith, eq_iff snapshot.timeframe request.timeframe),
          validate_market_context-IsCausal _ c h,
        )

    made :
        (snapshot : MarketSnapshot F) (request : ContextRequest F) (test : Result (Unit {0}))
        (found : Result (List (ContextDatum F))) (c : MarketContext F)
        → check_request snapshot request ≡ test
        → guarded test found (λ items.
          validate_market_context context_identity (enriched_context snapshot request items))
          ≡ ok c
        → IsContextFor snapshot request c
    made snapshot request (err e) found c t h = cc h
    made snapshot request (ok tt) (err e) c t h = cc h
    made snapshot request (ok tt) (ok items) c t h = made_for snapshot request items c t h

    -- A context that the service returns is for the snapshot and the request it was called with, says
    -- exactly which of the requested capabilities it lacks, and holds only requested evidence that was
    -- available and taken in by the time of the snapshot. What the cache holds does not matter.
    pub enrich-IsContextFor :
        (request_identity : ContextRequest F → String) (providers : List (ContextProvider F))
        (snapshot : MarketSnapshot F) (request : ContextRequest F) (cache : Cache F)
        (c : MarketContext F)
        → (enrich request_identity context_identity providers snapshot request cache).0 ≡ ok c
        → IsContextFor snapshot request c
    unfolding enrich
    enrich-IsContextFor request_identity providers snapshot request cache c h =
        made snapshot request (check_request snapshot request)
          (collect_data request_identity request providers cache).0 c refl
          (sym (
              guarded_give (check_request snapshot request)
                (collect_data request_identity request providers)
                (λ (items : List (ContextDatum F)).
                  validate_market_context context_identity
                    (enriched_context snapshot request items))
                cache)
            ∙ h)
