-- ===== src/Context/Cached.antt =====
-- The cache of the context service changes no answer.
use the_council.Schemas.Market.{MarketSnapshot}
use the_council.Context.Capabilities.{is_none, meet}
use the_council.Stateful.{◌>>=◌, lift}
use mathlib.Core.Path.{subst₂}
use the_council.Prelude.{
  ◌≡◌, refl, false, List, String, eq_iff, arith, map, mem_text, has_unique_texts, All, inl, inr,
  Bool-cases, ◌∷◌, [], sym, select, ◌++◌, ◌∙◌, true,
}
use the_council.Result.{Result, ok}
use the_council.Context.Models.{
  ContextDatum, ContextRequest, MarketContext, validate_market_context,
}
use the_council.Context.Providers.{
  ContextProvider, fetch_checked, requested, collect_data_directly, enrich_directly, joined,
  check_request, enriched_context,
}
use the_council.Context.Service.{Cache, lookup, cache_key, obtain, collect_data, enrich}
use the_council.Context.Sequenced.{both_keep, both_give, guarded_keep, guarded_give}
use the_council.Context.Kept.{RespectsIdentity, IsServed, obtain-IsServed, obtain_other}

module _ {F : Type 0} (request_identity : ContextRequest F → String) where
  abbrev ids : List (ContextProvider F) → List String
  ids providers = map (λ (p : ContextProvider F). p.provider_id) providers

  -- What the loop does with a provider that it asks.
  abbrev pub chosen :
      ContextProvider F
      → ContextRequest F
      → List (ContextDatum F)
      → List (ContextDatum F)
      → List (ContextDatum F)
  chosen p request items found =
      select (λ (d : ContextDatum F). meet (requested request) p.capabilities d.capability) items
      ++ found

  module _ (request : ContextRequest F) (p : ContextProvider F)
      (providers : List (ContextProvider F)) where
    collect_skip :
        is_none (meet (requested request) p.capabilities) ≡ true
        → collect_data request_identity request (p ∷ providers)
          ≡ collect_data request_identity request providers
    unfolding collect_data
    collect_skip h = rw h refl

    collect_ask :
        is_none (meet (requested request) p.capabilities) ≡ false
        → collect_data request_identity request (p ∷ providers) ≡ (
            obtain request_identity p request >>= λ items.
            collect_data request_identity request providers >>= λ found.
            lift (ok (chosen p request items found)))
    unfolding collect_data
    collect_ask h = rw h refl

    directly_skip :
        is_none (meet (requested request) p.capabilities) ≡ true
        → collect_data_directly request (p ∷ providers) ≡ collect_data_directly request providers
    unfolding collect_data_directly
    directly_skip h = rw h refl

    directly_ask :
        is_none (meet (requested request) p.capabilities) ≡ false
        → collect_data_directly request (p ∷ providers)
          ≡ joined
              (chosen p request)
              (fetch_checked p request)
              (collect_data_directly request providers)
    unfolding collect_data_directly
    directly_ask h = rw h refl

  -- The loop leaves what is kept for a provider that is not in it.
  collect_other :
      (q : ContextProvider F) (request r : ContextRequest F) (providers : List (ContextProvider F))
      (cache : Cache F)
      → mem_text q.provider_id (ids providers) ≡ false
      → lookup
          (cache_key request_identity q r)
          (collect_data request_identity request providers cache).1
        ≡ lookup (cache_key request_identity q r) cache
  unfolding collect_data lift
  collect_other q request r [] cache h = refl
  collect_other q request r (p ∷ providers) cache h =
      elim (Bool-cases (is_none (meet (requested request) p.capabilities))) [
        | inl skipped ↦ rw skipped (collect_other q request r providers cache (ground arith))
        | inr asked ↦ rw asked (
            both_keep (obtain request_identity p request)
              (collect_data request_identity request providers) (chosen p request)
              (λ c.
                lookup (cache_key request_identity q r) c
                ≡ lookup (cache_key request_identity q r) cache)
              cache
              (obtain_other request_identity p q request r cache (
                ground
                  (arith, eq_iff p.provider_id q.provider_id, eq_iff q.provider_id p.provider_id)))
              (λ c same. collect_other q request r providers c (ground arith) ∙ same))
      ]

  IsServed-after :
      (request : ContextRequest F) (p : ContextProvider F) (providers : List (ContextProvider F))
      (cache : Cache F)
      → mem_text p.provider_id (ids providers) ≡ false
      → IsServed request_identity cache p
      → IsServed request_identity (collect_data request_identity request providers cache).1 p
  IsServed-after request p providers cache h served r items e =
      served r items (sym (collect_other p request r providers cache h) ∙ e)

  obtained_others :
      (request : ContextRequest F) (p : ContextProvider F) (providers : List (ContextProvider F))
      (cache : Cache F)
      → mem_text p.provider_id (ids providers) ≡ false
      → All (IsServed request_identity cache) providers
      → All (IsServed request_identity (obtain request_identity p request cache).1) providers
  obtained_others request p [] cache h served = tt
  obtained_others request p (q ∷ providers) cache h (s, served) = (
    λ r items e.
        s r items (sym (obtain_other request_identity p q request r cache (ground arith)) ∙ e),
    obtained_others request p providers cache (ground arith) served,
  )

  -- What it is for the loop, or a part of it, to be as without a cache.
  abbrev IsDirect :
      List (ContextProvider F)
      → Result (List (ContextDatum F)) × Cache F
      → Result (List (ContextDatum F))
      → Type 0
  IsDirect providers outcome direct =
      (outcome.0 ≡ direct) × All (IsServed request_identity outcome.1) providers

  collect_data_directly_eq :
      (request : ContextRequest F) (providers : List (ContextProvider F)) (cache : Cache F)
      → has_unique_texts (ids providers) ≡ true
      → All (RespectsIdentity request_identity) providers
      → All (IsServed request_identity cache) providers
      → IsDirect providers
          (collect_data request_identity request providers cache)
          (collect_data_directly request providers)
  unfolding collect_data collect_data_directly lift
  collect_data_directly_eq request [] cache u respects served = (refl, tt)
  collect_data_directly_eq request (p ∷ providers) cache u (respect, respects) (s, served) =
      elim (Bool-cases (is_none (meet (requested request) p.capabilities))) [
        | inl skipped ↦
            let rest =
              collect_data_directly_eq request providers cache (ground arith) respects served in
            subst₂ (λ c d. IsDirect (p ∷ providers) (c cache) d)
              (sym (collect_skip request p providers skipped))
              (sym (directly_skip request p providers skipped))
              (rest.0, (IsServed-after request p providers cache (ground arith) s, rest.1))
        | inr asked ↦
            let own = obtain-IsServed request_identity p request cache respect s in
            let after = (obtain request_identity p request cache).1 in
            let rest =
              collect_data_directly_eq request providers after (ground arith) respects
                (obtained_others request p providers cache (ground arith) served) in
            subst₂ (λ c d. IsDirect (p ∷ providers) (c cache) d)
              (sym (collect_ask request p providers asked))
              (sym (directly_ask request p providers asked))
              (
                both_give (obtain request_identity p request)
                      (collect_data request_identity request providers) (chosen p request) cache
                    ∙ cc (own.0, rest.0),
                both_keep (obtain request_identity p request)
                    (collect_data request_identity request providers) (chosen p request)
                    (λ c. All (IsServed request_identity c) (p ∷ providers)) cache
                    (own.1, obtained_others request p providers cache (ground arith) served)
                    (λ c kept. (
                      IsServed-after request p providers c (ground arith) kept.0,
                      (collect_data_directly_eq request providers c (ground arith) respects
                          kept.1).1,
                    )),
              )
      ]

  module _ (context_identity : MarketContext F → String)
      (providers : List (ContextProvider F)) where
    -- With a cache that holds what the providers answer, the service gives the context that it gives
    -- without one, and the cache still holds what the providers answer.
    pub enrich-IsDirect :
        (snapshot : MarketSnapshot F) (request : ContextRequest F) (cache : Cache F)
        → has_unique_texts (map (λ (p : ContextProvider F). p.provider_id) providers) ≡ true
        → All (RespectsIdentity request_identity) providers
        → All (IsServed request_identity cache) providers
        → ((enrich request_identity context_identity providers snapshot request cache).0
            ≡ enrich_directly context_identity providers snapshot request)
          × All
              (IsServed request_identity
                (enrich request_identity context_identity providers snapshot request cache).1)
              providers
    unfolding enrich enrich_directly
    enrich-IsDirect snapshot request cache u respects served =
        let found = collect_data_directly_eq request providers cache u respects served in
        let test = check_request snapshot request in
        let make = λ (items : List (ContextDatum F)).
          validate_market_context context_identity (enriched_context snapshot request items) in
        (
          guarded_give test (collect_data request_identity request providers) make cache
              ∙ cc (found.0),
          guarded_keep test (collect_data request_identity request providers) make
              (λ c. All (IsServed request_identity c) providers) cache served found.1,
        )
