-- ===== src/Context/Service.antt =====
-- context/service.py: `ContextService`, which asks a provider once for each request.
use the_council.Prelude.{
  Bool, ◌&&◌, if◌then◌else◌, Option, none, some, List, [], ◌∷◌, ◌++◌, String, ◌==◌, select,
}
use the_council.Result.{Result, ok, err}
use the_council.Stateful.{Stateful, ◌>>=◌, ◌>>◌, lift}
use the_council.Context.Providers.{
  ContextProvider, requested, check_request, fetch_checked, enriched_context,
}
use the_council.Schemas.Market.{MarketSnapshot}
use the_council.Context.Capabilities.{meet, is_none}
use the_council.Context.Models.{
  ContextDatum, ContextRequest, MarketContext, validate_market_context,
}

-- The cache, a `dict` whose keys are triples of texts.
pub record CacheKey : Type 0 where
  pub provider_id : String
  pub source_version : String
  pub identity : String

abbrev pub Cache : Type 0 → Type 0
Cache F = List (CacheKey × List (ContextDatum F))

abbrev pub same_key : CacheKey → CacheKey → Bool
same_key a b =
    a.provider_id == b.provider_id
    && a.source_version == b.source_version
    && a.identity == b.identity

module _ {F : Type 0} where
  abbrev pub lookup : CacheKey → Cache F → Option (List (ContextDatum F))
  lookup key [] = none
  lookup key ((k, items) ∷ cache) = if same_key k key then some items else lookup key cache

module _ {F : Type 0} (request_identity : ContextRequest F → String) where
  abbrev pub cache_key : ContextProvider F → ContextRequest F → CacheKey
  cache_key p request = record {
    provider_id = p.provider_id;
    source_version = p.source_version;
    identity = request_identity request;
  }

  abbrev pub keep :
      CacheKey → Result (List (ContextDatum F)) → Cache F → Result (List (ContextDatum F)) × Cache F
  keep key (err e) cache = (err e, cache)
  keep key (ok items) cache = (ok items, (key, items) ∷ cache)

  abbrev pub recall :
      ContextProvider F
      → ContextRequest F
      → Option (List (ContextDatum F))
      → Stateful (Cache F) (List (ContextDatum F))
  recall p request none cache = keep (cache_key p request) (fetch_checked p request) cache
  recall p request (some items) cache = (ok items, cache)

  -- The part under the lock: the cached answer, or a new one that is kept.
  unfoldable pub obtain :
      ContextProvider F → ContextRequest F → Stateful (Cache F) (List (ContextDatum F))
  obtain p request cache = recall p request (lookup (cache_key p request) cache) cache

  -- The loop over the providers.
  unfoldable pub collect_data :
      ContextRequest F → List (ContextProvider F) → Stateful (Cache F) (List (ContextDatum F))
  collect_data request [] = lift (ok [])
  collect_data request (p ∷ providers) =
      let rest = collect_data request providers in
      let selected = meet (requested request) p.capabilities in
      if is_none selected then rest else do
        items ← obtain p request
        found ← rest
        lift (ok (select (λ (d : ContextDatum F). selected d.capability) items ++ found))

  unfoldable pub enrich :
      (context_identity : MarketContext F → String)
      → List (ContextProvider F)
      → MarketSnapshot F
      → ContextRequest F
      → Stateful (Cache F) (MarketContext F)
  enrich context_identity providers snapshot request = do
    lift (check_request snapshot request)
    found ← collect_data request providers
    lift (validate_market_context context_identity (enriched_context snapshot request found))
