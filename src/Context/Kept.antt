-- ===== src/Context/Kept.antt =====
-- What the cache of the context service holds for a provider.
use the_council.Prelude.{
  ◌≡◌, refl, false, ◌==◌, some, List, String, eq_iff, arith, Option, none, sym,
}
use the_council.Result.{Result, ok, err}
use the_council.Context.Models.{ContextDatum, ContextRequest}
use the_council.Context.Providers.{ContextProvider, fetch_checked}
use the_council.Context.Service.{Cache, same_key, lookup, cache_key, keep, obtain, recall}

module _ {F : Type 0} (request_identity : ContextRequest F → String) where
  -- A provider answers requests of one identity alike.
  abbrev pub RespectsIdentity : ContextProvider F → Type 0
  RespectsIdentity p =
      (r s : ContextRequest F) → request_identity r ≡ request_identity s → p.fetch r ≡ p.fetch s

  -- What the cache holds for a provider is what the provider answers.
  abbrev pub IsServed : Cache F → ContextProvider F → Type 0
  IsServed cache p =
      (r : ContextRequest F) (items : List (ContextDatum F))
      → lookup (cache_key request_identity p r) cache ≡ some items
      → fetch_checked p r ≡ ok items

  fetch_same :
      (p : ContextProvider F) (r s : ContextRequest F)
      → p.fetch r ≡ p.fetch s
      → fetch_checked p r ≡ fetch_checked p s
  unfolding fetch_checked
  fetch_same p r s h = cc h

  own :
      (p : ContextProvider F) (r s : ContextRequest F)
      → same_key (cache_key request_identity p r) (cache_key request_identity p s)
        ≡ (request_identity r == request_identity s)
  own p r s =
      ground (arith, eq_iff p.provider_id p.provider_id, eq_iff p.source_version p.source_version)

  keep-IsServed :
      (p : ContextProvider F) (request : ContextRequest F) (cache : Cache F)
      (answer : Result (List (ContextDatum F)))
      → RespectsIdentity p
      → fetch_checked p request ≡ answer
      → IsServed cache p
      → IsServed (keep request_identity (cache_key request_identity p request) answer cache).1 p
  keep-IsServed p request cache (err failure) respects h served r kept e = served r kept e
  keep-IsServed p request cache (ok items) respects h served r kept e = ground (
    arith,
    own p request r,
    respects request r,
    fetch_same p request r,
    served r kept,
    eq_iff (request_identity request) (request_identity r),
  )

  -- What is kept for one provider is not found for another.
  keep_other :
      (p q : ContextProvider F) (request r : ContextRequest F) (cache : Cache F)
      (answer : Result (List (ContextDatum F)))
      → (q.provider_id == p.provider_id) ≡ false
      → lookup
          (cache_key request_identity q r)
          (keep request_identity (cache_key request_identity p request) answer cache).1
        ≡ lookup (cache_key request_identity q r) cache
  keep_other p q request r cache (err e) h = refl
  keep_other p q request r cache (ok items) h =
      ground (arith, eq_iff p.provider_id q.provider_id, eq_iff q.provider_id p.provider_id)

  recalled :
      (p : ContextProvider F) (request : ContextRequest F) (cache : Cache F)
      (found : Option (List (ContextDatum F)))
      → lookup (cache_key request_identity p request) cache ≡ found
      → RespectsIdentity p
      → IsServed cache p
      → ((recall request_identity p request found cache).0 ≡ fetch_checked p request)
        × IsServed (recall request_identity p request found cache).1 p
  recalled p request cache (some items) h respects served = (sym (served request items h), served)
  recalled p request cache none h respects served = (
    kept (fetch_checked p request),
    keep-IsServed p request cache (fetch_checked p request) respects refl served,
  )
    where
      kept :
          (answer : Result (List (ContextDatum F)))
          → (keep request_identity (cache_key request_identity p request) answer cache).0 ≡ answer
      kept (err failure) = refl
      kept (ok items) = refl

  -- A cache that serves a provider gives its answer, and then serves it still.
  pub obtain-IsServed :
      (p : ContextProvider F) (request : ContextRequest F) (cache : Cache F)
      → RespectsIdentity p
      → IsServed cache p
      → ((obtain request_identity p request cache).0 ≡ fetch_checked p request)
        × IsServed (obtain request_identity p request cache).1 p
  unfolding obtain
  obtain-IsServed p request cache =
      recalled p request cache (lookup (cache_key request_identity p request) cache) refl

  pub obtain_other :
      (p q : ContextProvider F) (request r : ContextRequest F) (cache : Cache F)
      → (q.provider_id == p.provider_id) ≡ false
      → lookup (cache_key request_identity q r) (obtain request_identity p request cache).1
        ≡ lookup (cache_key request_identity q r) cache
  unfolding obtain
  obtain_other p q request r cache h = other (lookup (cache_key request_identity p request) cache)
    where
      other :
          (found : Option (List (ContextDatum F)))
          → lookup
              (cache_key request_identity q r)
              (recall request_identity p request found cache).1
            ≡ lookup (cache_key request_identity q r) cache
      other none = keep_other p q request r cache (fetch_checked p request) h
      other (some items) = refl
