-- ===== src/Context/Providers.antt =====
-- context/providers.py, and the parts of context/service.py that need no cache: the checks on the providers
-- and on what they answer, and the context that is made of it.
use the_council.Prelude.{
  Bool, not, ◌&&◌, ◌||◌, if◌then◌else◌, Option, none, some, List, [], ◌∷◌, ◌++◌, String, ◌==◌, eqb,
  any, select,
}
use the_council.Prelude.Sort.{str_leb}
use the_council.Prelude.Sort.Ranked.{sort_ranked}
use the_council.Result.{
  Result, ok, err, ◌>>=◌, ◌>>◌, guard, refuse, provider_identity, provider_price_history,
  capability_claimed, request_mismatch, provider_failed, undeclared_capability,
  mismatched_provenance, mismatched_version,
}
use the_council.Schemas.Market.{MarketSnapshot}
use the_council.Context.Capabilities.{
  ContextCapability, price_history, capability_value, capabilities, is_capability, Capabilities,
  only, union, meet, minus, is_none,
}
use the_council.Context.Models.{
  ContextDatum, ContextRequest, MarketContext, available_in, validate_market_context,
}

pub record ContextProvider (F : Type 0) : Type 0 where
  pub provider_id : String
  pub source_version : String
  pub capabilities : Capabilities
  pub fetch : ContextRequest F → Result (List (ContextDatum F))

abbrev lexically : String → String → Bool → Bool
lexically s t rest = if s == t then rest else str_leb s t

-- Which provider has claimed a capability, and the loop over a provider's capabilities.
abbrev Claims : Type 0
Claims = ContextCapability → Option String

abbrev setdefault : Claims → ContextCapability → String → Option String → Result Claims
setdefault claims c provider none = ok (λ d. if is_capability c d then some provider else claims d)
setdefault claims c provider (some previous) =
    guard (previous == provider) capability_claimed >> ok claims

abbrev claim : String → Claims → List ContextCapability → Result Claims
claim provider claims [] = ok claims
claim provider claims (c ∷ cs) = do
  more ← setdefault claims c provider (claims c)
  claim provider more cs

-- Two answers as one.
abbrev pub joined : {A B C : Type 0} → (A → B → C) → Result A → Result B → Result C
joined k first second = do a ← first; b ← second; ok (k a b)

-- An answer that is asked for behind a test, and what is made of it.
abbrev pub guarded : {A B : Type 0} → Result (Unit {0}) → Result A → (A → Result B) → Result B
guarded test answer make = do test; a ← answer; make a

module _ {F : Type 0} where
  abbrev check_providers : Claims → List (ContextProvider F) → Result (Unit {0})
  check_providers claims [] = ok tt
  check_providers claims (p ∷ providers) = do
    refuse (p.provider_id == "" || p.source_version == "") provider_identity
    refuse (p.capabilities price_history) provider_price_history
    more ← claim p.provider_id claims (select p.capabilities capabilities)
    check_providers more providers

  -- `ContextService.__init__`; its cache is empty.
  unfoldable pub new_service : List (ContextProvider F) → Result (List (ContextProvider F))
  new_service providers = do check_providers (λ c. none) providers; ok providers

  abbrev answered : String → Result (List (ContextDatum F)) → Result (List (ContextDatum F))
  answered provider (err e) = err (provider_failed provider)
  answered provider (ok items) = ok items

  -- What a provider answers, with the checks on it.
  unfoldable pub fetch_checked :
      ContextProvider F → ContextRequest F → Result (List (ContextDatum F))
  fetch_checked p request = do
    fetched ← answered p.provider_id (p.fetch request)
    refuse (any (λ (d : ContextDatum F). not (p.capabilities d.capability)) fetched)
        (undeclared_capability p.provider_id)
    refuse (any (λ (d : ContextDatum F). not (d.provenance.provider == p.provider_id)) fetched)
        (mismatched_provenance p.provider_id)
    refuse
        (any (λ (d : ContextDatum F). not (d.provenance.source_version == p.source_version))
          fetched)
        (mismatched_version p.provider_id)
    ok fetched

  -- The key of `found.sort`.
  abbrev sorts_before : ContextDatum F → ContextDatum F → Bool
  sorts_before a b = lexically (capability_value a.capability) (capability_value b.capability) (
      lexically a.instrument b.instrument
        (lexically a.name b.name (str_leb a.provenance.source_id b.provenance.source_id)))

  -- What `enrich` makes of what it has found.
  unfoldable pub enriched_context :
      MarketSnapshot F → ContextRequest F → List (ContextDatum F) → MarketContext F
  enriched_context snapshot request found =
      let items = sort_ranked sorts_before found in
      record {
        snapshot = snapshot;
        as_of = request.as_of;
        data_items = items;
        requested_required = request.required;
        requested_optional = request.optional;
        missing_required = minus request.required (available_in items);
        missing_optional = minus request.optional (available_in items);
        context_id = "";
      }

  abbrev pub requested : ContextRequest F → Capabilities
  requested request = minus (union request.required request.optional) (only price_history)

  unfoldable pub check_request : MarketSnapshot F → ContextRequest F → Result (Unit {0})
  check_request snapshot request =
      guard
        (snapshot.symbol == request.instrument
          && snapshot.timeframe == request.timeframe
          && eqb snapshot.as_of request.as_of)
        request_mismatch

  -- The context without a cache: each provider is asked every time.
  unfoldable pub collect_data_directly :
      ContextRequest F → List (ContextProvider F) → Result (List (ContextDatum F))
  collect_data_directly request [] = ok []
  collect_data_directly request (p ∷ providers) =
      let rest = collect_data_directly request providers in
      let selected = meet (requested request) p.capabilities in
      if is_none selected
      then rest
      else joined
          (λ items found. select (λ (d : ContextDatum F). selected d.capability) items ++ found)
          (fetch_checked p request) rest

  unfoldable pub enrich_directly :
      (context_identity : MarketContext F → String)
      → List (ContextProvider F)
      → MarketSnapshot F
      → ContextRequest F
      → Result (MarketContext F)
  enrich_directly context_identity providers snapshot request =
      guarded (check_request snapshot request) (collect_data_directly request providers) (λ found.
        validate_market_context context_identity (enriched_context snapshot request found))
