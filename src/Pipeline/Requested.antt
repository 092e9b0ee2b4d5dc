-- ===== src/Pipeline/Requested.antt =====
-- The request for context that the pipeline makes of its agents' declarations is always a valid one.
use mathlib.Core.Path.{subst}
use the_council.Prelude.{◌≡◌, refl, ℕ, true, none, List, [], ◌∷◌, String, eqb_iff, arith}
use the_council.Floats.{Float}
use the_council.Result.{ok, >>=-eq-ok, ok-injective}
use the_council.Schemas.Market.{MarketSnapshot}
use the_council.Context.Capabilities.{
  Capabilities, no_capabilities, price_history, only, minus, union, meet, is_none, absent-is_none,
  minus-minus, alike-same, ContextCapability,
}
use the_council.Context.Models.{
  ContextRequest, MarketContext, available_in, validate_market_context, validate_context_request,
}
use the_council.Context.Dispatch.{
  ContextAgent, requested_from, required_capabilities, optional_capabilities,
  requested_capabilities,
}
use the_council.Pipeline.Contextual.{context_request, bare_context, market_context}

-- Prices are required, and nothing is both required and optional.
abbrev IsDisjoint : Capabilities × Capabilities → Type 0
IsDisjoint (required, optional) =
    (required price_history ≡ true) × (is_none (meet required optional) ≡ true)

module _ {F : Type 0} where
  requested_from-IsDisjoint :
      (required optional : Capabilities) (agents : List (ContextAgent F))
      (requested : Capabilities × Capabilities)
      → required price_history ≡ true
      → requested_from required optional agents ≡ ok requested
      → IsDisjoint requested
  requested_from-IsDisjoint required optional [] (r, o) p h =
      subst IsDisjoint (ok-injective h)
        (p, absent-is_none (meet required (minus optional required)) (λ c. ground arith))
  requested_from-IsDisjoint required optional (a ∷ agents) requested p h =
      let (more_required, _, rest) = >>=-eq-ok (required_capabilities a) _ h in
      let (more_optional, _, last) = >>=-eq-ok (optional_capabilities a) _ rest in
      requested_from-IsDisjoint (union required more_required) (union optional more_optional) agents
        requested (ground arith) last

module _ {F : Type 0} ⦃f : Float F⦄ (symbol timeframe : String) (evaluated : ℕ) where
  context_request_valid :
      (agents : List (ContextAgent F)) (requested : Capabilities × Capabilities)
      → requested_capabilities agents ≡ ok requested
      → validate_context_request (context_request {F = F} symbol timeframe evaluated requested)
        ≡ ok (context_request symbol timeframe evaluated requested)
  unfolding requested_capabilities validate_context_request
  context_request_valid agents requested h =
      let (prices, disjoint) =
        requested_from-IsDisjoint (only price_history) no_capabilities agents requested refl h in
      ground (arith, prices, disjoint)

  bare_context_valid :
      (context_identity : MarketContext F → String) (snapshot : MarketSnapshot F)
      (request : ContextRequest F)
      → snapshot.as_of ≡ request.as_of
      → validate_market_context context_identity (bare_context snapshot request)
        ≡ ok (record (bare_context snapshot request) {
          context_id = context_identity (bare_context snapshot request);
        })
  unfolding validate_market_context available_in
  bare_context_valid context_identity snapshot request clock = ground (
    arith,
    eqb_iff snapshot.as_of request.as_of,
    minus-minus request.required (only price_history),
    minus-minus request.optional (only price_history),
    alike-same (minus request.required (only price_history))
        (minus request.required (available_in {F = F} [])) (λ c. ground arith),
    alike-same (minus request.optional (only price_history))
        (minus request.optional (available_in {F = F} [])) (λ c. ground arith),
  )

  -- If every agent's declarations are well formed, then the pipeline's own request passes its validator,
  -- whatever is declared; and a pipeline without a context service has a context for each snapshot of its
  -- evaluation time, in which exactly what is not the price history is missing.
  pub market_context-eq-ok :
      (context_identity : MarketContext F → String) (request_identity : ContextRequest F → String)
      (agents : List (ContextAgent F)) (required optional : Capabilities)
      (snapshot : MarketSnapshot F)
      → requested_capabilities agents ≡ ok (required, optional)
      → snapshot.as_of ≡ evaluated
      → (validate_context_request
            (context_request {F = F} symbol timeframe evaluated (required, optional))
          ≡ ok (context_request symbol timeframe evaluated (required, optional)))
        × ((c : MarketContext F) × (market_context context_identity request_identity symbol
                timeframe evaluated none agents snapshot
              ≡ ok c)
            × (c.snapshot ≡ snapshot)
            × ((a : ContextCapability)
                → c.missing_required a ≡ minus required (only price_history) a)
            × ((a : ContextCapability)
                → c.missing_optional a ≡ minus optional (only price_history) a))
  unfolding market_context
  market_context-eq-ok context_identity request_identity agents required optional snapshot h clock =
      let valid = context_request_valid agents (required, optional) h in
      let request = context_request {F = F} symbol timeframe evaluated (required, optional) in
      (
        valid,
        (
          record (bare_context snapshot request) {
            context_id = context_identity (bare_context snapshot request);
          },
          rw (h, valid) (bare_context_valid context_identity snapshot request clock),
          refl,
          (λ a. refl),
          (λ a. refl),
        ),
      )
