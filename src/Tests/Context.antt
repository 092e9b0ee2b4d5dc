-- ===== src/Tests/Context.antt =====
-- A service with two providers, a request, and agents that declare what they need.
use the_council.Datetime.{span_of, add_time}
use the_council.Council.Aggregator.{is_vote, validate_signal_source}
use the_council.Context.Consulted.{analyze_with_context-Abstains}
use the_council.Pipeline.Requested.{market_context-eq-ok}
use the_council.Pipeline.Contextual.{context_request, market_context}
use the_council.Context.Kept.{IsServed}
use the_council.Prelude.{◌≡◌, refl, ℕ, true, false, none, List, [], ◌∷◌, String, All, length, arith}
use the_council.Prelude.Int.{ℤ}
use the_council.Floats.Fixed.{fixed_float, fixed-IsIeee}
use the_council.Result.{Result, ok, err}
use the_council.Stateful.{◌>>=◌, lift}
use the_council.Schemas.Enums.{alpha, is_abstain}
use the_council.Schemas.Signal.{AgentSignal}
use the_council.Agents.{warmup_bars, timeframe_delta}
use the_council.Context.Capabilities.{
  ContextCapability, macro_indicators, market_breadth, price_history, Capabilities, only, union,
  is_none, same_capabilities, minus, no_capabilities,
}
use the_council.Context.Models.{
  Json, ContextDatum, ContextRequest, MarketContext, available_in, validate_market_context,
  validate_context_request,
}
use the_council.Context.Providers.{
  ContextProvider, fetch_checked, check_request, enriched_context, collect_data_directly,
  enrich_directly,
}
use the_council.Context.Service.{collect_data, obtain, enrich}
use the_council.Context.Cached.{enrich-IsDirect}
use the_council.Context.Causal.{enrich-IsContextFor, IsContextFor}
use the_council.Context.Dispatch.{
  ContextAgent, declared, undeclared, required_capabilities, optional_capabilities,
  analyze_with_context, requested_capabilities,
}
use the_council.Tests.Data.{snapshot, signal_of}

abbrev datum_of : String → ContextCapability → ContextDatum ℤ
datum_of provider capability = record {
  capability = capability;
  instrument = "BTC/USD";
  name = "reading";
  value = Json.text "high";
  unit = "word";
  provenance = record {
    provider = provider;
    source_id = "series";
    observed_at = 1000;
    period_start = none;
    period_end = none;
    published_at = none;
    provider_available_at = 2000;
    ingested_at = 2000;
    vintage = "first";
    revision = none;
    source_version = "1";
  };
}

abbrev provider_of : String → ContextCapability → ContextProvider ℤ
provider_of name capability = record {
  provider_id = name;
  source_version = "1";
  capabilities = only capability;
  fetch = λ r. ok (datum_of name capability ∷ []);
}

abbrev providers : List (ContextProvider ℤ)
providers = provider_of "macro" macro_indicators ∷ provider_of "breadth" market_breadth ∷ []

-- Two providers under one name, which the constructor lets pass.
abbrev namesakes : List (ContextProvider ℤ)
namesakes = provider_of "feed" macro_indicators ∷ provider_of "feed" market_breadth ∷ []

abbrev request : ContextRequest ℤ
request = record {
  instrument = "BTC/USD";
  timeframe = "1h";
  as_of = 3000;
  required = only price_history;
  optional = union (only macro_indicators) (only market_breadth);
  configuration = [];
}

abbrev request_identity : ContextRequest ℤ → String
request_identity r = r.instrument

abbrev context_identity : MarketContext ℤ → String
context_identity c = "context"

abbrev count : Result (MarketContext ℤ) → ℕ
count (err e) = 0
count (ok c) = length c.data_items

-- Each provider gives one datum; of namesakes the second is never asked, since it finds the first one's
-- answer in the cache.
unfoldable counting : Unit {0}
unfolding span_of add_time enrich enrich_directly check_request collect_data collect_data_directly
    obtain fetch_checked enriched_context validate_market_context available_in is_none
    same_capabilities ◌>>=◌ lift
counting = tt

test_counts :
    (count (enrich request_identity context_identity providers snapshot request []).0 ≡ 2)
    × (count (enrich request_identity context_identity namesakes snapshot request []).0 ≡ 1)
    × (count (enrich_directly context_identity namesakes snapshot request) ≡ 2)
unfolding counting
test_counts = (refl, refl, refl)

enrich-IsDirect_example :
    ((enrich request_identity context_identity providers snapshot request []).0
      ≡ enrich_directly context_identity providers snapshot request)
    × All
        (IsServed request_identity
          (enrich request_identity context_identity providers snapshot request []).1)
        providers
enrich-IsDirect_example =
    enrich-IsDirect request_identity context_identity providers snapshot request [] refl
      (λ r s h. refl, (λ r s h. refl, tt)) (λ r items h. cc h, (λ r items h. cc h, tt))

-- The context with both data.
abbrev enriched : MarketContext ℤ
enriched =
    record (enriched_context snapshot request
      (datum_of "macro" macro_indicators ∷ datum_of "breadth" market_breadth ∷ [])) {
        context_id = "context";
      }

enrich-IsContextFor_example : IsContextFor context_identity snapshot request enriched
unfolding counting
enrich-IsContextFor_example =
    enrich-IsContextFor context_identity request_identity providers snapshot request [] enriched
      refl

abbrev agent : ContextAgent ℤ
agent = record {
  agent = record {
    agent_id = "macro_trend";
    agent_version = "1";
    signal_type = alpha;
    warmup_days = none;
    declared_bars = 20;
    analyze = λ s c. ok (signal_of "macro_trend");
  };
  required_context_capabilities = declared (only macro_indicators);
  optional_context_capabilities = undeclared;
}

-- A context with prices only.
abbrev lacking : MarketContext ℤ
lacking = enriched_context snapshot request []

analyze_with_context-Abstains_example :
    (s : AgentSignal ℤ) × (analyze_with_context
        (λ missing. "missing")
        agent
        lacking
        (record { run_id = "run"; parameters = [] })
      ≡ ok s)
    × (is_abstain s.action ≡ true)
    × (is_vote s ≡ false)
    × (validate_signal_source lacking.snapshot s ≡ ok tt)
unfolding enriched_context required_capabilities optional_capabilities available_in is_none
    warmup_bars timeframe_delta span_of
analyze_with_context-Abstains_example =
    analyze_with_context-Abstains (λ missing. "missing") agent lacking
      (record { run_id = "run"; parameters = [] })
      (union (only macro_indicators) (only price_history))
      (minus no_capabilities (union (only macro_indicators) (only price_history))) 20 3_600_000_000
      fixed-IsIeee (record { agent = refl; snapshot = refl })
      (record {
        clock = refl;
        known = tt;
        asked = tt;
        lacks_required = λ a. refl;
        lacks_optional = λ a. refl;
        identities = refl;
      })
      refl refl refl refl refl (omega arith)

-- What the one agent makes the pipeline ask for.
abbrev required_sum : Capabilities
required_sum = union (only price_history) (union (only macro_indicators) (only price_history))

abbrev optional_sum : Capabilities
optional_sum =
    minus
      (union no_capabilities
        (minus no_capabilities (union (only macro_indicators) (only price_history))))
      required_sum

market_context-eq-ok_example :
    (validate_context_request
        (context_request {F = ℤ} "BTC/USD" "1h" 3000 (required_sum, optional_sum))
      ≡ ok (context_request "BTC/USD" "1h" 3000 (required_sum, optional_sum)))
    × ((c : MarketContext ℤ) × (market_context context_identity request_identity "BTC/USD" "1h" 3000
            none
            (agent ∷ [])
            snapshot
          ≡ ok c)
        × (c.snapshot ≡ snapshot)
        × ((a : ContextCapability)
            → c.missing_required a ≡ minus required_sum (only price_history) a)
        × ((a : ContextCapability)
            → c.missing_optional a ≡ minus optional_sum (only price_history) a))
unfolding requested_capabilities required_capabilities optional_capabilities
market_context-eq-ok_example =
    market_context-eq-ok "BTC/USD" "1h" 3000 context_identity request_identity (agent ∷ [])
      required_sum optional_sum snapshot refl refl
