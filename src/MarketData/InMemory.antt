-- ===== src/MarketData/InMemory.antt =====
-- The providers of market_data/in_memory.py. `matches` and `digest` are those of a snapshot.
use the_council.Prelude.{
  ℕ, Bool, ◌&&◌, none, some, List, String, ◌==◌, ltb, leb, select, is_empty, Option, [], ◌∷◌,
  if◌then◌else◌,
}
use the_council.Floats.{Float}
use the_council.Datetime.{Datetime, utc}
use the_council.Result.{
  Result, ◌>>=◌, ◌>>◌, guard, refuse, of_option, unsupported_market, no_snapshot, no_completed_bars,
}
use the_council.Schemas.Market.{MarketBar, MarketSnapshot, validate_snapshot}
use the_council.MarketData.Models.{
  ProviderId, in_memory, Timeframe, Instrument, HistoricalRequest, HistoricalBars, asset_value,
  timeframe_value, symbol_of, duration, validate_result,
}
use the_council.MarketData.Quality.{normalize_and_assess}

pub record InMemoryHistoricalProvider (F : Type 0) : Type 0 where
  pub instrument : Instrument
  pub timeframe : Timeframe
  pub bars : List (MarketBar F)
  pub fetched_at : ℕ

abbrev pub in_memory_version : String
in_memory_version = "in-memory-v1"

module _ {F : Type 0} where
  abbrev pub is_available : ℕ → MarketBar F → Bool
  is_available as_of bar = leb bar.available_at as_of

  abbrev pub in_range : HistoricalRequest → MarketBar F → Bool
  in_range request bar = leb request.start bar.opened_at && ltb bar.opened_at request.end

  unfoldable pub select_bars : HistoricalRequest → List (MarketBar F) → List (MarketBar F)
  select_bars request = select (λ bar. in_range request bar && is_available request.as_of bar)

-- `InMemoryMarketDataProvider.snapshots`, a dictionary by symbol and timeframe.
abbrev pub Snapshots : Type 0 → Type 0
Snapshots F = List (String × String × MarketSnapshot F)

abbrev pub find_snapshot : {F : Type 0} → String → String → Snapshots F → Option (MarketSnapshot F)
find_snapshot symbol timeframe [] = none
find_snapshot symbol timeframe ((s, t, snapshot) ∷ snapshots) =
    let rest = find_snapshot symbol timeframe snapshots in
    if s == symbol && t == timeframe then some snapshot else rest

module _ {F : Type 0} (matches : String → Bool)
    (digest : String → String → ℕ → List (MarketBar F) → String) where
  -- The bars that are complete by a cutoff, as a snapshot; both providers end with it.
  abbrev pub snapshot_at : String → String → List (MarketBar F) → ℕ → Result (MarketSnapshot F)
  snapshot_at symbol timeframe source cutoff = do
    let bars = select (is_available cutoff) source
    refuse (is_empty bars) no_completed_bars
    validate_snapshot matches digest (record {
      symbol = symbol;
      timeframe = timeframe;
      as_of = cutoff;
      observed_at = cutoff;
      bars = bars;
      provenance = none;
      snapshot_id = "";
    })

  -- `InMemoryMarketDataProvider.snapshot`.
  unfoldable pub provider_snapshot :
      Snapshots F → String → String → Datetime → Result (MarketSnapshot F)
  provider_snapshot snapshots symbol timeframe as_of = do
    cutoff ← utc as_of
    source ← of_option no_snapshot (find_snapshot symbol timeframe snapshots)
    snapshot_at symbol timeframe source.bars cutoff

  -- `InMemoryHistoricalProvider.snapshot`.
  unfoldable pub historical_snapshot :
      InMemoryHistoricalProvider F → String → String → Datetime → Result (MarketSnapshot F)
  historical_snapshot self symbol timeframe as_of = do
    guard (symbol == symbol_of self.instrument && timeframe == timeframe_value self.timeframe)
        no_snapshot
    cutoff ← utc as_of
    snapshot_at symbol timeframe self.bars cutoff

module _ {F : Type 0} ⦃f : Float F⦄
    (historical_cache_key : ProviderId → HistoricalRequest → String) where
  -- `InMemoryHistoricalProvider.fetch_historical`.
  unfoldable pub fetch_historical :
      InMemoryHistoricalProvider F → HistoricalRequest → Result (HistoricalBars F)
  fetch_historical self request = do
    guard
        (asset_value request.instrument.base == asset_value self.instrument.base
          && asset_value request.instrument.quote == asset_value self.instrument.quote
          && timeframe_value request.timeframe == timeframe_value self.timeframe)
        unsupported_market
    (normalized, quality) ←
        normalize_and_assess (select_bars request self.bars) (duration request.timeframe) none
          (some request.start) (some request.end)
    validate_result historical_cache_key (record {
      provider = in_memory;
      request = request;
      fetched_at = self.fetched_at;
      bars = normalized;
      quality = quality;
      source_version = in_memory_version;
      adapter_semantic_version = "1";
      cache_key = "";
    })
