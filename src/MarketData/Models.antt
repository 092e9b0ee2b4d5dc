-- ===== src/MarketData/Models.antt =====
-- Identities, requests and results of market_data/models.py. A time is in microseconds of UTC, and so is
-- the duration of a timeframe. The SHA-256 of a request is the parameter `historical_cache_key`.
use the_council.Prelude.{ℕ, Bool, true, ◌&&◌, ◌||◌, List, String, ◌==◌, leb, ltb, eqb, any}
use Prim.Native.String.{[], ◌∷◌, ◌++◌}
use Prim.Native.Char.{code}
use the_council.Datetime.{microseconds}
use the_council.Result.{
  Result, ok, ◌>>◌, guard, refuse, same_assets, base_asset, quote_asset, range_end,
  market_identifier, unavailable_at_as_of, outside_range, history_not_chronological,
  cache_key_mismatch,
}
use the_council.Schemas.Market.{MarketBar, is_chronological}

pub data ProviderId : Type 0 where
  freqtrade kraken in_memory : ProviderId

pub data Asset : Type 0 where
  btc eth usd usdt : Asset

pub data Timeframe : Type 0 where
  minute_1 minute_5 minute_15 hour_1 hour_4 day_1 : Timeframe

abbrev pub provider_value : ProviderId → String
provider_value freqtrade = "freqtrade"
provider_value kraken = "kraken"
provider_value in_memory = "in_memory"

abbrev pub asset_value : Asset → String
asset_value btc = "BTC"
asset_value eth = "ETH"
asset_value usd = "USD"
asset_value usdt = "USDT"

abbrev pub timeframe_value : Timeframe → String
timeframe_value minute_1 = "1m"
timeframe_value minute_5 = "5m"
timeframe_value minute_15 = "15m"
timeframe_value hour_1 = "1h"
timeframe_value hour_4 = "4h"
timeframe_value day_1 = "1d"

abbrev pub seconds_of : Timeframe → ℕ
seconds_of minute_1 = 60
seconds_of minute_5 = 300
seconds_of minute_15 = 900
seconds_of hour_1 = 3_600
seconds_of hour_4 = 14_400
seconds_of day_1 = 86_400

-- `Timeframe.duration`.
abbrev pub duration : Timeframe → ℕ
duration timeframe = microseconds (seconds_of timeframe)

pub record Instrument : Type 0 where
  pub base : Asset
  pub quote : Asset

abbrev is_base : Asset → Bool
is_base asset = any (λ a. asset_value a == asset_value asset) (List.◌∷◌ btc (List.◌∷◌ eth List.[]))

abbrev is_quote : Asset → Bool
is_quote asset =
    any (λ a. asset_value a == asset_value asset) (List.◌∷◌ usd (List.◌∷◌ usdt List.[]))

unfoldable pub validate_instrument : Instrument → Result Instrument
validate_instrument i = do
  refuse (asset_value i.base == asset_value i.quote) same_assets
  guard (is_base i.base) base_asset
  guard (is_quote i.quote) quote_asset
  ok i

-- `Instrument.symbol`.
abbrev pub symbol_of : Instrument → String
symbol_of i = asset_value i.base ++ ("/" ++ asset_value i.quote)

pub record HistoricalRequest : Type 0 where
  pub instrument : Instrument
  pub timeframe : Timeframe
  pub start : ℕ
  pub end : ℕ
  pub as_of : ℕ
  pub market : String

abbrev between : ℕ → ℕ → ℕ → Bool
between low high n = leb low n && leb n high

-- Letters, digits, `_` and `-`, by their code points.
abbrev is_safe : String → Bool
is_safe [] = true
is_safe (c ∷ s) =
    (between 97 122 (code c)
      || between 48 57 (code c)
      || between 95 95 (code c)
      || between 45 45 (code c))
    && is_safe s

unfoldable pub validate_request : HistoricalRequest → Result HistoricalRequest
validate_request r = do
  refuse (leb r.end r.start) range_end
  guard (is_safe r.market) market_identifier
  ok r

-- Requests are equal if all their fields are.
abbrev pub same_request : HistoricalRequest → HistoricalRequest → Bool
same_request a b =
    asset_value a.instrument.base == asset_value b.instrument.base
    && asset_value a.instrument.quote == asset_value b.instrument.quote
    && timeframe_value a.timeframe == timeframe_value b.timeframe
    && eqb a.start b.start
    && eqb a.end b.end
    && eqb a.as_of b.as_of
    && a.market == b.market

pub record DataGap : Type 0 where
  pub after : ℕ
  pub before : ℕ
  pub missing_intervals : ℕ

pub record DataQualityReport : Type 0 where
  pub input_rows : ℕ
  pub output_rows : ℕ
  pub duplicate_rows_removed : ℕ
  pub input_was_out_of_order : Bool
  pub gaps : List DataGap
  pub expected_intervals : ℕ
  pub leading_missing_intervals : ℕ
  pub trailing_missing_intervals : ℕ
  pub coverage_complete : Bool

pub record HistoricalBars (F : Type 0) : Type 0 where
  pub provider : ProviderId
  pub request : HistoricalRequest
  pub fetched_at : ℕ
  pub bars : List (MarketBar F)
  pub quality : DataQualityReport
  pub source_version : String
  pub adapter_semantic_version : String
  pub cache_key : String

module _ {F : Type 0} (historical_cache_key : ProviderId → HistoricalRequest → String) where
  unfoldable pub validate_result : HistoricalBars F → Result (HistoricalBars F)
  validate_result h = do
    refuse (any (λ bar. ltb h.request.as_of bar.available_at) h.bars) unavailable_at_as_of
    refuse
        (any (λ bar. ltb bar.opened_at h.request.start || leb h.request.end bar.opened_at) h.bars)
        outside_range
    guard (is_chronological h.bars) history_not_chronological
    let key = historical_cache_key h.provider h.request
    guard (h.cache_key == "" || h.cache_key == key) cache_key_mismatch
    ok (record h { cache_key = key })
