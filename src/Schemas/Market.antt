-- ===== src/Schemas/Market.antt =====
-- Bars, snapshots and price observations of schemas.py. Times are instants: the field validators
-- have run `_utc` on them. SHA-256 of the rendered fields is the parameter `digest`.
use the_council.Prelude.{
  ℕ, Bool, true, false, ◌&&◌, ◌||◌, not, Option, none, some, List, [], ◌∷◌, String, ◌==◌, ltb, leb,
  eqb, all, is_empty, get_last?,
}
use the_council.Floats.{Float, fmax, fmin, ◌<?◌, positive_finite, nonneg_finite, opt_all}
use the_council.Result.{
  Result, ok, ◌>>=◌, ◌>>◌, guard, refuse, of_option, index_error, invalid_field, invalid_bar,
  bar_closes_before_open, bar_available_before_close, timeframe_format, symbol_required, no_bars,
  bars_not_chronological, bar_unavailable, bars_overlap, observed_before_cutoff,
  observed_before_newest, provenance_identity, provenance_as_of, provenance_observation,
  provenance_availability, snapshot_id_mismatch, opening_before_open, volatility_status,
}
use the_council.Schemas.Enums.{
  VolatilityEstimator, VolatilityUnits, ObservationStatus, was_observed,
}

pub record MarketBar (F : Type 0) : Type 0 where
  pub opened_at : ℕ
  pub closed_at : ℕ
  pub available_at : ℕ
  pub open_price : F
  pub high : F
  pub low : F
  pub close : F
  pub volume : F

pub record SnapshotProvenance : Type 0 where
  pub provider : String
  pub instrument : String
  pub timeframe : String
  pub requested_start : ℕ
  pub requested_end : ℕ
  pub as_of : ℕ
  pub fetched_at : ℕ
  pub latest_observation_time : ℕ
  pub latest_available_at : ℕ
  pub source_version : String
  pub adapter_semantic_version : String
  pub coverage_complete : Bool
  pub cache_key : String

pub record MarketSnapshot (F : Type 0) : Type 0 where
  pub symbol : String
  pub timeframe : String
  pub as_of : ℕ
  pub observed_at : ℕ
  pub bars : List (MarketBar F)
  pub provenance : Option SnapshotProvenance
  pub snapshot_id : String

pub record PriceObservation (F : Type 0) : Type 0 where
  pub symbol : String
  pub price : F
  pub observed_at : ℕ
  pub source_snapshot_id : String

pub record OpeningPriceObservation (F : Type 0) : Type 0 where
  pub symbol : String
  pub timeframe : String
  pub price : F
  pub bar_opened_at : ℕ
  pub observed_at : ℕ

pub record VolatilityObservation (F : Type 0) : Type 0 where
  pub estimator : VolatilityEstimator
  pub window_bars : ℕ
  pub units : VolatilityUnits
  pub observed_at : ℕ
  pub source_snapshot_id : String
  pub status : ObservationStatus
  pub value : Option F

abbrev pub is_some {ℓ} : {A : Type ℓ} → Option A → Bool
is_some none = false
is_some (some a) = true

abbrev pub same : Bool → Bool → Bool
same true b = b
same false b = not b

module _ {F : Type 0} where
  -- `self.bars[-1]`, on which `last_price` and the `latest_` properties stand.
  unfoldable pub newest_bar : MarketSnapshot F → Result (MarketBar F)
  newest_bar s = of_option index_error (get_last? s.bars)

  -- Bars in the order of (opened_at, closed_at), each pair once: the test
  -- `intervals == sorted(intervals)` with `len(set(intervals)) == len(intervals)`.
  abbrev pub is_chronological : List (MarketBar F) → Bool
  is_chronological [] = true
  is_chronological (a ∷ []) = true
  is_chronological (a ∷ b ∷ bars) =
      (ltb a.opened_at b.opened_at || eqb a.opened_at b.opened_at && ltb a.closed_at b.closed_at)
      && is_chronological (b ∷ bars)

  abbrev pub has_overlap : List (MarketBar F) → Bool
  has_overlap [] = false
  has_overlap (a ∷ []) = false
  has_overlap (a ∷ b ∷ bars) = ltb b.opened_at a.closed_at || has_overlap (b ∷ bars)

  abbrev pub check_provenance :
      MarketSnapshot F → MarketBar F → Option SnapshotProvenance → Result (Unit {0})
  check_provenance s newest none = ok tt
  check_provenance s newest (some p) = do
    guard (p.instrument == s.symbol && p.timeframe == s.timeframe) provenance_identity
    guard (eqb p.as_of s.as_of) provenance_as_of
    guard (eqb p.latest_observation_time newest.closed_at) provenance_observation
    guard (eqb p.latest_available_at newest.available_at) provenance_availability

  -- `re.fullmatch("[1-9][0-9]*[mhd]", timeframe)` is `matches`.
  unfoldable pub validate_snapshot :
      (matches : String → Bool) (digest : String → String → ℕ → List (MarketBar F) → String)
      → MarketSnapshot F
      → Result (MarketSnapshot F)
  validate_snapshot matches digest s = do
    guard (matches s.timeframe) timeframe_format
    guard (not (s.symbol == "") && not (s.timeframe == "")) symbol_required
    refuse (is_empty s.bars) no_bars
    guard (is_chronological s.bars) bars_not_chronological
    guard (all (λ b. leb b.available_at s.as_of) s.bars) bar_unavailable
    refuse (has_overlap s.bars) bars_overlap
    refuse (ltb s.observed_at s.as_of) observed_before_cutoff
    newest ← newest_bar s
    refuse (ltb s.observed_at newest.available_at) observed_before_newest
    check_provenance s newest s.provenance
    let expected = digest s.symbol s.timeframe s.as_of s.bars
    guard (s.snapshot_id == "" || s.snapshot_id == expected) snapshot_id_mismatch
    ok (record s { snapshot_id = expected })

module _ {F : Type 0} ⦃f : Float F⦄ where
  unfoldable pub validate_bar : MarketBar F → Result (MarketBar F)
  validate_bar b = do
    guard
        (positive_finite b.open_price
          && positive_finite b.high
          && positive_finite b.low
          && positive_finite b.close
          && nonneg_finite b.volume)
        invalid_field
    refuse (leb b.closed_at b.opened_at) bar_closes_before_open
    refuse (ltb b.available_at b.closed_at) bar_available_before_close
    refuse (b.high <? fmax b.open_price b.close || fmin b.open_price b.close <? b.low) invalid_bar
    refuse (b.high <? b.low) invalid_bar
    ok b

  unfoldable pub validate_observation :
      OpeningPriceObservation F → Result (OpeningPriceObservation F)
  validate_observation o = do
    guard (positive_finite o.price) invalid_field
    refuse (ltb o.observed_at o.bar_opened_at) opening_before_open
    ok o

  unfoldable pub validate_volatility : VolatilityObservation F → Result (VolatilityObservation F)
  validate_volatility v = do
    guard (ltb 1 v.window_bars && opt_all nonneg_finite v.value) invalid_field
    guard (same (was_observed v.status) (is_some v.value)) volatility_status
    ok v
