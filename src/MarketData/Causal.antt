-- ===== src/MarketData/Causal.antt =====
-- What the in-memory providers return does not depend on bars that were not yet available.
use the_council.Datetime.{aware}
use the_council.Floats.{Float}
use the_council.MarketData.Models.{ProviderId, HistoricalRequest}
use the_council.Prelude.{
  arith, ℕ, ◌≤◌, ◌≡◌, refl, Bool, true, ◌&&◌, List, [], ◌∷◌, leb, select, String,
}
use the_council.Schemas.Market.{MarketBar}
use the_council.MarketData.InMemory.{
  is_available, in_range, select_bars, InMemoryHistoricalProvider, fetch_historical,
  historical_snapshot,
}

select_and :
    {A : Type 0} (p q : A → Bool) (xs : List A)
    → select (λ x. p x && q x) xs ≡ select p (select q xs)
select_and p q [] = refl
select_and p q (x ∷ xs) = ground (arith, select_and p q xs)

select-select :
    {A : Type 0} (p q : A → Bool) (xs : List A)
    → ((x : A) → p x ≡ true → q x ≡ true)
    → select p xs ≡ select p (select q xs)
select-select p q [] h = refl
select-select p q (x ∷ xs) h = ground (arith, select-select p q xs h, h x)

module _ {F : Type 0} where
  -- Bars that were available by an earlier time are among those available by a later one.
  pub available_earlier :
      (early late : ℕ) (bars others : List (MarketBar F))
      → early ≤ late
      → select (is_available late) bars ≡ select (is_available late) others
      → select (is_available early) bars ≡ select (is_available early) others
  available_earlier early late bars others h e =
      let below : (b : MarketBar F)
          → leb b.available_at early ≡ true
          → leb b.available_at late ≡ true =
        λ b k. ground arith in
      cc (
        select-select (is_available early) (is_available late) bars below,
        select-select (is_available early) (is_available late) others below,
        e,
      )

  select_bars_lem :
      (request : HistoricalRequest) (bars others : List (MarketBar F))
      → select (is_available request.as_of) bars ≡ select (is_available request.as_of) others
      → select_bars request bars ≡ select_bars request others
  unfolding select_bars
  select_bars_lem request bars others e = cc (
    select_and (in_range request) (is_available request.as_of) bars,
    select_and (in_range request) (is_available request.as_of) others,
    e,
  )

module _ {F : Type 0} ⦃f : Float F⦄ (historical_cache_key : ProviderId → HistoricalRequest → String)
    (self : InMemoryHistoricalProvider F) (others : List (MarketBar F)) where
  -- A history is the same whatever the provider holds of bars that were available only after `as_of`.
  pub fetch_causal :
      (request : HistoricalRequest)
      → select (is_available request.as_of) self.bars ≡ select (is_available request.as_of) others
      → fetch_historical historical_cache_key self request
        ≡ fetch_historical historical_cache_key (record self { bars = others }) request
  unfolding fetch_historical
  fetch_causal request e = rw (select_bars_lem request self.bars others e)

  -- So is a snapshot.
  pub snapshot_causal :
      (matches : String → Bool) (digest : String → String → ℕ → List (MarketBar F) → String)
      (symbol timeframe : String) (cutoff : ℕ)
      → select (is_available cutoff) self.bars ≡ select (is_available cutoff) others
      → historical_snapshot matches digest self symbol timeframe (aware cutoff)
        ≡ historical_snapshot matches digest
            (record self { bars = others })
            symbol
            timeframe
            (aware cutoff)
  unfolding historical_snapshot
  snapshot_causal matches digest symbol timeframe cutoff e = rw e
