-- ===== src/Tests/MarketData.antt =====
-- Bars with a duplicate, out of order, and what the providers make of bars that come later.
use the_council.Prelude.{
  ℕ, ◌≡◌, refl, true, none, some, List, [], ◌∷◌, arith, Bool, false, ◌*◌, ◌+◌,
}
use the_council.Prelude.Int.{ℤ}
use the_council.Floats.Fixed.{fixed_float}
use the_council.Result.{Result, ok, err}
use the_council.Schemas.Market.{MarketBar}
use the_council.MarketData.Models.{btc, usd, hour_1, HistoricalRequest, DataQualityReport}
use the_council.MarketData.Quality.{
  normalize_and_assess, keep_all, keep, same_bar, find_gaps, gap_between, validate_gap, assess,
  is_complete, expected_of, leading_of, trailing_of,
}
use the_council.MarketData.InMemory.{fetch_historical}
use the_council.MarketData.Causal.{fetch_causal}
use the_council.MarketData.Coverage.{
  IsNormalized, IsCovered, normalize_and_assess-IsNormalized, complete-IsCovered,
}
use the_council.Tests.Experiments.{hour, hour_bar, provider_of}

unfoldable normalizing : Unit {0}
unfolding normalize_and_assess keep_all keep same_bar find_gaps gap_between validate_gap assess
    is_complete expected_of leading_of trailing_of
normalizing = tt

abbrev shuffled : List (MarketBar ℤ)
shuffled = hour_bar 2 102 ∷ hour_bar 1 101 ∷ hour_bar 2 102 ∷ []

abbrev ordered : List (MarketBar ℤ)
ordered = hour_bar 1 101 ∷ hour_bar 2 102 ∷ []

abbrev report : DataQualityReport
report = record {
  input_rows = 3;
  output_rows = 2;
  duplicate_rows_removed = 1;
  input_was_out_of_order = true;
  gaps = [];
  expected_intervals = 2;
  leading_missing_intervals = 0;
  trailing_missing_intervals = 0;
  coverage_complete = true;
}

normalized :
    normalize_and_assess shuffled hour none (some 3_600_000_000) (some 10_800_000_000)
    ≡ ok (ordered, report)
unfolding normalizing
normalized = refl

normalize_and_assess-IsNormalized_example : IsNormalized shuffled hour ordered report
normalize_and_assess-IsNormalized_example =
    normalize_and_assess-IsNormalized shuffled hour none (some 3_600_000_000) (some 10_800_000_000)
      ordered report (omega arith) normalized

complete-IsCovered_example : IsCovered hour (some 3_600_000_000) (some 10_800_000_000) ordered
complete-IsCovered_example =
    complete-IsCovered shuffled hour none (some 3_600_000_000) (some 10_800_000_000) ordered report
      (omega arith) normalized refl

abbrev asked : HistoricalRequest
asked = record {
  instrument = record { base = btc; quote = usd };
  timeframe = hour_1;
  start = 3_600_000_000;
  end = 10_800_000_000;
  as_of = 10_800_000_000;
  market = "";
}

fetch_causal_example :
    fetch_historical (λ _ _. "key") (provider_of (hour_bar 3 103 ∷ shuffled)) asked
    ≡ fetch_historical (λ _ _. "key") (provider_of shuffled) asked
fetch_causal_example =
    fetch_causal (λ _ _. "key") (provider_of (hour_bar 3 103 ∷ shuffled)) shuffled asked refl

-- Bars that are half an hour off the requested grid count as complete coverage, although the first
-- half hour is missing and the last bar ends after the range.
abbrev shifted : ℕ → MarketBar ℤ
shifted n = record (hour_bar n 100) {
  opened_at = n * hour + 1_800_000_000;
  closed_at = (n + 1) * hour + 1_800_000_000;
  available_at = (n + 1) * hour + 1_800_000_000;
}

abbrev is_called_complete : Result (List (MarketBar ℤ) × DataQualityReport) → Bool
is_called_complete (ok (bars, r)) = r.coverage_complete
is_called_complete (err e) = false

shifted_is_complete :
    is_called_complete (
      normalize_and_assess
        (shifted 1 ∷ shifted 2 ∷ [])
        hour
        none
        (some 3_600_000_000)
        (some 10_800_000_000))
    ≡ true
unfolding normalizing
shifted_is_complete = refl
