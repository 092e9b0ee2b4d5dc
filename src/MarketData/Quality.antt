-- ===== src/MarketData/Quality.antt =====
-- market_data/quality.py: sorting, deduplication and assessment of bars. `int(a / b)` of two durations
-- is the whole quotient, as it is in Python for spans of up to 285 years.
use the_council.Prelude.{
  ℕ, ◌+◌, ◌-◌, ◌/◌, ◌%◌, Bool, true, false, ◌&&◌, not, if◌then◌else◌, Option, none, some, List, [],
  ◌∷◌, ◌++◌, map, length, find?, get_last?, ltb, leb, eqb,
}
use the_council.Prelude.Numbers.{same_numbers, sort_at, sum_numbers}
use the_council.Floats.{Float, ◌=?◌}
use the_council.Result.{
  Result, ok, err, ◌>>=◌, ◌>>◌, guard, conflicting_duplicate, candle_duration, candles_overlap,
  range_together, invalid_field,
}
use the_council.Schemas.Market.{MarketBar}
use the_council.MarketData.Models.{DataGap, DataQualityReport}

-- The bars of `by_open`, in the order of insertion, and the duplicates that were dropped.
abbrev pub Kept : Type 0 → Type 0
Kept F = List (MarketBar F) × ℕ

unfoldable pub validate_gap : DataGap → Result DataGap
validate_gap gap = guard (ltb 0 gap.missing_intervals) invalid_field >> ok gap

-- `divmod(request_end - request_start, timeframe.duration)`. A range that ends before it starts has
-- a negative quotient, which the report's field refuses.
unfoldable pub expected_of : ℕ → Option (ℕ × ℕ) → ℕ × ℕ
expected_of duration none = (0, 0)
expected_of duration (some (start, end)) = ((end - start) / duration, (end - start) % duration)

-- `request_start` and `request_end`, given together or not at all.
abbrev pub range_of : Option ℕ → Option ℕ → Result (Option (ℕ × ℕ))
range_of none none = ok none
range_of (some start) (some end) = ok (some (start, end))
range_of _ _ = err range_together

abbrev is_given : Option (ℕ × ℕ) → Bool
is_given none = false
is_given (some range) = true

abbrev pub is_forward : Option (ℕ × ℕ) → Bool
is_forward none = true
is_forward (some (start, end)) = leb start end

abbrev pub missing_of : List DataGap → ℕ
missing_of gaps = sum_numbers (map (λ gap. gap.missing_intervals) gaps)

module _ {F : Type 0} where
  abbrev pub opens : List (MarketBar F) → List ℕ
  opens = map (λ bar. bar.opened_at)

  module _ (duration : ℕ) where
    abbrev gap_of : MarketBar F → MarketBar F → DataGap
    gap_of previous current = record {
      after = previous.closed_at;
      before = current.opened_at;
      missing_intervals = (current.opened_at - previous.opened_at) / duration - 1;
    }

    -- The gap between neighbours, of which the first opens before the second.
    unfoldable pub gap_between : MarketBar F → MarketBar F → Result (List DataGap)
    gap_between previous current =
        let delta = current.opened_at - previous.opened_at in
        if ltb duration delta
        then (do gap ← validate_gap (gap_of previous current); ok (gap ∷ []))
        else if ltb delta duration
        then err candles_overlap
        else ok []

    unfoldable pub find_gaps : List (MarketBar F) → Result (List DataGap)
    find_gaps [] = ok []
    find_gaps (a ∷ []) = ok []
    find_gaps (a ∷ b ∷ bars) = do
      gap ← gap_between a b
      later ← find_gaps (b ∷ bars)
      ok (gap ++ later)

    unfoldable pub leading_of : Option (ℕ × ℕ) → List (MarketBar F) → ℕ
    leading_of none ordered = 0
    leading_of (some range) [] = (expected_of duration (some range)).0
    leading_of (some (start, end)) (bar ∷ bars) = (bar.opened_at - start) / duration

    abbrev trailing_after : ℕ → Option (MarketBar F) → ℕ
    trailing_after end none = 0
    trailing_after end (some last) = (end - last.closed_at) / duration

    unfoldable pub trailing_of : Option (ℕ × ℕ) → List (MarketBar F) → ℕ
    trailing_of none ordered = 0
    trailing_of (some (start, end)) ordered = trailing_after end (get_last? ordered)

  abbrev rows_of : Option ℕ → List (MarketBar F) → ℕ
  rows_of none supplied = length supplied
  rows_of (some n) supplied = n

  unfoldable pub is_complete : ℕ → Option (ℕ × ℕ) → List (MarketBar F) → List DataGap → Bool
  is_complete duration range ordered gaps =
      is_given range
      && eqb (expected_of duration range).1 0
      && eqb (length ordered) (expected_of duration range).0
      && eqb (leading_of duration range ordered) 0
      && eqb (trailing_of duration range ordered) 0
      && eqb (missing_of gaps) 0

  unfoldable pub assess :
      ℕ
      → Option ℕ
      → List (MarketBar F)
      → List (MarketBar F)
      → ℕ
      → List DataGap
      → Option (ℕ × ℕ)
      → Result DataQualityReport
  assess duration input_rows supplied ordered duplicates gaps range = do
    guard (is_forward range) invalid_field
    ok (record {
      input_rows = rows_of input_rows supplied;
      output_rows = length ordered;
      duplicate_rows_removed = duplicates;
      input_was_out_of_order =
          not (same_numbers (opens supplied) (opens (sort_at (λ bar. bar.opened_at) supplied)));
      gaps = gaps;
      expected_intervals = (expected_of duration range).0;
      leading_missing_intervals = leading_of duration range ordered;
      trailing_missing_intervals = trailing_of duration range ordered;
      coverage_complete = is_complete duration range ordered gaps;
    })

module _ {F : Type 0} ⦃f : Float F⦄ where
  unfoldable pub same_bar : MarketBar F → MarketBar F → Bool
  same_bar a b =
      eqb a.opened_at b.opened_at
      && eqb a.closed_at b.closed_at
      && eqb a.available_at b.available_at
      && (a.open_price =? b.open_price)
      && (a.high =? b.high)
      && (a.low =? b.low)
      && (a.close =? b.close)
      && (a.volume =? b.volume)

  abbrev pub keep_against : ℕ → Kept F → MarketBar F → Option (MarketBar F) → Result (Kept F)
  keep_against duration (kept, duplicates) bar (some previous) = do
    guard (same_bar previous bar) conflicting_duplicate
    ok (kept, duplicates + 1)
  keep_against duration (kept, duplicates) bar none = do
    guard (eqb bar.closed_at (bar.opened_at + duration)) candle_duration
    ok (kept ++ bar ∷ [], duplicates)

  -- One bar of the loop that fills `by_open`.
  unfoldable pub keep : ℕ → Kept F → MarketBar F → Result (Kept F)
  keep duration (kept, duplicates) bar =
      keep_against duration (kept, duplicates) bar (find? (λ k. eqb k.opened_at bar.opened_at) kept)

  unfoldable pub keep_all : ℕ → Kept F → List (MarketBar F) → Result (Kept F)
  keep_all duration state [] = ok state
  keep_all duration state (bar ∷ bars) =
      keep duration state bar >>= λ next. keep_all duration next bars

  unfoldable pub normalize_and_assess :
      List (MarketBar F)
      → ℕ
      → Option ℕ
      → Option ℕ
      → Option ℕ
      → Result (List (MarketBar F) × DataQualityReport)
  normalize_and_assess supplied duration input_rows request_start request_end = do
    (kept, duplicates) ← keep_all duration ([], 0) supplied
    let ordered = sort_at (λ bar. bar.opened_at) kept
    gaps ← find_gaps duration ordered
    range ← range_of request_start request_end
    report ← assess duration input_rows supplied ordered duplicates gaps range
    ok (ordered, report)
