-- ===== src/Execution/Marking.antt =====
-- `PaperExecutionAdapter.mark_to_market`.
use the_council.Prelude.{
  mem_text, has_unique_texts, ℕ, not, List, String, ◌==◌, ltb, map, select, find?, is_empty,
}
use the_council.Prelude.Sort.{sort_by}
use the_council.Floats.{Float}
use the_council.Result.{
  Result, ok, ◌>>=◌, ◌>>◌, guard, refuse, traverse, of_option, lookup_error, mark_before_state,
  duplicate_marks, missing_marks, future_mark,
}
use the_council.Datetime.{Datetime, utc}
use the_council.Dict.{Dict, keys}
use the_council.Schemas.Market.{PriceObservation}
use the_council.Schemas.Order.{PortfolioState}
use the_council.Execution.Paper.{PaperPosition, Account, Method, attempt, build_state}

module _ {F : Type 0} where
  -- One round of the loop over the positions.
  abbrev pub mark_position :
      List (PriceObservation F) → ℕ → String × PaperPosition F → Result (String × PaperPosition F)
  mark_position observations valued_at (symbol, p) = do
    o ← of_option lookup_error (find? (λ o. o.symbol == symbol) observations)
    refuse (ltb valued_at o.observed_at) future_mark
    ok (symbol, record p { mark_price = o.price; mark_observed_at = o.observed_at })

-- `set(self._positions) - set(by_symbol)`.
abbrev pub missing_symbols : {F : Type 0} → Account F → List (PriceObservation F) → List String
missing_symbols account observations =
    select (λ k. not (mem_text k (map (λ o. o.symbol) observations))) (keys account.positions)

module _ {F : Type 0} ⦃f : Float F⦄ where
  -- What is computed before anything is written: the marked positions and the new state.
  unfoldable pub mark_candidate :
      Account F → List (PriceObservation F) → ℕ → Result (Dict (PaperPosition F) × PortfolioState F)
  mark_candidate account observations valued_at = do
    refuse (ltb valued_at account.valued_at) mark_before_state
    guard (has_unique_texts (map (λ o. o.symbol) observations)) duplicate_marks
    let missing = missing_symbols account observations
    guard (is_empty missing) (missing_marks (sort_by (λ k. k) missing))
    candidate ← traverse (mark_position observations valued_at) account.positions
    state ← build_state account.cash candidate valued_at
    ok (candidate, state)

  unfoldable pub mark_to_market :
      Account F → List (PriceObservation F) → Datetime → Method F (PortfolioState F)
  mark_to_market account observations valued_at = attempt account (utc valued_at) λ valued.
      attempt account (mark_candidate account observations valued) λ (candidate, state).
        (ok state, record account { positions = candidate; valued_at = state.valued_at })
