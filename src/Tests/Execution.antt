-- ===== src/Tests/Execution.antt =====
-- The paper adapter on the small market.
use the_council.Result.{ok}
use the_council.Schemas.Enums.{filled, buy}
use the_council.Prelude.{
  ◌≤◌, ◌≡◌, refl, true, false, List, [], ◌∷◌, has_unique_texts, mem_text, All, some, inl, inr,
}
use the_council.Prelude.Int.{ℤ}
use the_council.Floats.{isclose}
use the_council.Floats.Fixed.{fixed_float}
use the_council.Datetime.{aware}
use the_council.Dict.{get, put, pop}
use the_council.Trading.{adverse_slippage, strictly_reduces}
use the_council.Schemas.Order.{
  ExecutionReport, validate_execution, validate_equity, validate_position,
}
use the_council.Execution.Paper.{build_state}
use the_council.Execution.Marking.{mark_candidate, mark_to_market}
use the_council.Execution.Filling.{
  rejection_reason, reject, fill_price, fill_fee, candidate_cash, new_quantity, candidate_positions,
  average_entry, pricing_rejection, fill_report, commit_fill, execute,
}
use the_council.Execution.Atomic.{Outcome, execute_atomic, IsFill}
use the_council.Execution.Marked.{MarkOutcome, mark_to_market_atomic}
use the_council.Execution.Trace.{
  Request, mark, submit, ids, serve, run, run_fills_once, run_monotone,
}
use the_council.Tests.Data.{num, account, order, opening, mark_of}

-- All that a run of the adapter computes with.
unfoldable pub filling : Unit {0}
unfolding execute rejection_reason reject pricing_rejection commit_fill fill_report fill_price
    fill_fee candidate_cash new_quantity candidate_positions average_entry build_state get put pop
    adverse_slippage strictly_reduces validate_execution validate_equity validate_position isclose
    mark_to_market mark_candidate
filling = tt

-- A half bought at 100.05 with a fee of 10 basis points.
filled_once : (execute account order opening (aware 3500)).1.cash ≡ num 949_924_975 6
unfolding filling
filled_once = refl

duplicate_rejected :
    (execute (record account { processed = "auth" ∷ [] }) order opening (aware 3500)).1.processed
    ≡ "auth" ∷ []
unfolding filling
duplicate_rejected = refl

execute_atomic_example :
    Outcome account order opening 3500 (execute account order opening (aware 3500))
execute_atomic_example = execute_atomic account order opening (aware 3500)

mark_to_market_atomic_example :
    MarkOutcome account
      (mark_of 3400 ∷ [])
      3600
      (mark_to_market account (mark_of 3400 ∷ []) (aware 3600))
mark_to_market_atomic_example = mark_to_market_atomic account (mark_of 3400 ∷ []) (aware 3600)

-- The order is filled, marked, and submitted again in vain.
abbrev requests : List (Request ℤ)
requests =
    submit order opening (aware 3500)
    ∷ mark (mark_of 4500 ∷ []) (aware 5000)
    ∷ submit order (record opening { bar_opened_at = 6000; observed_at = 6000 }) (aware 5500)
    ∷ []

requests_fill_once : ids (run account requests).1 ≡ "auth" ∷ []
unfolding filling run serve
requests_fill_once = refl

requests_end : (run account requests).0.valued_at ≡ 5000
unfolding filling run serve
requests_end = refl

run_fills_once_example :
    (has_unique_texts (ids (run account requests).1) ≡ true)
    × All
        (λ (r : ExecutionReport ℤ). mem_text r.authorization_id [] ≡ false)
        (run account requests).1
run_fills_once_example = run_fills_once account requests

run_monotone_example :
    (3000 ≤ (run account requests).0.valued_at)
    × (mem_text "auth" [] ≡ true → mem_text "auth" (run account requests).0.processed ≡ true)
run_monotone_example = run_monotone account requests "auth"

abbrev pub report : ExecutionReport ℤ
report = record {
  authorization_id = "auth";
  status = filled;
  symbol = "BTC/USD";
  side = buy;
  quantity = num 5 1;
  submitted_at = 3500;
  filled_at = some 4000;
  fill_price = some (num 10_005 2);
  fee = num 50_025 6;
  slippage_bps = num 5 0;
  message = "paper fill at causally valid next-bar open";
}

reported : (execute account order opening (aware 3500)).0 ≡ ok report
unfolding filling
reported = refl

pub sample-IsFill :
    IsFill account order opening 3500 report (execute account order opening (aware 3500)).1
unfolding filling
sample-IsFill = elim (execute_atomic account order opening (aware 3500)) [
  | inl (s, e) ↦ absurd (cc)
  | inr (s, fill) ↦ fill
]
