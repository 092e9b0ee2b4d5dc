-- ===== src/Execution/Atomic.antt =====
-- `execute` and `mark_to_market` write all of the account's fields that they change, or none.
use the_council.Prelude.{
  mem_text, ap, ℕ, ◌≤◌, ◌≡◌, ◌⊎◌, inl, inr, refl, true, false, Option, none, some, ◌∷◌, String,
  eq_iff, arith,
}
use the_council.Floats.{Float}
use the_council.Result.{Result, ok, err}
use the_council.Datetime.{Datetime, naive, aware, instant}
use the_council.Trading.{adverse_slippage}
use the_council.Schemas.Enums.{filled, rejected}
use the_council.Schemas.Market.{OpeningPriceObservation}
use the_council.Schemas.Order.{PortfolioState, ApprovedOrder, ExecutionReport}
use the_council.Execution.Paper.{Account, Method, attempt, build_state}
use the_council.Execution.Filling.{
  rejection_reason, reject, reject_or, pricing_rejection, commit_fill, execute, fill_report,
  fill_price, fill_fee, candidate_cash, candidate_positions,
}
use the_council.Execution.State.{validate_execution-eq-ok, valued_at-build_state}

module _ {F : Type 0} ⦃f : Float F⦄ where
  -- What a fill did, told of the account before and after.
  pub record IsFill (account : Account F) (order : ApprovedOrder F)
      (opening : OpeningPriceObservation F) (submitted : ℕ) (report : ExecutionReport F)
      (after : Account F) : Type 0 where
    pub is_new : mem_text order.authorization_id account.processed ≡ false
    pub is_paper : order.paper_only ≡ true
    pub same_symbol : order.symbol ≡ opening.symbol
    pub same_timeframe : order.timeframe ≡ opening.timeframe
    pub authorized : order.authorized_at ≤ submitted
    pub causal : submitted ≤ opening.bar_opened_at
    pub seen_at_open : opening.observed_at ≡ opening.bar_opened_at
    pub not_early : order.earliest_fill_at ≤ opening.bar_opened_at
    pub not_late : opening.bar_opened_at ≤ order.expires_at
    pub not_before_state : account.valued_at ≤ opening.bar_opened_at
    pub accepted : pricing_rejection account order opening ≡ none
    pub reported : fill_report account order opening submitted ≡ ok report
    pub cash : after.cash ≡ candidate_cash account order opening
    pub positions : after.positions ≡ candidate_positions account order opening
    pub valued_at : after.valued_at ≡ opening.bar_opened_at
    pub processed : after.processed ≡ order.authorization_id ∷ account.processed
    pub slippage_bps : after.slippage_bps ≡ account.slippage_bps
    pub fee_bps : after.fee_bps ≡ account.fee_bps

  module _ (account : Account F) (order : ApprovedOrder F)
      (opening : OpeningPriceObservation F) where
    pub rejection-eq-none :
        (submitted : ℕ)
        → rejection_reason account order opening submitted ≡ none
        → (mem_text order.authorization_id account.processed ≡ false)
          × (order.paper_only ≡ true)
          × (order.symbol ≡ opening.symbol)
          × (order.timeframe ≡ opening.timeframe)
          × (order.authorized_at ≤ submitted)
          × (submitted ≤ opening.bar_opened_at)
          × (opening.observed_at ≡ opening.bar_opened_at)
          × (order.earliest_fill_at ≤ opening.bar_opened_at)
          × (opening.bar_opened_at ≤ order.expires_at)
          × (account.valued_at ≤ opening.bar_opened_at)
    unfolding rejection_reason
    rejection-eq-none submitted h =
        ground (arith, eq_iff order.symbol opening.symbol, eq_iff order.timeframe opening.timeframe)

    status-reject :
        (submitted : ℕ) (message : String) (r : ExecutionReport F)
        → reject order submitted message ≡ ok r
        → r.status ≡ rejected
    unfolding reject
    status-reject submitted message r h = cc (validate_execution-eq-ok _ r h)

    status-fill_report :
        (submitted : ℕ) (r : ExecutionReport F)
        → fill_report account order opening submitted ≡ ok r
        → r.status ≡ filled
    unfolding fill_report
    status-fill_report submitted r h = cc (validate_execution-eq-ok _ r h)

    abbrev pub Outcome : ℕ → Method F (ExecutionReport F) → Type 0
    Outcome submitted (err e, after) = after ≡ account
    Outcome submitted (ok r, after) =
        ((r.status ≡ rejected) × (after ≡ account))
        ⊎ ((r.status ≡ filled) × IsFill account order opening submitted r after)

    reject-Outcome :
        (submitted : ℕ) (message : String)
        → Outcome submitted (reject order submitted message, account)
    reject-Outcome submitted message = go (reject order submitted message) refl
      where
        go :
            (m : Result (ExecutionReport F))
            → reject order submitted message ≡ m
            → Outcome submitted (m, account)
        go (err e) h = refl
        go (ok r) h = inl (status-reject submitted message r h, refl)

    commit_fill-Outcome :
        (submitted : ℕ)
        → rejection_reason account order opening submitted ≡ none
        → pricing_rejection account order opening ≡ none
        → Outcome submitted (commit_fill account order opening submitted)
    unfolding commit_fill
    commit_fill-Outcome submitted h p =
        go
          (build_state (candidate_cash account order opening)
            (candidate_positions account order opening) opening.bar_opened_at)
          refl (fill_report account order opening submitted) refl
      where
        go :
            (s : Result (PortfolioState F))
            → build_state
                (candidate_cash account order opening)
                (candidate_positions account order opening)
                opening.bar_opened_at
              ≡ s
            → (r : Result (ExecutionReport F)) → fill_report account order opening submitted ≡ r
            → Outcome submitted (
                attempt account s λ state. attempt account r λ report. (
                  ok report,
                  record account {
                    cash = candidate_cash account order opening;
                    positions = candidate_positions account order opening;
                    valued_at = state.valued_at;
                    processed = order.authorization_id ∷ account.processed;
                  },
                ))
        go (err e) hs r hr = refl
        go (ok s) hs (err e) hr = refl
        go (ok s) hs (ok r) hr =
            let timed = valued_at-build_state _ _ _ s hs in
            let (new, paper, symbol, frame, auth, causal, seen, early, late, state) =
              rejection-eq-none submitted h in
            inr (
              status-fill_report submitted r hr,
              record {
                is_new = new;
                is_paper = paper;
                same_symbol = symbol;
                same_timeframe = frame;
                authorized = auth;
                causal = causal;
                seen_at_open = seen;
                not_early = early;
                not_late = late;
                not_before_state = state;
                accepted = p;
                reported = hr;
                cash = refl;
                positions = refl;
                valued_at = timed;
                processed = refl;
                slippage_bps = refl;
                fee_bps = refl;
              },
            )

    execute-Outcome :
        (submitted : ℕ) → Outcome submitted (execute account order opening (aware submitted))
    unfolding execute
    execute-Outcome submitted =
        go (rejection_reason account order opening submitted) refl
          (pricing_rejection account order opening) refl
      where
        go :
            (a : Option String)
            → rejection_reason account order opening submitted ≡ a
            → (b : Option String) → pricing_rejection account order opening ≡ b
            → Outcome submitted (
                reject_or account order opening submitted a (
                  reject_or account order opening submitted b
                    (commit_fill account order opening submitted)))
        go (some m) ha b hb = reject-Outcome submitted m
        go none ha (some m) hb = reject-Outcome submitted m
        go none ha none hb = commit_fill-Outcome submitted ha hb

    -- The terms that the report of a fill repeats.
    pub fill_report_terms :
        (submitted : ℕ) (r : ExecutionReport F)
        → fill_report account order opening submitted ≡ ok r
        → (r.authorization_id ≡ order.authorization_id)
          × (r.symbol ≡ order.symbol)
          × (r.side ≡ order.side)
          × (r.quantity ≡ order.quantity)
          × (r.submitted_at ≡ submitted)
          × (r.filled_at ≡ some opening.bar_opened_at)
          × (r.fill_price ≡ some (fill_price account order opening))
          × (r.fee ≡ fill_fee account order opening)
          × (r.slippage_bps
              ≡ adverse_slippage order.side
                  (fill_price account order opening)
                  order.reference_price)
    unfolding fill_report
    fill_report_terms submitted r h =
        let e = validate_execution-eq-ok _ r h in
        (
          ap (λ q. q.authorization_id) e,
          ap (λ q. q.symbol) e,
          ap (λ q. q.side) e,
          ap (λ q. q.quantity) e,
          ap (λ q. q.submitted_at) e,
          ap (λ q. q.filled_at) e,
          ap (λ q. q.fill_price) e,
          ap (λ q. q.fee) e,
          ap (λ q. q.slippage_bps) e,
        )

    -- `execute` is atomic. If it raises or returns a report that is not a fill, the account is as
    -- before. If the report is a fill, the order was new, for paper, of the market of the opening
    -- price, submitted between its authorization and the bar's open, and the bar opened inside the
    -- order's window and not before the account's time; the account then has just the candidate cash
    -- and positions, the time of the open, and the authorization marked as processed.
    pub execute_atomic :
        (submitted_at : Datetime)
        → Outcome (instant submitted_at) (execute account order opening submitted_at)
    execute_atomic (naive t) = unfold execute in refl
    execute_atomic (aware t) = execute-Outcome t
