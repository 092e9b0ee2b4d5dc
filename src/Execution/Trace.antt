-- ===== src/Execution/Trace.antt =====
-- The adapter under any sequence of calls.
use the_council.Prelude.{
  mem_text, has_unique_texts, ℕ, ◌≤◌, ◌≡◌, ◌⊎◌, inl, inr, refl, true, false, if◌then◌else◌, List,
  [], ◌∷◌, ◌++◌, String, eq_iff, arith, map, All,
}
use mathlib.Core.Path.{subst}
use the_council.Floats.{Float}
use the_council.Result.{Result, ok, err}
use the_council.Datetime.{Datetime, instant}
use the_council.Schemas.Enums.{is_filled}
use the_council.Schemas.Market.{OpeningPriceObservation, PriceObservation}
use the_council.Schemas.Order.{PortfolioState, ApprovedOrder, ExecutionReport}
use the_council.Execution.Paper.{Account, Method}
use the_council.Execution.Marking.{mark_to_market}
use the_council.Execution.Filling.{execute}
use the_council.Execution.Marked.{MarkOutcome, mark_to_market_atomic}
use the_council.Execution.Atomic.{Outcome, execute_atomic, fill_report_terms}

pub data Request (F : Type 0) : Type 0 where
  mark : List (PriceObservation F) → Datetime → Request F
  submit : ApprovedOrder F → OpeningPriceObservation F → Datetime → Request F

-- The fill among what a call returned, if it is one.
abbrev pub fills : {F : Type 0} → Result (ExecutionReport F) → List (ExecutionReport F)
fills (err e) = []
fills (ok r) = if is_filled r.status then r ∷ [] else []

abbrev pub ids : {F : Type 0} → List (ExecutionReport F) → List String
ids = map (λ r. r.authorization_id)

module _ {F : Type 0} ⦃f : Float F⦄ where
  unfoldable pub serve : Account F → Request F → Account F × List (ExecutionReport F)
  serve account (mark observations t) = ((mark_to_market account observations t).1, [])
  serve account (submit order opening t) =
      let (r, after) = execute account order opening t in (after, fills r)

  unfoldable pub run : Account F → List (Request F) → Account F × List (ExecutionReport F)
  run account [] = (account, [])
  run account (request ∷ requests) =
      let (next, now) = serve account request in
      let (last, later) = run next requests in (last, now ++ later)

  -- What one call does to the memory of the adapter and to its clock.
  record Advances (account : Account F) (after : Account F) (now : List (ExecutionReport F))
      : Type 0 where
    clock : account.valued_at ≤ after.valued_at
    memory :
        ((now ≡ []) × (after.processed ≡ account.processed))
        ⊎ ((r : ExecutionReport F) × (now ≡ r ∷ [])
            × (mem_text r.authorization_id account.processed ≡ false)
            × (after.processed ≡ r.authorization_id ∷ account.processed))

  execute-Advances :
      (account : Account F) (order : ApprovedOrder F) (opening : OpeningPriceObservation F) (t : ℕ)
      (m : Method F (ExecutionReport F))
      → Outcome account order opening t m
      → Advances account m.1 (fills m.0)
  execute-Advances account order opening t (err e, after) h = ground arith
  execute-Advances account order opening t (ok r, after) (inl (s, e)) = ground arith
  execute-Advances account order opening t (ok r, after) (inr (s, fill)) =
      let terms = fill_report_terms account order opening t r fill.reported in
      record { clock = ground arith; memory = inr (r, ground arith, ground arith, ground arith) }

  mark-Advances :
      (account : Account F) (observations : List (PriceObservation F)) (t : Datetime)
      → Advances account (mark_to_market account observations t).1 []
  mark-Advances account observations t =
      go (mark_to_market account observations t) (mark_to_market_atomic account observations t)
    where
      go :
          (m : Method F (PortfolioState F))
          → MarkOutcome account observations (instant t) m
          → Advances account m.1 []
      go (err e, after) h = ground arith
      go (ok s, after) h = ground arith

  serve-Advances :
      (account : Account F) (request : Request F)
      → let (after, now) = serve account request in Advances account after now
  unfolding serve
  serve-Advances account (mark observations t) = mark-Advances account observations t
  serve-Advances account (submit order opening t) =
      execute-Advances account order opening (instant t) (execute account order opening t)
        (execute_atomic account order opening t)

  abbrev AreNew : List String → List (ExecutionReport F) → Type 0
  AreNew processed = All (λ r. mem_text r.authorization_id processed ≡ false)

  AreNew-tail :
      (a : String) (processed : List String) (rs : List (ExecutionReport F))
      → AreNew (a ∷ processed) rs
      → AreNew processed rs
  AreNew-tail a processed [] h = tt
  AreNew-tail a processed (r ∷ rs) (h, hs) = (ground arith, AreNew-tail a processed rs hs)

  not-mem-ids :
      (a : String) (processed : List String) (rs : List (ExecutionReport F))
      → AreNew (a ∷ processed) rs
      → mem_text a (ids rs) ≡ false
  not-mem-ids a processed [] h = refl
  not-mem-ids a processed (r ∷ rs) (h, hs) = ground (
    arith,
    eq_iff a r.authorization_id,
    eq_iff r.authorization_id a,
    not-mem-ids a processed rs hs,
  )

  abbrev AreFresh : List String → List (ExecutionReport F) → Type 0
  AreFresh processed rs = AreNew processed rs × (has_unique_texts (ids rs) ≡ true)

  AreFresh-append :
      (processed before : List String) (now later : List (ExecutionReport F))
      → ((now ≡ []) × (processed ≡ before))
        ⊎ ((r : ExecutionReport F) × (now ≡ r ∷ [])
            × (mem_text r.authorization_id before ≡ false)
            × (processed ≡ r.authorization_id ∷ before))
      → AreFresh processed later
      → AreFresh before (now ++ later)
  AreFresh-append processed before [] later (inl (e, p)) fresh =
      subst (λ ps. AreFresh ps later) p fresh
  AreFresh-append processed before (x ∷ now) later (inl (e, p)) fresh = absurd (cc)
  AreFresh-append processed before [] later (inr (r, e, m, p)) fresh = absurd (cc)
  AreFresh-append processed before (x ∷ y ∷ now) later (inr (r, e, m, p)) fresh = absurd (cc)
  AreFresh-append processed before (x ∷ []) later (inr (r, e, m, p)) fresh =
      let same : x ≡ r = ground arith in
      let new = subst (λ ps. AreNew ps later) p fresh.0 in
      (
        (rw same m, AreNew-tail r.authorization_id before later new),
        rw (same, not-mem-ids r.authorization_id before later new) fresh.1,
      )

  run_fresh :
      (account : Account F) (requests : List (Request F))
      → AreNew account.processed (run account requests).1
        × (has_unique_texts (ids (run account requests).1) ≡ true)
  unfolding run
  run_fresh account [] = (tt, refl)
  run_fresh account (request ∷ requests) =
      let (next, now) = serve account request in
      AreFresh-append next.processed account.processed now (run next requests).1
        (serve-Advances account request).memory (run_fresh next requests)

  -- Whatever calls an adapter serves, in whatever order, no authorization is filled twice, and none
  -- that was processed before is filled again.
  pub run_fills_once :
      (account : Account F) (requests : List (Request F))
      → (has_unique_texts (ids (run account requests).1) ≡ true)
        × All
            (λ (r : ExecutionReport F). mem_text r.authorization_id account.processed ≡ false)
            (run account requests).1
  run_fills_once account requests = let (new, unique) = run_fresh account requests in (unique, new)

  -- An adapter's clock never runs back, and what it has processed stays processed.
  pub run_monotone :
      (account : Account F) (requests : List (Request F)) (a : String)
      → let last = (run account requests).0 in
        (account.valued_at ≤ last.valued_at)
        × (mem_text a account.processed ≡ true → mem_text a last.processed ≡ true)
  unfolding run
  run_monotone account [] a = ground arith
  run_monotone account (request ∷ requests) a =
      let (next, now) = serve account request in
      let step = serve-Advances account request in
      let rest = run_monotone next requests a in
      (omega (arith, step.clock, rest.0), λ h. rest.1 (remembers step.memory h))
    where
      remembers :
          {now : List (ExecutionReport F)} {before after : List String}
          → ((now ≡ []) × (after ≡ before))
            ⊎ ((r : ExecutionReport F) × (now ≡ r ∷ [])
                × (mem_text r.authorization_id before ≡ false)
                × (after ≡ r.authorization_id ∷ before))
          → mem_text a before ≡ true
          → mem_text a after ≡ true
      remembers (inl (e, p)) h = rw p h
      remembers (inr (r, e, m, p)) h = rw p (ground arith)
