-- ===== src/Execution/Marked.antt =====
-- What marking to market writes, and that it writes nothing when it raises.
use the_council.Prelude.{
  has_unique_texts, is_empty, ℕ, ◌≤◌, ◌≡◌, refl, ap, true, some, List, [], ◌∷◌, String, ◌==◌, arith,
  map, find?, ltb, Option-cases, inl, inr,
}
use mathlib.Core.Path.{subst}
use the_council.Prelude.Sort.{sort_by}
use the_council.Floats.{Float}
use the_council.Result.{
  Result, ok, err, >>=-eq-ok, ok-injective, guard-eq-ok, refuse, guard, mark_before_state,
  duplicate_marks, missing_marks, traverse,
}
use the_council.Datetime.{Datetime, naive, aware, instant}
use the_council.Dict.{Dict}
use the_council.Schemas.Market.{PriceObservation}
use the_council.Schemas.Order.{PortfolioState}
use the_council.Execution.Paper.{PaperPosition, Account, Method, attempt, build_state}
use the_council.Execution.Marking.{missing_symbols, mark_position, mark_candidate, mark_to_market}
use the_council.Execution.State.{valued_at-build_state}

module _ {F : Type 0} where
  -- The position `e` after marking is `e'`: its mark is an observation of its symbol, made in time.
  abbrev pub IsMarked :
      List (PriceObservation F) → ℕ → String × PaperPosition F → String × PaperPosition F → Type 0
  IsMarked observations valued e e' =
      (o : PriceObservation F) × (find? (λ o. o.symbol == e.0) observations ≡ some o)
      × (o.observed_at ≤ valued)
      × (e' ≡ (e.0, record e.1 { mark_price = o.price; mark_observed_at = o.observed_at }))

  abbrev pub AreMarked :
      List (PriceObservation F) → ℕ → Dict (PaperPosition F) → Dict (PaperPosition F) → Type 0
  AreMarked observations valued [] [] = Unit
  AreMarked observations valued [] (e' ∷ d') = ⊥
  AreMarked observations valued (e ∷ d) [] = ⊥
  AreMarked observations valued (e ∷ d) (e' ∷ d') =
      IsMarked observations valued e e' × AreMarked observations valued d d'

  mark_position-IsMarked :
      (observations : List (PriceObservation F)) (valued : ℕ) (e e' : String × PaperPosition F)
      → mark_position observations valued e ≡ ok e'
      → IsMarked observations valued e e'
  mark_position-IsMarked observations valued (k, p) e' h =
      elim (Option-cases (find? (λ o. o.symbol == k) observations)) [
        | inl n ↦ absurd (ground arith)
        | inr (o, s) ↦ (o, s, ground arith, ground arith)
      ]

  traverse-AreMarked :
      (observations : List (PriceObservation F)) (valued : ℕ) (d d' : Dict (PaperPosition F))
      → traverse (mark_position observations valued) d ≡ ok d'
      → AreMarked observations valued d d'
  traverse-AreMarked observations valued [] [] h = tt
  traverse-AreMarked observations valued [] (e' ∷ d') h = cc
  traverse-AreMarked observations valued (e ∷ d) d' h =
      let (e', he, rest) = >>=-eq-ok (mark_position observations valued e) _ h in
      let (d'', hd, last) = >>=-eq-ok (traverse (mark_position observations valued) d) _ rest in
      subst (AreMarked observations valued (e ∷ d)) (ok-injective last) (
        mark_position-IsMarked observations valued e e' he,
        traverse-AreMarked observations valued d d'' hd,
      )

module _ {F : Type 0} ⦃f : Float F⦄ where
  -- What marking did, told of the account before and after.
  pub record IsMark (account : Account F) (observations : List (PriceObservation F)) (valued : ℕ)
      (state : PortfolioState F) (after : Account F) : Type 0 where
    pub clock : account.valued_at ≤ valued
    pub unique : has_unique_texts (map (λ (o : PriceObservation F). o.symbol) observations) ≡ true
    pub marked : AreMarked observations valued account.positions after.positions
    pub viewed : build_state after.cash after.positions valued ≡ ok state
    pub valued_at : after.valued_at ≡ valued
    pub cash : after.cash ≡ account.cash
    pub processed : after.processed ≡ account.processed

  abbrev pub MarkOutcome :
      Account F → List (PriceObservation F) → ℕ → Method F (PortfolioState F) → Type 0
  MarkOutcome account observations valued (err e, after) = after ≡ account
  MarkOutcome account observations valued (ok s, after) = IsMark account observations valued s after

  module _ (account : Account F) (observations : List (PriceObservation F)) where
    mark_candidate-eq-ok :
        (valued : ℕ) (candidate : Dict (PaperPosition F)) (s : PortfolioState F)
        → mark_candidate account observations valued ≡ ok (candidate, s)
        → (account.valued_at ≤ valued)
          × (has_unique_texts (map (λ (o : PriceObservation F). o.symbol) observations) ≡ true)
          × (traverse (mark_position observations valued) account.positions ≡ ok candidate)
          × (build_state account.cash candidate valued ≡ ok s)
    unfolding mark_candidate
    mark_candidate-eq-ok valued candidate s h =
        let (_, g, h1) = >>=-eq-ok (refuse (ltb valued account.valued_at) mark_before_state) _ h in
        let (_, u, h2) =
          >>=-eq-ok
            (guard (has_unique_texts (map (λ (o : PriceObservation F). o.symbol) observations))
              duplicate_marks)
            _ h1 in
        let missing = missing_symbols account observations in
        let (_, _, h3) =
          >>=-eq-ok (guard (is_empty missing) (missing_marks (sort_by (λ k. k) missing))) _ h2 in
        let (d, t, h4) =
          >>=-eq-ok (traverse (mark_position observations valued) account.positions) _ h3 in
        let (s', b, h5) = >>=-eq-ok (build_state account.cash d valued) _ h4 in
        let e = ok-injective h5 in
        (
          ground arith,
          guard-eq-ok _ _ _ u,
          rw t (ap (λ x. ok x.0) e),
          subst (λ x. build_state account.cash x.0 valued ≡ ok x.1) e b,
        )

    -- Marking is atomic too. If it raises, the account is as before. If not, its time is the one that
    -- was asked for and not earlier than before, every position carries an observation of its symbol
    -- that was made by then, quantities, entry prices, cash and the processed authorizations are as
    -- before, and the state that is returned is the view of the account that is left.
    pub mark_to_market_atomic :
        (valued_at : Datetime)
        → MarkOutcome account observations
            (instant valued_at)
            (mark_to_market account observations valued_at)
    unfolding mark_to_market
    mark_to_market_atomic (naive t) = refl
    mark_to_market_atomic (aware t) = go (mark_candidate account observations t) refl
      where
        go :
            (m : Result (Dict (PaperPosition F) × PortfolioState F))
            → mark_candidate account observations t ≡ m
            → MarkOutcome account observations t (
                attempt account m λ (candidate, state).
                  (ok state, record account { positions = candidate; valued_at = state.valued_at }))
        go (err e) h = refl
        go (ok (candidate, s)) h =
            let (clock, unique, loop, built) = mark_candidate-eq-ok t candidate s h in
            record {
              clock = clock;
              unique = unique;
              marked = traverse-AreMarked observations t account.positions candidate loop;
              viewed = built;
              valued_at = valued_at-build_state _ _ _ s built;
              cash = refl;
              processed = refl;
            }
