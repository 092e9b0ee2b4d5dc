-- ===== src/Execution/State.antt =====
-- What `_build_state` and the checks of a report return when they do.
use the_council.Prelude.{ℕ, ◌≡◌, arith}
use the_council.Prelude.Sort.{sort_by}
use the_council.Floats.{Float}
use the_council.Result.{ok, >>=-eq-ok, traverse}
use the_council.Dict.{Dict}
use the_council.Schemas.Order.{
  PortfolioState, ExecutionReport, validate_equity, validate_execution, validate_position,
}
use the_council.Execution.Paper.{PaperPosition, build_state, public_position}

module _ {F : Type 0} ⦃f : Float F⦄ where
  pub validate_equity-eq-ok : (s t : PortfolioState F) → validate_equity s ≡ ok t → t ≡ s
  unfolding validate_equity
  validate_equity-eq-ok s t h = ground arith

  pub validate_execution-eq-ok : (r q : ExecutionReport F) → validate_execution r ≡ ok q → q ≡ r
  unfolding validate_execution
  validate_execution-eq-ok r q h = ground arith

  -- A state that is built has the time that was asked for.
  pub valued_at-build_state :
      (cash : F) (positions : Dict (PaperPosition F)) (valued_at : ℕ) (s : PortfolioState F)
      → build_state cash positions valued_at ≡ ok s
      → s.valued_at ≡ valued_at
  unfolding build_state
  valued_at-build_state cash positions valued_at s h =
      let (ps, _, e) =
        >>=-eq-ok
          (traverse (λ e. validate_position (public_position e)) (sort_by (λ e. e.0) positions)) _
          h in
      cc (validate_equity-eq-ok _ s e)
