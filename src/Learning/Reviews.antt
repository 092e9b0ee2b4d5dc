-- ===== src/Learning/Reviews.antt =====
-- `list_reviews` of learning/profiles.py.
use the_council.Prelude.{Bool, if◌then◌else◌, List, String, ltb, eqb, map}
use the_council.Prelude.Sort.{str_leb}
use the_council.Prelude.Sort.Ranked.{sort_ranked}
use the_council.Result.{Result, ok, ◌>>=◌, traverse}
use the_council.Learning.Models.{
  LearningReview, WeightProposal, TeacherResult, validate_proposal, validate_teacher_result,
  validate_review,
}
use the_council.Learning.Profiles.{ProfileStore}

module _ {F : Type 0} where
  -- `(evaluated_at, result_id)` of the one is at least that of the other.
  abbrev is_no_earlier : LearningReview F → LearningReview F → Bool
  is_no_earlier a b =
      if eqb a.result.evaluated_at b.result.evaluated_at
      then str_leb b.result.result_id a.result.result_id
      else ltb b.result.evaluated_at a.result.evaluated_at

  module _ (proposal_identity : WeightProposal F → String)
      (result_identity : TeacherResult F → String) where
    -- A review that is read back passes the validators of its parts and its own.
    unfoldable pub read_review : LearningReview F → Result (LearningReview F)
    read_review review = do
      proposal ← validate_proposal proposal_identity review.proposal
      result ← validate_teacher_result result_identity review.result
      validate_review (record { proposal = proposal; result = result })

    -- The stored reviews, the newest first.
    unfoldable pub list_reviews : ProfileStore F → Result (List (LearningReview F))
    list_reviews store = do
      reviews ← traverse read_review (map (λ (e : String × LearningReview F). e.1) store.reviews)
      ok (sort_ranked is_no_earlier reviews)
