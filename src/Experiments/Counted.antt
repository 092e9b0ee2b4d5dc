-- ===== src/Experiments/Counted.antt =====
-- The calibration of a batch counts each complete experiment once.
use mathlib.Core.Path.{subst}
use the_council.Prelude.{
  ◌≡◌, refl, sym, ap, ◌∙◌, ℕ, suc, ◌+◌, List, [], ◌∷◌, ◌++◌, String, ◌==◌, length, inl, inr,
  Bool-cases, arith, is_empty,
}
use the_council.Prelude.Int.{ℤ}
use the_council.Prelude.Sort.{str_leb, insert_sorted}
use the_council.Floats.{Float}
use the_council.Dict.{Dict}
use the_council.Result.{raised, refuse, of_option, Result, ok, traverse, >>=-eq-ok, ok-injective}
use the_council.Experiments.Models.{ExperimentRecord, ExperimentRequest, ForecastEvaluation}
use the_council.Experiments.Batch.{
  CalibrationBucket, BatchResult, append_at, group_by, sorted_groups, calibration_of, completed_of,
  aggregate_batch, configuration_performance, check_performance, accuracy_in, mean_error, bias_of,
}

length-snoc : {A : Type 0} (xs : List A) (x : A) → length (xs ++ (x ∷ [])) ≡ length xs + 1
length-snoc [] x = refl
length-snoc (y ∷ xs) x = rw (length-snoc xs x) (omega arith)

length-traverse :
    {A B : Type 0} (g : A → Result B) (xs : List A) (ys : List B)
    → traverse g xs ≡ ok ys
    → length ys ≡ length xs
length-traverse g [] ys h = ap length (sym (ok-injective h))
length-traverse g (x ∷ xs) ys h =
    let (y, first, rest) = >>=-eq-ok (g x) _ h in
    let (others, more, gives) = >>=-eq-ok (traverse g xs) _ rest in
    ap length (sym (ok-injective gives)) ∙ ap suc (length-traverse g xs others more)

module _ {A : Type 0} where
  abbrev total : Dict (List A) → ℕ
  total [] = 0
  total ((k, xs) ∷ groups) = length xs + total groups

  total-append_at :
      (key : String) (x : A) (groups : Dict (List A))
      → total (append_at key x groups) ≡ total groups + 1
  total-append_at key x [] = refl
  total-append_at key x ((k, xs) ∷ groups) = elim (Bool-cases (k == key)) [
    | inl same ↦ rw same (omega (arith, length-snoc xs x))
    | inr other ↦ rw other (omega (arith, total-append_at key x groups))
  ]

  total-group_by :
      (key : A → String) (groups : Dict (List A)) (xs : List A)
      → total (group_by key groups xs) ≡ total groups + length xs
  total-group_by key groups [] = omega arith
  total-group_by key groups (x ∷ xs) =
      omega (
        arith,
        total-group_by key (append_at (key x) x groups) xs,
        total-append_at (key x) x groups,
      )

  total-grouped : (key : A → String) (xs : List A) → total (group_by key [] xs) ≡ length xs
  total-grouped key xs = omega (arith, total-group_by key [] xs)

  total-insert_sorted :
      (g : String × List A) (groups : Dict (List A))
      → total (insert_sorted (λ (h : String × List A). h.0) g groups) ≡ total (g ∷ groups)
  total-insert_sorted (k, xs) [] = refl
  total-insert_sorted (k, xs) ((j, ys) ∷ groups) = elim (Bool-cases (str_leb k j)) [
    | inl low ↦ rw low refl
    | inr high ↦ rw high (omega (arith, total-insert_sorted (k, xs) groups))
  ]

  total-sorted_groups : (groups : Dict (List A)) → total (sorted_groups groups) ≡ total groups
  total-sorted_groups [] = refl
  total-sorted_groups ((k, xs) ∷ groups) =
      omega (arith, total-insert_sorted (k, xs) (sorted_groups groups), total-sorted_groups groups)

module _ {F : Type 0} ⦃f : Float F⦄ where
  -- All that the buckets count.
  abbrev pub total_count : List (CalibrationBucket F) → ℕ
  total_count [] = 0
  total_count (c ∷ buckets) = c.count + total_count buckets

  calibration_of-count :
      (g : String × List (ForecastEvaluation F)) (c : CalibrationBucket F)
      → calibration_of g ≡ ok c
      → c.count ≡ length g.1
  unfolding calibration_of
  calibration_of-count (bucket, items) c h = ground arith

  total_count-traverse :
      (groups : Dict (List (ForecastEvaluation F))) (buckets : List (CalibrationBucket F))
      → traverse calibration_of groups ≡ ok buckets
      → total_count buckets ≡ total groups
  total_count-traverse [] buckets h = ap total_count (sym (ok-injective h))
  total_count-traverse ((k, xs) ∷ groups) buckets h =
      let (c, first, rest) = >>=-eq-ok (calibration_of (k, xs)) _ h in
      let (others, more, gives) = >>=-eq-ok (traverse calibration_of groups) _ rest in
      ap total_count (sym (ok-injective gives))
      ∙ omega (arith, calibration_of-count (k, xs) c first, total_count-traverse groups others more)

  module _ (configuration_id : ExperimentRequest F → String)
      (batch_id : ℤ → List String → String) where
    abbrev IsCounted : List (ExperimentRecord F) → BatchResult F → Type 0
    IsCounted records b =
        (b.experiment_count ≡ length (completed_of records))
        × (total_count b.confidence_calibration ≡ b.experiment_count)

    -- The buckets of a batch's calibration count, all together, exactly the experiments that are complete.
    pub aggregate_batch-Counts :
        (records : List (ExperimentRecord F)) (seed : ℤ) (b : BatchResult F)
        → aggregate_batch configuration_id batch_id records seed ≡ ok b
        → (b.experiment_count ≡ length (completed_of records))
          × (total_count b.confidence_calibration ≡ b.experiment_count)
    unfolding aggregate_batch
    aggregate_batch-Counts records seed b h =
        let (u, some_, h1) =
          >>=-eq-ok
            (refuse (is_empty (completed_of records))
              (raised "batch contains no complete experiments"))
            _ h in
        let (measured, all_, h2) =
          >>=-eq-ok
            (traverse
              (λ (r : ExperimentRecord F).
                of_option (raised "complete experiment is missing its evaluation") r.evaluation)
              (completed_of records))
            _ h1 in
        let groups = group_by (λ (e : ForecastEvaluation F). e.calibration_bucket) [] measured in
        let (calibration, counted, h3) =
          >>=-eq-ok (traverse calibration_of (sorted_groups groups)) _ h2 in
        let configured = sorted_groups (
          group_by (λ (r : ExperimentRecord F). configuration_id r.request) []
            (completed_of records)) in
        let (performance, performed, h4) =
          >>=-eq-ok (traverse configuration_performance configured) _ h3 in
        let (v, checked, gives) =
          >>=-eq-ok
            (check_performance (accuracy_in measured) (mean_error measured) (bias_of measured)) _
            h4 in
        subst (IsCounted records) (ok-injective gives) (
          refl,
          total_count-traverse (sorted_groups groups) calibration counted
              ∙ total-sorted_groups groups
              ∙ total-grouped (λ (e : ForecastEvaluation F). e.calibration_bucket) measured
              ∙ length-traverse _ (completed_of records) measured all_,
        )
