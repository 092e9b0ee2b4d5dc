-- ===== src/Floats/Laws.antt =====
-- What the proofs use of Python's floats, besides that they are computed with. Each law holds of the
-- IEEE 754 binary64 format, with round to nearest.
use the_council.Prelude.{◌≡◌, true, false}
use the_council.Floats.{
  Float, nought, of_nat, unit_float, signed_unit_float, nonneg_finite, ◌⊖◌, ◌⊗◌, ◌≤?◌, ◌⊕◌, ◌<?◌,
  ◌=?◌,
}

pub record IsIeee (F : Type 0) ⦃f : Float F⦄ : Type 0 where
  -- A finite number is `==` itself; NaN is not.
  pub eq_refl : (x : F) → f.is_finite x ≡ true → (x =? x) ≡ true
  -- The sum of a finite number and 1e-9 is not `<` the number.
  pub not-add-lt : (x : F) → f.is_finite x ≡ true → (x ⊕ f.scientific 1 9 <? x) ≡ false
  -- 0.0 is a finite number from 0 to 1.
  pub unit_zero : unit_float {F = F} nought ≡ true
  -- `<` is asymmetric.
  pub lt_asym : (x y : F) → (x <? y) ≡ true → (y <? x) ≡ false
  -- What is not negative does not bring a sum below the difference.
  pub not-add-lt-sub : (x d : F) → (nought ≤? d) ≡ true → (x ⊕ d <? x ⊖ d) ≡ false
  -- The product of finite numbers that are not negative is not negative.
  pub nonneg_mul :
      (x y : F) → nonneg_finite x ≡ true → nonneg_finite y ≡ true → (nought ≤? x ⊗ y) ≡ true
  -- `<` implies `<=`, which is transitive; what lies between two numbers is finite.
  pub lt_le : (x y : F) → (x <? y) ≡ true → (x ≤? y) ≡ true
  pub le_trans : (x y z : F) → (x ≤? y) ≡ true → (y ≤? z) ≡ true → (x ≤? z) ≡ true
  pub between_finite : (x y z : F) → (x <? y) ≡ true → (y <? z) ≡ true → f.is_finite y ≡ true
  -- The literals 0.05, 1.0 and -1.0 are finite and in this order with 0.0.
  pub unit_low : unit_float {F = F} (f.scientific 5 2) ≡ true
  pub unit_one : unit_float {F = F} (of_nat 1) ≡ true
  pub signed_zero : signed_unit_float {F = F} nought ≡ true
  pub signed_one : signed_unit_float {F = F} (of_nat 1) ≡ true
  pub signed_minus_one : signed_unit_float {F = F} (f.neg (of_nat 1)) ≡ true
  -- Multiplying by twenty keeps the sign.
  pub twenty_pos : (x : F) → (nought <? x) ≡ true → (nought <? x ⊗ of_nat 20) ≡ true
  pub twenty_neg : (x : F) → (x <? nought) ≡ true → (nought <? x ⊗ of_nat 20) ≡ false
