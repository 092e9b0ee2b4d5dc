-- ===== src/Floats.antt =====
-- Python's `float`, as far as the program uses it. There are no floating-point numbers in the logic,
-- so the type and its operations are a parameter; `Floats/Fixed.antt` gives an executable one.
pub mod Laws
pub mod Fixed
use the_council.Prelude.{
  ℕ, Bool, true, false, ◌&&◌, ◌||◌, not, if◌then◌else◌, Option, none, some, List, foldl,
}

pub record Float (F : Type 0) : Type 0 where
  -- `scientific n k` is the literal n * 10 ** -k.
  pub scientific : ℕ → ℕ → F
  pub add : F → F → F
  pub sub : F → F → F
  pub mul : F → F → F
  pub div : F → F → F
  pub neg : F → F
  pub abs : F → F
  pub lt : F → F → Bool
  pub le : F → F → Bool
  pub eq : F → F → Bool
  pub is_finite : F → Bool
  -- Where one of the next five raises in Python (no members, a domain, an overflow of the sum) and the
  -- program does not look first, it gives no finite number here.
  pub log : F → F
  pub pstdev : List F → F
  pub mean : List F → F
  pub fmean : List F → F
  pub sum : List F → F

module _ {F : Type 0} ⦃f : Float F⦄ where
  infixl 65 ◌⊕◌ ◌⊖◌
  infixl 70 ◌⊗◌ ◌⊘◌
  infix 50 ◌<?◌ ◌≤?◌ ◌=?◌
  abbrev pub ◌⊕◌ : F → F → F
  a ⊕ b = f.add a b

  abbrev pub ◌⊖◌ : F → F → F
  a ⊖ b = f.sub a b

  abbrev pub ◌⊗◌ : F → F → F
  a ⊗ b = f.mul a b

  abbrev pub ◌⊘◌ : F → F → F
  a ⊘ b = f.div a b

  abbrev pub ◌<?◌ : F → F → Bool
  a <? b = f.lt a b

  abbrev pub ◌≤?◌ : F → F → Bool
  a ≤? b = f.le a b

  abbrev pub ◌=?◌ : F → F → Bool
  a =? b = f.eq a b

  abbrev pub of_nat : ℕ → F
  of_nat n = f.scientific n 0

  abbrev pub nought : F
  nought = f.scientific 0 0

  -- `max(a, b)` and `min(a, b)` keep the first argument unless the second is beyond it.
  abbrev pub fmax : F → F → F
  fmax a b = if a <? b then b else a

  abbrev pub fmin : F → F → F
  fmin a b = if b <? a then b else a

  -- `sum(xs)`, which newer versions of Python round less than a sum from the left.
  abbrev pub sum : List F → F
  sum xs = f.sum xs

  -- `x or 0.0`: a missing value and both zeros give 0.0.
  abbrev pub or_zero : Option F → F
  or_zero none = nought
  or_zero (some x) = if x =? nought then nought else x

  -- `math.isclose(a, b, rel_tol=1e-12, abs_tol=1e-9)`.
  unfoldable pub isclose : F → F → Bool
  isclose a b =
      let rel = f.scientific 1 12 in
      let diff = f.abs (b ⊖ a) in
      if a =? b
      then true
      else f.is_finite a
        && f.is_finite b
        && (diff ≤? f.abs (rel ⊗ b) || diff ≤? f.abs (rel ⊗ a) || diff ≤? f.scientific 1 9)

  -- The field types FiniteFloat, PositiveFiniteFloat, NonNegativeFiniteFloat, UnitFloat and
  -- SignedUnitFloat.
  abbrev pub positive_finite : F → Bool
  positive_finite x = f.is_finite x && nought <? x

  abbrev pub nonneg_finite : F → Bool
  nonneg_finite x = f.is_finite x && nought ≤? x

  abbrev pub unit_float : F → Bool
  unit_float x = f.is_finite x && nought ≤? x && x ≤? of_nat 1

  abbrev pub signed_unit_float : F → Bool
  signed_unit_float x = f.is_finite x && f.neg (of_nat 1) ≤? x && x ≤? of_nat 1

abbrev pub opt_all {ℓ} : {A : Type ℓ} → (A → Bool) → Option A → Bool
opt_all p none = true
opt_all p (some x) = p x
