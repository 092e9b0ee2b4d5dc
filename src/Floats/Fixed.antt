-- ===== src/Floats/Fixed.antt =====
-- Decimal fixed point, an executable type of numbers: an integer counts units of 10 ** -12. The
-- products and quotients are cut off. `log` and `pstdev` are stand-ins, which only have to run: the
-- distance from 1, and the size of the largest member.
use the_council.Prelude.{
  ◌≡◌, List, length, refl, arith, ℕ, ◌*◌, ◌/◌, ◌^◌, true, if◌then◌else◌, foldl, false,
}
use the_council.Prelude.Int.{ℤ, pos, negsuc, ◌+ℤ◌, ◌-ℤ◌, scale, ltb_ℤ, leb_ℤ, eqb_ℤ}
use the_council.Floats.{Float}
use the_council.Floats.Laws.{IsIeee}

abbrev pub unit : ℕ
unit = 10 ^ 12

abbrev pub abs : ℤ → ℤ
abs a = if ltb_ℤ a (pos 0) then pos 0 -ℤ a else a

-- The sum divided by the number of members.
abbrev average : List ℤ → ℤ
average xs = scale (λ x y. x / y) (foldl (◌+ℤ◌) (pos 0) xs) (pos (length xs))

instance abbrev pub fixed_float : Float ℤ
fixed_float = record {
  scientific = λ n k. pos (n * unit / 10 ^ k);
  add = ◌+ℤ◌;
  sub = ◌-ℤ◌;
  mul = scale (λ x y. x * y / unit);
  div = scale (λ x y. x * unit / y);
  neg = λ a. pos 0 -ℤ a;
  abs = abs;
  lt = ltb_ℤ;
  le = leb_ℤ;
  eq = eqb_ℤ;
  is_finite = λ a. true;
  log = λ a. a -ℤ pos unit;
  pstdev = foldl (λ best a. if ltb_ℤ best (abs a) then abs a else best) (pos 0);
  mean = average;
  fmean = average;
  sum = foldl (◌+ℤ◌) (pos 0);
}

nonneg_scaled :
    (x y : ℤ)
    → leb_ℤ (pos 0) x ≡ true
    → leb_ℤ (pos 0) y ≡ true
    → leb_ℤ (pos 0) (scale (λ m n. m * n / unit) x y) ≡ true
nonneg_scaled (pos m) (pos n) h k = ground arith
nonneg_scaled (pos m) (negsuc n) h k = ground arith
nonneg_scaled (negsuc m) (pos n) h k = ground arith
nonneg_scaled (negsuc m) (negsuc n) h k = ground arith

twenty_pos :
    (x : ℤ)
    → ltb_ℤ (pos 0) x ≡ true
    → ltb_ℤ (pos 0) (scale (λ m n. m * n / unit) x (pos (20 * unit))) ≡ true
twenty_pos (pos m) h = ground arith
twenty_pos (negsuc m) h = ground arith

twenty_neg :
    (x : ℤ)
    → ltb_ℤ x (pos 0) ≡ true
    → ltb_ℤ (pos 0) (scale (λ m n. m * n / unit) x (pos (20 * unit))) ≡ false
twenty_neg (pos m) h = ground arith
twenty_neg (negsuc m) h = ground arith

-- The laws can be met.
pub fixed-IsIeee : IsIeee ℤ
fixed-IsIeee = record {
  eq_refl = λ x h. ground arith;
  not-add-lt = λ x h. ground arith;
  unit_zero = refl;
  lt_asym = λ x y h. ground arith;
  not-add-lt-sub = λ x d h. ground arith;
  lt_le = λ x y h. ground arith;
  le_trans = λ x y z h k. ground arith;
  between_finite = λ x y z h k. refl;
  unit_low = refl;
  unit_one = refl;
  signed_zero = refl;
  signed_one = refl;
  signed_minus_one = refl;
  twenty_pos = λ x h. twenty_pos x h;
  twenty_neg = λ x h. twenty_neg x h;
  nonneg_mul = λ x y h k. nonneg_scaled x y (ground arith) (ground arith);
}
