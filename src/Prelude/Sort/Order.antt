-- ===== src/Prelude/Sort/Order.antt =====
-- The order of texts by code points is total.
use Prim.Native.Nat.{Ordering}
use Prim.Native.String.{String, [], ◌∷◌, compare}
use Prim.Native.String.compare as clauses
use mathlib.Core.Path.{◌≡◌, refl}
use mathlib.Core.Bool.{true, false}
use native.Mathlib.Omega.{arith}
use text.Mathlib.TextEquality.{path_by_compare}
use the_council.Prelude.Sort.{str_leb}

abbrev flip : Ordering → Ordering
flip Ordering.lt = Ordering.gt
flip Ordering.eq = Ordering.eq
flip Ordering.gt = Ordering.lt

compare-flip : (s t : String) → compare t s ≡ flip (compare s t)
compare-flip [] [] = refl
compare-flip [] (d ∷ t) = ground (arith, clauses.nil-cons d t, clauses.cons-nil d t)
compare-flip (c ∷ s) [] = ground (arith, clauses.nil-cons c s, clauses.cons-nil c s)
compare-flip (c ∷ s) (d ∷ t) =
    ground (arith, clauses.cons-cons c d s t, clauses.cons-cons d c t s, compare-flip s t)

pub str_leb_total : (s t : String) → str_leb s t ≡ false → str_leb t s ≡ true
str_leb_total s t h = ground (arith, compare-flip s t)

pub str_leb_antisymm : (s t : String) → str_leb s t ≡ true → str_leb t s ≡ true → s ≡ t
str_leb_antisymm s t h k = ground (arith, compare-flip s t, path_by_compare s t)

pub str_leb_trans : (s t u : String) → str_leb s t ≡ true → str_leb t u ≡ true → str_leb s u ≡ true
str_leb_trans [] t [] h k = refl
str_leb_trans [] t (e ∷ u) h k = ground (arith, clauses.nil-cons e u)
str_leb_trans (c ∷ s) [] u h k = absurd (ground (arith, clauses.cons-nil c s))
str_leb_trans (c ∷ s) (d ∷ t) [] h k = absurd (ground (arith, clauses.cons-nil d t))
str_leb_trans (c ∷ s) (d ∷ t) (e ∷ u) h k = ground (
  arith,
  clauses.cons-cons c d s t,
  clauses.cons-cons d e t u,
  clauses.cons-cons c e s u,
  str_leb_trans s t u,
)
