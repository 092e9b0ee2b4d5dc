-- ===== src/Prelude/Numbers.antt =====
-- Lists in the order of a number that their members carry. The sort is stable.
use Prim.Native.Nat.{ℕ, ◌+◌}
use mathlib.Core.Bool.{Bool, true, false, ◌&&◌}
use mathlib.Core.List.{List, [], ◌∷◌}
use the_council.Prelude.Tests.{ltb, leb, eqb, if◌then◌else◌}
use the_council.Prelude.Lists.{any}

abbrev pub same_numbers : List ℕ → List ℕ → Bool
same_numbers [] [] = true
same_numbers (m ∷ ms) (n ∷ ns) = eqb m n && same_numbers ms ns
same_numbers _ _ = false

module _ {ℓ} {A : Type ℓ} (key : A → ℕ) where
  abbrev pub insert_at : A → List A → List A
  insert_at x [] = x ∷ []
  insert_at x (y ∷ ys) =
      let rest = insert_at x ys in if leb (key x) (key y) then x ∷ y ∷ ys else y ∷ rest

  -- `sorted(xs, key=...)`.
  abbrev pub sort_at : List A → List A
  sort_at [] = []
  sort_at (x ∷ xs) = insert_at x (sort_at xs)

abbrev pub mem_number : ℕ → List ℕ → Bool
mem_number n = any (λ m. eqb m n)

-- Each member is less than the next.
abbrev pub is_ascending : List ℕ → Bool
is_ascending [] = true
is_ascending (m ∷ []) = true
is_ascending (m ∷ n ∷ ns) = ltb m n && is_ascending (n ∷ ns)

abbrev pub sum_numbers : List ℕ → ℕ
sum_numbers [] = 0
sum_numbers (n ∷ ns) = n + sum_numbers ns
