-- ===== src/Prelude/Members.antt =====
-- Members of lists that are selected, sorted and traversed.
use Prim.Native.Nat.{ℕ}
use mathlib.Core.Path.{◌≡◌}
use mathlib.Core.Logic.{inl, inr}
use mathlib.Core.Bool.{Bool, true}
use mathlib.Core.List.{List, [], ◌∷◌}
use the_council.Prelude.Tests.{leb, Bool-cases}
use the_council.Prelude.Lists.{Member, select}
use the_council.Prelude.Numbers.{insert_at, sort_at}

module _ {A : Type 0} where
  pub Member-select :
      (p : A → Bool) (x : A) (xs : List A) → Member x xs → p x ≡ true → Member x (select p xs)
  Member-select p x [] m h = m
  Member-select p x (y ∷ ys) (inl same) h =
      let test : p y ≡ true = cc (same, h) in rw test (inl same)
  Member-select p x (y ∷ ys) (inr later) h = elim (Bool-cases (p y)) [
    | inl test ↦ rw test (inr (Member-select p x ys later h))
    | inr test ↦ rw test (Member-select p x ys later h)
  ]

  Member-insert :
      (key : A → ℕ) (x y : A) (ys : List A) → Member x (y ∷ ys) → Member x (insert_at key y ys)
  Member-insert key x y [] m = m
  Member-insert key x y (z ∷ ys) m = elim (Bool-cases (leb (key y) (key z))) [
    | inl low ↦ rw low m
    | inr high ↦ rw high (elim m [
      | inl same ↦ inr (Member-insert key x y ys (inl same))
      | inr (inl same) ↦ inl same
      | inr (inr later) ↦ inr (Member-insert key x y ys (inr later))
    ])
  ]

  pub Member-sort_at : (key : A → ℕ) (x : A) (xs : List A) → Member x xs → Member x (sort_at key xs)
  Member-sort_at key x [] m = m
  Member-sort_at key x (y ∷ ys) (inl same) = Member-insert key x y (sort_at key ys) (inl same)
  Member-sort_at key x (y ∷ ys) (inr later) =
      Member-insert key x y (sort_at key ys) (inr (Member-sort_at key x ys later))
