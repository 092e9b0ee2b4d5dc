-- ===== src/Prelude/Sort/Ranked.antt =====
-- `sorted(xs, key=...)` by a key of several parts: `before x y` is the test that x's key is at most y's.
use mathlib.Core.Bool.{Bool}
use mathlib.Core.Logic.{inl, inr}
use mathlib.Core.List.{List, [], ◌∷◌}
use the_council.Prelude.Tests.{if◌then◌else◌, Bool-cases}
use the_council.Prelude.Lists.{All}

module _ {ℓ} {A : Type ℓ} (before : A → A → Bool) where
  abbrev pub insert_ranked : A → List A → List A
  insert_ranked x [] = x ∷ []
  insert_ranked x (y ∷ ys) =
      let rest = insert_ranked x ys in if before x y then x ∷ y ∷ ys else y ∷ rest

  abbrev pub sort_ranked : List A → List A
  sort_ranked [] = []
  sort_ranked (x ∷ xs) = insert_ranked x (sort_ranked xs)

  pub All-insert {κ} :
      (P : A → Type κ) (x : A) (xs : List A) → P x → All P xs → All P (insert_ranked x xs)
  All-insert P x [] p ps = (p, tt)
  All-insert P x (y ∷ ys) p (q, qs) = elim (Bool-cases (before x y)) [
    | inl h ↦ rw h (p, (q, qs))
    | inr h ↦ rw h (q, All-insert P x ys p qs)
  ]

  -- Sorting keeps what holds of every member.
  pub All-sort {κ} : (P : A → Type κ) (xs : List A) → All P xs → All P (sort_ranked xs)
  All-sort P [] ps = tt
  All-sort P (x ∷ xs) (p, ps) = All-insert P x (sort_ranked xs) p (All-sort P xs ps)
