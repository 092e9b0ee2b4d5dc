-- ===== src/Prelude/Sort/Permuted.antt =====
-- Sorting by a key that tells the members of a list apart forgets their order.
use Prim.Native.String.{String}
use mathlib.Core.Path.{◌≡◌, refl, ◌∙◌, sym}
use mathlib.Core.Logic.{inl, inr}
use mathlib.Core.Bool.{Bool, true, false, ◌||◌}
use mathlib.Core.List.{List, [], ◌∷◌, map, Permᴰ}
use mathlib.Core.List.Permᴰ
use native.Mathlib.Omega.{arith}
use text.Mathlib.Text.{◌==◌}
use text.Mathlib.TextEquality.{eq_iff}
use the_council.Prelude.Tests.{Bool-cases}
use the_council.Prelude.Texts.{mem_text, has_unique_texts}
use the_council.Prelude.Sort.{str_leb, insert_sorted, sort_by}
use the_council.Prelude.Sort.Order.{str_leb_total, str_leb_antisymm, str_leb_trans}

or_swap : (a b c : Bool) → (a || (b || c)) ≡ (b || (a || c))
or_swap a b c = ground arith

unique_swap :
    (a b : String) (ks : List String)
    → has_unique_texts (a ∷ b ∷ ks) ≡ has_unique_texts (b ∷ a ∷ ks)
unique_swap a b ks = ground (arith, eq_iff a b, eq_iff b a)

module _ {ℓ} {A : Type ℓ} (key : A → String) where
  mem-perm :
      (k : String) {xs ys : List A}
      → Permᴰ xs ys
      → mem_text k (map key xs) ≡ mem_text k (map key ys)
  mem-perm k Permᴰ.nil = refl
  mem-perm k (Permᴰ.cons e p) = cc (e, mem-perm k p)
  mem-perm k (Permᴰ.swap {a = a} {b = b} {l = l} e d) =
      cc (or_swap (key a == k) (key b == k) (mem_text k (map key l)))
  mem-perm k (Permᴰ.trans p q) = mem-perm k p ∙ mem-perm k q

  pub unique-perm :
      {xs ys : List A} → Permᴰ xs ys → has_unique_texts (map key xs) ≡ has_unique_texts (map key ys)
  unique-perm Permᴰ.nil = refl
  unique-perm (Permᴰ.cons {a = a} {l₁ = l₁} e p) = cc (e, mem-perm (key a) p, unique-perm p)
  unique-perm (Permᴰ.swap {a = a} {b = b} {l = l} e d) =
      cc (unique_swap (key a) (key b) (map key l))
  unique-perm (Permᴰ.trans p q) = unique-perm p ∙ unique-perm q

  insert_comm :
      (a b : A) (l : List A)
      → (key b == key a) ≡ false
      → insert_sorted key a (insert_sorted key b l) ≡ insert_sorted key b (insert_sorted key a l)
  insert_comm a b [] h = ground (
    arith,
    str_leb_total (key a) (key b),
    str_leb_antisymm (key a) (key b),
    eq_iff (key b) (key a),
  )
  insert_comm a b (y ∷ l) h = ground (
    arith,
    str_leb_total (key a) (key b),
    str_leb_antisymm (key a) (key b),
    eq_iff (key b) (key a),
    str_leb_trans (key a) (key b) (key y),
    str_leb_trans (key b) (key a) (key y),
    insert_comm a b l,
  )

  pub sort-perm :
      {xs ys : List A}
      → Permᴰ xs ys
      → has_unique_texts (map key xs) ≡ true
      → sort_by key xs ≡ sort_by key ys
  sort-perm Permᴰ.nil u = refl
  sort-perm (Permᴰ.cons e p) u = cc (e, sort-perm p (ground arith))
  sort-perm (Permᴰ.swap {a = a} {b = b} {l = l} e d) u =
      cc (insert_comm a b (sort_by key l) (ground arith))
  sort-perm (Permᴰ.trans p q) u = sort-perm p u ∙ sort-perm q (sym (unique-perm p) ∙ u)

  insert-perm : (x : A) (l : List A) → Permᴰ (insert_sorted key x l) (x ∷ l)
  insert-perm x [] = Permᴰ.refl (x ∷ [])
  insert-perm x (y ∷ l) = elim (Bool-cases (str_leb (key x) (key y))) [
    | inl h ↦ rw h (Permᴰ.refl (x ∷ y ∷ l))
    | inr h ↦ rw h (Permᴰ.trans (Permᴰ.cons refl (insert-perm x l)) (Permᴰ.swap refl refl))
  ]

  pub sort_by-perm : (l : List A) → Permᴰ (sort_by key l) l
  sort_by-perm [] = Permᴰ.nil
  sort_by-perm (x ∷ l) =
      Permᴰ.trans (insert-perm x (sort_by key l)) (Permᴰ.cons refl (sort_by-perm l))
