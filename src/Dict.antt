-- ===== src/Dict.antt =====
-- Python's `dict` with text keys, in the order of insertion.
use the_council.Prelude.{
  mem_text, has_unique_texts, ◌≡◌, refl, true, false, ◌||◌, Option, none, some, List, [], ◌∷◌,
  String, ◌==◌, eq_iff, if◌then◌else◌, arith,
}

abbrev pub Dict {ℓ} : Type ℓ → Type ℓ
Dict V = List (String × V)

module _ {ℓ} {V : Type ℓ} where
  abbrev pub keys : Dict V → List String
  keys [] = []
  keys ((k, v) ∷ d) = k ∷ keys d

  -- `d.get(k)`.
  unfoldable pub get : String → Dict V → Option V
  get k [] = none
  get k ((j, v) ∷ d) = if j == k then some v else get k d

  -- `d[k] = v`: in place, or at the end.
  unfoldable pub put : String → V → Dict V → Dict V
  put k v [] = (k, v) ∷ []
  put k v ((j, w) ∷ d) = if j == k then (j, v) ∷ d else (j, w) ∷ put k v d

  -- `d.pop(k, None)`.
  unfoldable pub pop : String → Dict V → Dict V
  pop k [] = []
  pop k ((j, w) ∷ d) = if j == k then d else (j, w) ∷ pop k d

  pub get-put :
      (k j : String) (v : V) (d : Dict V) → get j (put k v d) ≡ (if k == j then some v else get j d)
  unfolding get put
  get-put k j v [] = refl
  get-put k j v ((i, w) ∷ d) = ground (arith, eq_iff k j, eq_iff i k, eq_iff i j, get-put k j v d)

  mem-keys-put :
      (k j : String) (v : V) (d : Dict V)
      → mem_text j (keys (put k v d)) ≡ (k == j || mem_text j (keys d))
  unfolding put
  mem-keys-put k j v [] = ground arith
  mem-keys-put k j v ((i, w) ∷ d) =
      ground (arith, eq_iff k j, eq_iff i k, eq_iff i j, mem-keys-put k j v d)

  mem-keys-pop :
      (k j : String) (d : Dict V)
      → mem_text j (keys d) ≡ false
      → mem_text j (keys (pop k d)) ≡ false
  unfolding pop
  mem-keys-pop k j [] h = refl
  mem-keys-pop k j ((i, w) ∷ d) h = ground (arith, mem-keys-pop k j d)

  pub get-pop :
      (k j : String) (d : Dict V)
      → has_unique_texts (keys d) ≡ true
      → get j (pop k d) ≡ (if k == j then none else get j d)
  unfolding get pop
  get-pop k j [] h = ground arith
  get-pop k j ((i, w) ∷ d) h =
      ground (arith, eq_iff k j, eq_iff i k, eq_iff i j, get-pop k j d, get_of_not_mem j d)
    where
      get_of_not_mem : (j : String) (d : Dict V) → mem_text j (keys d) ≡ false → get j d ≡ none
      get_of_not_mem j [] h = refl
      get_of_not_mem j ((i, w) ∷ d) h = ground (arith, get_of_not_mem j d)

  pub put_unique :
      (k : String) (v : V) (d : Dict V)
      → has_unique_texts (keys d) ≡ true
      → has_unique_texts (keys (put k v d)) ≡ true
  unfolding put
  put_unique k v [] h = refl
  put_unique k v ((i, w) ∷ d) h =
      ground (arith, eq_iff i k, mem-keys-put k i v d, eq_iff k i, put_unique k v d)

  pub pop_unique :
      (k : String) (d : Dict V)
      → has_unique_texts (keys d) ≡ true
      → has_unique_texts (keys (pop k d)) ≡ true
  unfolding pop
  pop_unique k [] h = refl
  pop_unique k ((i, w) ∷ d) h = ground (arith, mem-keys-pop k i d, pop_unique k d)
