-- ===== src/Context/Sequenced.antt =====
-- Calls in a row that share a state: where the state ends, and what they give.
use the_council.Stateful.{◌>>=◌, lift, Stateful, followed, ◌>>◌}
use the_council.Prelude.{◌≡◌, refl}
use the_council.Result.{Result, ok, err}
use the_council.Context.Providers.{joined, guarded}

module _ {S : Type 0} where
  pub both_keep :
      {A B C : Type 0} (m : Stateful S A) (n : Stateful S B) (k : A → B → C) (P : S → Type 0)
      (cache : S)
      → P (m cache).1
      → ((c : S) → P c → P (n c).1)
      → P ((m >>= λ a. n >>= λ b. lift (ok (k a b))) cache).1
  unfolding ◌>>=◌ lift
  both_keep {A} {B} {C} m n k P cache h keeps = first (m cache) h
    where
      second : (a : A) (r : Result B × S) → P r.1 → P (followed r (λ b. λ s. (ok (k a b), s))).1
      second a (err e, c) h = h
      second a (ok b, c) h = h

      first : (r : Result A × S) → P r.1 → P (followed r (λ a. n >>= λ b. lift (ok (k a b)))).1
      first (err e, c) h = h
      first (ok a, c) h = second a (n c) (keeps c h)

  pub both_give :
      {A B C : Type 0} (m : Stateful S A) (n : Stateful S B) (k : A → B → C) (cache : S)
      → ((m >>= λ a. n >>= λ b. lift (ok (k a b))) cache).0 ≡ joined k (m cache).0 (n (m cache).1).0
  unfolding ◌>>=◌ lift
  both_give {A} {B} {C} m n k cache = first (m cache)
    where
      second :
          (a : A) (r : Result B × S)
          → (followed r (λ b. λ s. (ok (k a b), s))).0 ≡ joined k (ok a) r.0
      second a (err e, c) = refl
      second a (ok b, c) = refl

      first :
          (r : Result A × S)
          → (followed r (λ a. n >>= λ b. lift (ok (k a b)))).0 ≡ joined k r.0 (n r.1).0
      first (err e, c) = refl
      first (ok a, c) = second a (n c)

  pub guarded_keep :
      {A B : Type 0} (test : Result (Unit {0})) (m : Stateful S A) (make : A → Result B)
      (P : S → Type 0) (s : S)
      → P s
      → P (m s).1
      → P ((lift test >> (m >>= λ a. lift (make a))) s).1
  unfolding ◌>>=◌ lift
  guarded_keep (err e) m make P s before after = before
  guarded_keep {A} {B} (ok u) m make P s before after = last (m s) after
    where
      last : (r : Result A × S) → P r.1 → P (followed r (λ a. λ t. (make a, t))).1
      last (err e, c) h = h
      last (ok a, c) h = h

  pub guarded_give :
      {A B : Type 0} (test : Result (Unit {0})) (m : Stateful S A) (make : A → Result B) (s : S)
      → ((lift test >> (m >>= λ a. lift (make a))) s).0 ≡ guarded test (m s).0 make
  unfolding ◌>>=◌ lift
  guarded_give (err e) m make s = refl
  guarded_give {A} {B} (ok u) m make s = last (m s)
    where
      last : (r : Result A × S) → (followed r (λ a. λ t. (make a, t))).0 ≡ guarded (ok u) r.0 make
      last (err e, c) = refl
      last (ok a, c) = refl
