-- ===== src/Stateful.antt =====
-- A computation that reads and writes a state, and that may raise: what it wrote before stays.
use the_council.Result.{Result, ok, err}

abbrev pub Stateful : Type 0 → Type 0 → Type 0
Stateful S A = S → Result A × S

module _ {S : Type 0} where
  abbrev pub followed : {A B : Type 0} → Result A × S → (A → Stateful S B) → Result B × S
  followed (ok a, s) next = next a s
  followed (err e, s) next = (err e, s)

  infixl 5 ◌>>=◌ ◌>>◌
  unfoldable pub ◌>>=◌ : {A B : Type 0} → Stateful S A → (A → Stateful S B) → Stateful S B
  m >>= next = λ s. followed (m s) next

  abbrev pub ◌>>◌ : {A B : Type 0} → Stateful S A → Stateful S B → Stateful S B
  m >> next = m >>= λ a. next

  unfoldable pub lift : {A : Type 0} → Result A → Stateful S A
  lift r = λ s. (r, s)
