-- ===== src/Pipeline/Stays.antt =====
-- Steps of the pipeline that leave the account as it is.
use the_council.Prelude.{◌≡◌, refl, ◌∙◌}
use the_council.Result.{Result, ok, err}
use the_council.Execution.Paper.{Account, Method}
use the_council.Stateful.{Stateful, followed, lift, ◌>>=◌}
use the_council.Pipeline.World.{World, EventType, emit, call}

module _ {F : Type 0} where
  -- A step that leaves the account as it is.
  pub record Stays {A : Type 0} (m : Stateful (World F) A) : Type 0 where
    pub stays : (w : World F) → (m w).1.account ≡ w.account

  infixr 5 ◌next◌
  pub ◌next◌ :
      {A B : Type 0} {m : Stateful (World F) A} {k : A → Stateful (World F) B}
      → Stays m
      → ((a : A) → Stays (k a))
      → Stays (m >>= k)
  unfolding ◌>>=◌
  ◌next◌ {m = m} {k = k} h g = record { stays = λ w. go w (m w) (h.stays w) }
    where
      go :
          (w : World F) (x : Result _ × World F)
          → x.1.account ≡ w.account
          → (followed x k).1.account ≡ w.account
      go w (ok a, v) e = (g a).stays v ∙ e
      go w (err e, v) d = d

  pub lift-Stays : {A : Type 0} (r : Result A) → Stays (lift r)
  unfolding lift
  lift-Stays r = record { stays = λ w. refl }

  pub emit-Stays : (e : EventType) → Stays {A = Unit {0}} (emit e)
  unfolding emit
  emit-Stays e = record { stays = λ w. refl }

  pub read-Stays : {A : Type 0} (view : Account F → Result A) → Stays (call (λ a. (view a, a)))
  unfolding call
  read-Stays view = record { stays = λ w. refl }

  pub followed-account :
      {A B : Type 0} (m : Stateful (World F) A) (k : A → Stateful (World F) B) (w : World F)
      → ((a : A) → Stays (k a))
      → ((m >>= k) w).1.account ≡ (m w).1.account
  unfolding ◌>>=◌
  followed-account m k w h = go (m w)
    where
      go : (x : Result _ × World F) → (followed x k).1.account ≡ x.1.account
      go (ok a, v) = (h a).stays v
      go (err e, v) = refl

pub call-account :
    {F A : Type 0} (method : Account F → Method F A) (w : World F)
    → (call method w).1.account ≡ (method w.account).1
unfolding call
call-account method w = refl
