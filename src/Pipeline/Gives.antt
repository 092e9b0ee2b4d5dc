-- ===== src/Pipeline/Gives.antt =====
-- What a step of the pipeline gives, if it gives anything.
use the_council.Prelude.{arith, ℕ, ◌≡◌, refl, false, List, String}
use the_council.Floats.{Float}
use the_council.Datetime.{aware}
use the_council.Result.{Result, ok, err, refuse, future_snapshot, ok-injective}
use the_council.Schemas.Market.{MarketSnapshot}
use the_council.Schemas.Signal.{AgentSignal, CouncilDecision}
use the_council.Council.Aggregator.{aggregate}
use the_council.Risk.Evaluate.{evaluate}
use mathlib.Core.Path.{subst}
use the_council.Stateful.{Stateful, followed, lift, ◌>>=◌}
use the_council.Pipeline.World.{World}
use the_council.Pipeline.Desk.{Desk, Prepared, is_late}
use the_council.Pipeline.Run.{deliberate, judge}

module _ {F : Type 0} where
  pub record Gives {A : Type 0} (P : A → Type 0) (m : Stateful (World F) A) : Type 0 where
    pub gives : (w : World F) (a : A) → (m w).0 ≡ ok a → P a

  followed-eq-ok :
      {A B : Type 0} (x : Result A × World F) (next : A → Stateful (World F) B) (b : B)
      → (followed x next).0 ≡ ok b
      → (a : A) × (x.0 ≡ ok a) × ((next a x.1).0 ≡ ok b)
  followed-eq-ok (ok a, v) next b h = (a, refl, h)
  followed-eq-ok (err e, v) next b h = absurd (cc)

  bind-eq-ok :
      {A B : Type 0} (m : Stateful (World F) A) (next : A → Stateful (World F) B) (w : World F)
      (b : B)
      → ((m >>= next) w).0 ≡ ok b
      → (a : A) × ((m w).0 ≡ ok a) × ((next a (m w).1).0 ≡ ok b)
  unfolding ◌>>=◌
  bind-eq-ok m next w b h = followed-eq-ok (m w) next b h

  -- After any step, and after one that repeats a result.
  skip :
      {A B : Type 0} {P : B → Type 0} (m : Stateful (World F) A) {next : A → Stateful (World F) B}
      → ((a : A) → Gives P (next a))
      → Gives P (m >>= next)
  skip m {next = next} k = record {
    gives = λ w b h. let (a, _, rest) = bind-eq-ok m next w b h in (k a).gives (m w).1 b rest;
  }

  lift-eq-ok : {A : Type 0} (r : Result A) (w : World F) (a : A) → (lift r w).0 ≡ ok a → r ≡ ok a
  unfolding lift
  lift-eq-ok r w a h = h

  after_ok :
      {A B : Type 0} {P : B → Type 0} (r : Result A) {next : A → Stateful (World F) B}
      → ((a : A) → r ≡ ok a → Gives P (next a))
      → Gives P (lift r >>= next)
  after_ok r {next = next} k = record {
    gives = λ w b h.
        let (a, e, rest) = bind-eq-ok (lift r) next w b h in
        (k a (lift-eq-ok r w a e)).gives (lift r w).1 b rest;
  }

  done : {A : Type 0} {P : A → Type 0} (a : A) → P a → Gives P (lift (ok a))
  done {P = P} a p = record { gives = λ w b h. subst P (ok-injective (lift-eq-ok (ok a) w b h)) p }

module _ {F M : Type 0} ⦃f : Float F⦄ (desk : Desk F M) (symbol timeframe : String)
    (evaluated : ℕ) where
  -- The council's decision, on a snapshot that is not late.
  abbrev pub IsFound : MarketSnapshot F × List (AgentSignal F) × CouncilDecision F → Type 0
  IsFound (snapshot, signals, decision) =
      (desk.snapshot symbol timeframe evaluated ≡ ok snapshot)
      × (is_late evaluated snapshot ≡ false)
      × (aggregate desk.config desk.decision_id snapshot signals ≡ ok decision)

  pub deliberate-Gives : Gives IsFound (deliberate desk symbol timeframe evaluated)
  unfolding deliberate
  deliberate-Gives = skip _ λ _. after_ok (desk.snapshot symbol timeframe evaluated) λ snapshot a.
      after_ok (refuse (is_late evaluated snapshot) future_snapshot) λ u b. skip _ λ _.
        skip _ λ context. skip _ λ _. skip _ λ _. skip _ λ signals. skip _ λ _. skip _ λ _.
          after_ok (aggregate desk.config desk.decision_id snapshot signals)
            λ decision c. skip _ λ _. done _ (a, ground arith, c)

  abbrev pub IsJudged :
      MarketSnapshot F × List (AgentSignal F) × CouncilDecision F → Prepared F → Type 0
  IsJudged (snapshot, signals, decision) p =
      (p.snapshot ≡ snapshot)
      × (p.signals ≡ signals)
      × (p.council_decision ≡ decision)
      × (evaluate desk.authorization_id desk.policy decision snapshot p.marked p.costs
            (aware evaluated)
          ≡ ok p.risk_decision)

  pub judge-Gives :
      (found : MarketSnapshot F × List (AgentSignal F) × CouncilDecision F)
      → Gives (IsJudged found) (judge desk symbol timeframe evaluated found)
  unfolding judge
  judge-Gives (snapshot, signals, decision) = skip _ λ _. skip _ λ before. skip _ λ observations.
      skip _ λ marked. skip _ λ _. skip _ λ _. skip _ λ _. skip _ λ costs.
        after_ok
          (evaluate desk.authorization_id desk.policy decision snapshot marked costs
            (aware evaluated))
          λ risk h. skip _ λ _. skip _ λ _. skip _ λ _. done _ (refl, refl, refl, h)
