-- ===== src/Telemetry/History.antt =====
-- The history of a bus under any calls.
use the_council.Prelude.{
  arith, ℕ, suc, ◌+◌, ◌≤◌, ◌≡◌, refl, List, [], ◌∷◌, ◌++◌, String, length, length-append, ltb,
  Bool-cases, inl, inr, mem_text,
}
use the_council.Result.{ok}
use the_council.Telemetry.Bus.{
  TelemetryEvent, EventFilter, InMemoryEventBus, trim, new_bus, accept, sequenced, publish,
  subscribe, unsubscribe,
}

pub data Call (P : Type 0) : Type 0 where
  publication : TelemetryEvent P → Call P
  subscription : String → EventFilter → Call P
  cancellation : String → Call P

length-trim : {A : Type 0} (limit : ℕ) (xs : List A) → length (trim limit xs) ≤ limit
unfolding trim
length-trim limit [] = omega arith
length-trim limit (x ∷ xs) = ground (arith, length-trim limit xs)

module _ {P : Type 0} where
  unfoldable pub answer : InMemoryEventBus P → Call P → InMemoryEventBus P
  answer self (publication event) = (publish self event).0
  answer self (subscription subscription_id filter) = subscribe self subscription_id filter
  answer self (cancellation subscription_id) = unsubscribe self subscription_id

  unfoldable pub answer_all : InMemoryEventBus P → List (Call P) → InMemoryEventBus P
  answer_all self [] = self
  answer_all self (c ∷ calls) = answer_all (answer self c) calls

  -- The events are numbered from a number on, without a gap.
  abbrev pub AreNumbered : ℕ → List (TelemetryEvent P) → Type 0
  AreNumbered n [] = Unit
  AreNumbered n (e ∷ es) = (e.sequence ≡ n) × AreNumbered (n + 1) es

  -- The history ends with the watermark, has no gap, and keeps its limits.
  pub record IsHistory (self : InMemoryEventBus P) : Type 0 where
    pub first : ℕ
    pub numbered : AreNumbered first self.events
    pub ends : first + length self.events ≡ self.sequence + 1
    pub bounded : length self.events ≤ self.history_limit
    pub remembered : length self.event_ids ≤ self.dedup_limit

  AreNumbered-append :
      (n : ℕ) (es : List (TelemetryEvent P)) (e : TelemetryEvent P)
      → AreNumbered n es
      → e.sequence ≡ n + length es
      → AreNumbered n (es ++ e ∷ [])
  AreNumbered-append n [] e h k = (omega (arith, k), tt)
  AreNumbered-append n (x ∷ es) e (h, hs) k =
      (h, AreNumbered-append (n + 1) es e hs (omega (arith, k)))

  trim-AreNumbered :
      (limit n : ℕ) (es : List (TelemetryEvent P))
      → AreNumbered n es
      → (m : ℕ) × AreNumbered m (trim limit es) × (m + length (trim limit es) ≡ n + length es)
  unfolding trim
  trim-AreNumbered limit n [] h = (n, tt, refl)
  trim-AreNumbered limit n (e ∷ es) (h, hs) =
      let (m, numbered, same) = trim-AreNumbered limit (n + 1) es hs in
      elim (Bool-cases (ltb limit (suc (length es)))) [
        | inl b ↦ rw b (m, numbered, omega (arith, same))
        | inr b ↦ rw b (n, (h, hs), refl)
      ]

  accept-IsHistory :
      (self : InMemoryEventBus P) (event : TelemetryEvent P)
      → IsHistory self
      → IsHistory (accept self event)
  accept-IsHistory self event h =
      let longer =
        AreNumbered-append h.first self.events (sequenced self event) h.numbered
          (omega (arith, h.ends)) in
      let (first, numbered, same) =
        trim-AreNumbered self.history_limit h.first (self.events ++ sequenced self event ∷ [])
          longer in
      record {
        first = first;
        numbered = numbered;
        ends = omega (arith, same, h.ends, length-append self.events (sequenced self event ∷ []));
        bounded = length-trim self.history_limit (self.events ++ sequenced self event ∷ []);
        remembered = length-trim self.dedup_limit (self.event_ids ++ event.event_id ∷ []);
      }

  answer-IsHistory :
      (self : InMemoryEventBus P) (c : Call P) → IsHistory self → IsHistory (answer self c)
  unfolding answer publish subscribe unsubscribe
  answer-IsHistory self (publication event) h =
      elim (Bool-cases (mem_text event.event_id self.event_ids)) [
        | inl b ↦ rw (answer, publish, b) h
        | inr b ↦ rw (answer, publish, b) (accept-IsHistory self event h)
      ]
  answer-IsHistory self (subscription subscription_id filter) h = record {
    first = h.first;
    numbered = h.numbered;
    ends = h.ends;
    bounded = h.bounded;
    remembered = h.remembered;
  }
  answer-IsHistory self (cancellation subscription_id) h = record {
    first = h.first;
    numbered = h.numbered;
    ends = h.ends;
    bounded = h.bounded;
    remembered = h.remembered;
  }

  answer_all-IsHistory :
      (self : InMemoryEventBus P) (calls : List (Call P))
      → IsHistory self
      → IsHistory (answer_all self calls)
  unfolding answer_all
  answer_all-IsHistory self [] h = h
  answer_all-IsHistory self (c ∷ calls) h =
      answer_all-IsHistory (answer self c) calls (answer-IsHistory self c h)

  -- Whatever calls a new bus answers, its history is numbered without a gap up to its watermark, and
  -- neither the history nor the memory of identities exceeds its limit.
  pub new_bus-IsHistory :
      (history_limit dedup_limit : ℕ) (stream_id : String) (self : InMemoryEventBus P)
      (calls : List (Call P))
      → new_bus history_limit dedup_limit stream_id ≡ ok self
      → IsHistory (answer_all self calls)
  unfolding new_bus
  new_bus-IsHistory history_limit dedup_limit stream_id self calls h =
      let empty : (self.events ≡ []) × (self.sequence ≡ 0) × (self.event_ids ≡ []) = ground arith in
      answer_all-IsHistory self calls (record {
        first = 1;
        numbered = rw empty.0 tt;
        ends = ground arith;
        bounded = ground arith;
        remembered = ground arith;
      })
