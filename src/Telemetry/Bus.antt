-- ===== src/Telemetry/Bus.antt =====
-- `InMemoryEventBus`. A publication is atomic under the bus's locks. What the subscribers are handed is a
-- result, in the order of the calls; what a handler raises is swallowed. `P` is the type of payloads.
use the_council.Prelude.{
  ℕ, suc, ◌+◌, Bool, true, false, ◌||◌, not, if◌then◌else◌, Option, none, some, List, [], ◌∷◌, ◌++◌,
  String, ◌==◌, mem_text, length, ltb, select, find?, map,
}
use the_council.Dict.{Dict, put, pop}
use the_council.Result.{Result, ok, ◌>>◌, refuse, telemetry_limits}

pub record TelemetryEvent (P : Type 0) : Type 0 where
  pub event_id : String
  pub event_type : String
  pub stream_id : Option String
  pub sequence : ℕ
  pub run_id : String
  pub symbol : Option String
  pub timeframe : Option String
  pub emitted_at : ℕ
  pub payload : P

pub record EventFilter : Type 0 where
  pub symbol : Option String
  pub run_id : Option String
  pub event_types : Option (List String)
  pub timeframe : Option String

-- `wanted is not None and actual != wanted`, for a field that may be missing and for one that is not.
abbrev differs : Option String → Option String → Bool
differs none actual = false
differs (some wanted) none = true
differs (some wanted) (some actual) = not (actual == wanted)

abbrev lacks : Option (List String) → String → Bool
lacks none actual = false
lacks (some wanted) actual = not (mem_text actual wanted)

unfoldable pub matches : {P : Type 0} → EventFilter → TelemetryEvent P → Bool
matches self event = not (
    differs self.symbol event.symbol
    || differs self.run_id (some event.run_id)
    || lacks self.event_types event.event_type
    || differs self.timeframe event.timeframe)

pub record InMemoryEventBus (P : Type 0) : Type 0 where
  pub stream_id : String
  pub sequence : ℕ
  pub events : List (TelemetryEvent P)
  pub history_limit : ℕ
  pub event_ids : List String
  pub dedup_limit : ℕ
  pub subscribers : Dict EventFilter

-- The oldest members leave while there are more than the limit.
unfoldable pub trim : {A : Type 0} → ℕ → List A → List A
trim limit [] = []
trim limit (x ∷ xs) =
    let rest = trim limit xs in if ltb limit (suc (length xs)) then rest else x ∷ xs

module _ {P : Type 0} where
  unfoldable pub new_bus : ℕ → ℕ → String → Result (InMemoryEventBus P)
  new_bus history_limit dedup_limit stream_id = do
    refuse (ltb history_limit 1 || ltb dedup_limit 1) telemetry_limits
    ok (record {
      stream_id = stream_id;
      sequence = 0;
      events = [];
      history_limit = history_limit;
      event_ids = [];
      dedup_limit = dedup_limit;
      subscribers = [];
    })

  abbrev pub sequenced : InMemoryEventBus P → TelemetryEvent P → TelemetryEvent P
  sequenced self event = record event {
    sequence = self.sequence + 1;
    stream_id = some self.stream_id;
  }

  -- The event is kept, numbered, and its identity remembered.
  abbrev pub accept : InMemoryEventBus P → TelemetryEvent P → InMemoryEventBus P
  accept self event = record self {
    sequence = self.sequence + 1;
    events = trim self.history_limit (self.events ++ sequenced self event ∷ []);
    event_ids = trim self.dedup_limit (self.event_ids ++ event.event_id ∷ []);
  }

  -- `publish`: the bus, and the subscriptions that are handed the event.
  unfoldable pub publish :
      InMemoryEventBus P → TelemetryEvent P → InMemoryEventBus P × List (String × TelemetryEvent P)
  publish self event = if mem_text event.event_id self.event_ids then (self, []) else (
    accept self event,
    map (λ (s : String × EventFilter). (s.0, sequenced self event))
        (select (λ (s : String × EventFilter). matches s.1 (sequenced self event))
          self.subscribers),
  )

  -- `subscribe` under a fresh identity, and `unsubscribe`.
  unfoldable pub subscribe : InMemoryEventBus P → String → EventFilter → InMemoryEventBus P
  subscribe self subscription_id filter = record self {
    subscribers = put subscription_id filter self.subscribers;
  }

  unfoldable pub unsubscribe : InMemoryEventBus P → String → InMemoryEventBus P
  unsubscribe self subscription_id = record self {
    subscribers = pop subscription_id self.subscribers;
  }

  unfoldable pub get_event : InMemoryEventBus P → String → Option (TelemetryEvent P)
  get_event self event_id = find? (λ e. e.event_id == event_id) self.events

  unfoldable pub list_events : InMemoryEventBus P → EventFilter → List (TelemetryEvent P)
  list_events self filter = select (matches filter) self.events
