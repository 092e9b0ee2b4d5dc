-- ===== src/Tests/Telemetry.antt =====
-- A bus that keeps two events: the third drops the first, and a repeated one is ignored.
use the_council.Prelude.{◌≡◌, refl, none, some, List, [], ◌∷◌, String, map, ℕ}
use the_council.Result.{ok}
use the_council.Dict.{put, pop}
use the_council.Telemetry.Bus.{
  TelemetryEvent, EventFilter, InMemoryEventBus, matches, trim, new_bus, publish, subscribe,
  unsubscribe,
}
use the_council.Telemetry.History.{
  Call, publication, subscription, answer, answer_all, IsHistory, new_bus-IsHistory,
}

abbrev event_of : String → TelemetryEvent ℕ
event_of name = record {
  event_id = name;
  event_type = "pipeline_started";
  stream_id = none;
  sequence = 0;
  run_id = "run";
  symbol = some "BTC/USD";
  timeframe = none;
  emitted_at = 1;
  payload = 0;
}

abbrev everything : EventFilter
everything = record { symbol = none; run_id = none; event_types = none; timeframe = none }

abbrev bus : InMemoryEventBus ℕ
bus = record {
  stream_id = "stream";
  sequence = 0;
  events = [];
  history_limit = 2;
  event_ids = [];
  dedup_limit = 3;
  subscribers = [];
}

abbrev calls : List (Call ℕ)
calls =
    publication (event_of "a")
    ∷ subscription "s" everything
    ∷ publication (event_of "b")
    ∷ publication (event_of "a")
    ∷ publication (event_of "c")
    ∷ []

kept : map (λ e. e.event_id) (answer_all bus calls).events ≡ "b" ∷ "c" ∷ []
unfolding answer_all answer publish subscribe unsubscribe trim put pop matches
kept = refl

numbers : map (λ e. e.sequence) (answer_all bus calls).events ≡ 2 ∷ 3 ∷ []
unfolding answer_all answer publish subscribe unsubscribe trim put pop matches
numbers = refl

opened : new_bus 2 3 "stream" ≡ ok bus
unfolding new_bus
opened = refl

new_bus-IsHistory_example : IsHistory (answer_all bus calls)
new_bus-IsHistory_example = new_bus-IsHistory 2 3 "stream" bus calls opened
