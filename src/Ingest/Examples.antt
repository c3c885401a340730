-- ===== src/Ingest/Examples.antt =====
-- Polls of the stream and the table of the two modules below.
mod Client
mod Table
use live_data_architecture.Base.{
  some-injective, ℕ, suc, ◌≤◌, String, ◌≡◌, inl, inr, refl, sym, ap, subst, Bool, true, false, none,
  some, List, [], ◌∷◌, arith, ◌==◌, length, All, contains, eq_iff, eq_refl, if◌then◌else◌,
  Bool-cases,
}
use live_data_architecture.Base.Results.{Result, ok, err, ok-injective}
use live_data_architecture.Generator.{EventType, TrafficPhase}
use live_data_architecture.Ingest.{EventSchemaVersion, WebEvent, WebEventPayload}
use live_data_architecture.Ingest.Stream.{
  Decoders, StreamError, StreamConfig, StreamMessage, Redis, RedisText, RedisReadGroupEntries,
  decode_text, concat_entries, read_batch, ack_many,
}
use live_data_architecture.Ingest.Store.{StoreError, EventRecord, EventTable, ingest}
use live_data_architecture.Ingest.Poll.{
  EventStreamIngestionPollResult, World, on_redis, event_of, coerce_payload, sort_messages,
  poll_once,
}
use live_data_architecture.Ingest.Delivery.{IsKept, poll_once_keeps}
use live_data_architecture.Ingest.Delivery.Sorting.{DistinctIds}
use live_data_architecture.Ingest.Loop.{run_forever}
use live_data_architecture.Ingest.Loop.Safety.{IsSafe, RetainsEntry, run_forever_delivers}
use live_data_architecture.Ingest.Counts.{AddsUp, poll_once_counts}
use live_data_architecture.Ingest.Examples.Client.{good, decoders, redis, message, entries}
use live_data_architecture.Ingest.Examples.Table.{table}

abbrev config : StreamConfig
config = record { batch_size = 100; block_ms = 5000 }

abbrev start : World decoders redis config table
start = record { redis = []; database = [] }

abbrev batch : List (StreamMessage decoders)
batch =
    record { message_id = "1-0"; payload = "good" }
    ∷ record { message_id = "2-0"; payload = "bad" }
    ∷ []

abbrev result : EventStreamIngestionPollResult
result = record {
  read_count = 2;
  valid_count = 1;
  invalid_count = 1;
  acked_count = 2;
  inserted_count = 1;
  store_failed = false;
}

batch_read :
    on_redis decoders redis config table (read_batch decoders redis config) start
    ≡ (ok batch, record { redis = "1-0" ∷ "2-0" ∷ []; database = [] })
unfolding read_batch
batch_read = refl

-- The poll stores the one event and acknowledges both messages.
polled :
    poll_once decoders redis config table start
    ≡ (ok result, record { redis = []; database = "evt_1" ∷ [] })
unfolding poll_once read_batch ack_many sort_messages ingest
polled = refl

poll_once_keeps_example :
    All (IsKept decoders redis config table (poll_once decoders redis config table start).1) batch
poll_once_keeps_example =
    poll_once_keeps decoders redis config table start
      (record { redis = "1-0" ∷ "2-0" ∷ []; database = [] }) batch batch_read (refl, (refl, tt))

poll_once_counts_example :
    (ms : List (StreamMessage decoders)) × (w₁ : World decoders redis config table) × (on_redis
        decoders redis config table
        (read_batch decoders redis config)
        start
      ≡ (ok ms, w₁))
    × AddsUp decoders redis config table ms w₁
        (record { redis = []; database = "evt_1" ∷ [] })
        result
poll_once_counts_example =
    poll_once_counts decoders redis config table start
      (record { redis = []; database = "evt_1" ∷ [] }) result polled

abbrev good_event : WebEvent ℕ ℕ
good_event = event_of decoders good

false-not-true : false ≡ true → ⊥
false-not-true h = cc

other_id : ◌≡◌ {A = String} "2-0" "1-0" → ⊥
other_id e = false-not-true (ap (λ i. i == "1-0") e)

good_valid : coerce_payload decoders "good" ≡ some good_event
unfolding coerce_payload
good_valid = refl

read_lem :
    (s s' : List String) (ms : List (StreamMessage decoders))
    → read_batch decoders redis config s ≡ (ok ms, s')
    → batch ≡ ms
unfolding read_batch
read_lem s s' ms h =
    ok-injective
      (ap (λ (x : Result StreamError (List (StreamMessage decoders)) × List String). x.0) h)

redis-RetainsEntry : RetainsEntry decoders redis config table "1-0" "good"
redis-RetainsEntry = record {
  distinct = λ s s' ms h. subst (DistinctIds decoders) (read_lem s s' ms h) (refl, (refl, tt));
  retained = λ s s' ms h.
      subst (All (λ (m : StreamMessage decoders). m.message_id ≡ "1-0" → m.payload ≡ "good"))
        (read_lem s s' ms h) (λ e. refl, (λ e. absurd (other_id e), tt));
}

run_forever_delivers_example :
    IsSafe decoders redis config table "1-0" good_event
      (run_forever decoders redis config table 3 (record {
        group_ready = false;
        world = record { redis = "1-0" ∷ []; database = [] };
      })).world
run_forever_delivers_example =
    run_forever_delivers decoders redis config table "1-0" good_event "good" good_valid
      redis-RetainsEntry 3
      (record { group_ready = false; world = record { redis = "1-0" ∷ []; database = [] } })
      (inl refl)
