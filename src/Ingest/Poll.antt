-- ===== src/Ingest/Poll.antt =====
-- `EventStreamIngestionLoop.poll_once` of backend/app/event_analytics/interface/consumer_lifespan.py.
use live_data_architecture.Base.{
  ℕ, ◌+◌, String, Bool, true, false, Option, none, some, List, [], ◌∷◌, length,
}
use live_data_architecture.Base.Results.{Result, ok, err}
use live_data_architecture.Ingest.{WebEvent, WebEventPayload}
use live_data_architecture.Base.Action.{Action, pure, ◌>>=◌}
use live_data_architecture.Ingest.Stream.{
  Decoders, StreamError, StreamConfig, StreamMessage, Redis, read_batch, ack_many,
}
use live_data_architecture.Ingest.Store.{StoreError, EventTable, IngestEventsResult, ingest}

pub record EventStreamIngestionPollResult : Type 0 where
  pub read_count : ℕ
  pub valid_count : ℕ
  pub invalid_count : ℕ
  pub acked_count : ℕ
  pub inserted_count : ℕ
  pub store_failed : Bool

module _ (D : Decoders) where
  open D use {Datetime, Decimal, JsonObject, model_validate}

  unfoldable pub event_of : WebEventPayload Datetime Decimal → WebEvent Datetime Decimal
  event_of parsed = record {
    schema_version = parsed.schema_version;
    event_id = parsed.event_id;
    event_type = parsed.event_type;
    occurred_at = parsed.occurred_at;
    user_id = parsed.user_id;
    traffic_phase = parsed.traffic_phase;
    producer_id = parsed.producer_id;
    page_path = parsed.page_path;
    category_id = parsed.category_id;
    product_id = parsed.product_id;
    amount = parsed.amount;
    currency = parsed.currency;
    error_code = parsed.error_code;
    error_message = parsed.error_message;
  }

  -- `_coerce_payload`
  unfoldable pub coerce_payload : JsonObject → Option (WebEvent Datetime Decimal)
  unfolding event_of
  coerce_payload payload = elim (model_validate payload) [
    | none ↦ none
    | some parsed ↦ some (event_of parsed)
  ]

  -- The three lists that the loop over the messages fills.
  pub record SortedMessages : Type 0 where
    pub valid_events : List (WebEvent Datetime Decimal)
    pub valid_message_ids : List String
    pub invalid_message_ids : List String

  abbrev pub add_message :
      String → Option (WebEvent Datetime Decimal) → SortedMessages → SortedMessages
  add_message id none rest = record rest { invalid_message_ids = id ∷ rest.invalid_message_ids }
  add_message id (some event) rest = record rest {
    valid_events = event ∷ rest.valid_events;
    valid_message_ids = id ∷ rest.valid_message_ids;
  }

  unfoldable pub sort_messages : List (StreamMessage D) → SortedMessages
  unfolding coerce_payload
  sort_messages [] = record { valid_events = []; valid_message_ids = []; invalid_message_ids = [] }
  sort_messages (m ∷ messages) =
      add_message m.message_id (coerce_payload m.payload) (sort_messages messages)

  module _ (R : Redis D) (config : StreamConfig) (T : EventTable Datetime Decimal) where
    -- What a poll changes.
    pub record World : Type 0 where
      pub redis : R.State
      pub database : T.State

    abbrev pub on_redis : {A : Type 0} → Action R.State StreamError A → Action World StreamError A
    on_redis call w = let (answer, redis) = call w.redis in (answer, record w { redis = redis })

    -- A call of the use case whose exception is caught.
    abbrev pub attempt :
        {A : Type 0} → Action T.State StoreError A → Action World StreamError (Result StoreError A)
    attempt call w =
        let (answer, database) = call w.database in (ok answer, record w { database = database })

    abbrev pub stored_result :
        ℕ
        → SortedMessages
        → ℕ
        → IngestEventsResult Datetime Decimal
        → ℕ
        → EventStreamIngestionPollResult
    stored_result read_count sorted acked_count result acked = record {
      read_count = read_count;
      valid_count = length sorted.valid_events;
      invalid_count = length sorted.invalid_message_ids;
      acked_count = acked_count + acked;
      inserted_count = result.inserted_count;
      store_failed = false;
    }

    -- What is left to do once the use case was called.
    unfoldable pub finish :
        ℕ
        → SortedMessages
        → ℕ
        → Result StoreError (IngestEventsResult Datetime Decimal)
        → Action World StreamError EventStreamIngestionPollResult
    finish read_count sorted acked_count (err e) = pure (record {
      read_count = read_count;
      valid_count = length sorted.valid_events;
      invalid_count = length sorted.invalid_message_ids;
      acked_count = acked_count;
      inserted_count = 0;
      store_failed = true;
    })
    finish read_count sorted acked_count (ok result) = do
      acked ← on_redis (ack_many D R config sorted.valid_message_ids)
      pure (stored_result read_count sorted acked_count result acked)

    -- `if valid_events`
    unfoldable pub store_valid :
        ℕ
        → SortedMessages
        → ℕ
        → List (WebEvent Datetime Decimal)
        → Action World StreamError EventStreamIngestionPollResult
    unfolding finish
    store_valid read_count sorted acked_count [] = pure (record {
      read_count = read_count;
      valid_count = length sorted.valid_events;
      invalid_count = length sorted.invalid_message_ids;
      acked_count = acked_count;
      inserted_count = 0;
      store_failed = false;
    })
    store_valid read_count sorted acked_count (e ∷ events) = do
      result ← attempt (ingest Datetime Decimal T (e ∷ events))
      finish read_count sorted acked_count result

    unfoldable pub poll_messages :
        List (StreamMessage D) → Action World StreamError EventStreamIngestionPollResult
    unfolding store_valid
    poll_messages messages = do
      acked_count ← on_redis (ack_many D R config (sort_messages messages).invalid_message_ids)
      store_valid (length messages) (sort_messages messages) acked_count
          (sort_messages messages).valid_events

    unfoldable pub poll_once : Action World StreamError EventStreamIngestionPollResult
    unfolding poll_messages
    poll_once = do messages ← on_redis (read_batch D R config); poll_messages messages
