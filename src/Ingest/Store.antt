-- ===== src/Ingest/Store.antt =====
-- Storing a batch: backend/app/event_analytics/application/ingest_events_usecase.py and
-- infrastructure/repositories/postgres_event_repository.py, over a table that is a parameter.
use live_data_architecture.Base.{
  ℕ, ◌+◌, ◌≤◌, String, ◌≡◌, Bool, true, Option, List, [], ◌∷◌, map, length, All,
}
use live_data_architecture.Base.Results.{ok}
use live_data_architecture.Generator.{EventType, TrafficPhase}
use live_data_architecture.Ingest.{EventSchemaVersion, WebEvent}
use live_data_architecture.Base.Action.{Action, pure, ◌>>=◌}

pub data StoreError : Type 0 where
  store_error : StoreError

-- `str` of a literal type is the literal.
unfoldable pub schema_version_text : EventSchemaVersion → String
schema_version_text EventSchemaVersion.web_event_v1 = "web_event.v1"

unfoldable pub event_type_text : EventType → String
event_type_text EventType.page_view = "page_view"
event_type_text EventType.product_click = "product_click"
event_type_text EventType.add_to_cart = "add_to_cart"
event_type_text EventType.purchase = "purchase"
event_type_text EventType.checkout_error = "checkout_error"

unfoldable pub traffic_phase_text : TrafficPhase → String
traffic_phase_text TrafficPhase.slow = "slow"
traffic_phase_text TrafficPhase.normal = "normal"
traffic_phase_text TrafficPhase.burst = "burst"

module _ (Datetime Decimal : Type 0) where
  -- A row of the table `events`; the database sets `ingested_at`.
  pub record EventRecord : Type 0 where
    pub event_id : String
    pub schema_version : String
    pub event_type : String
    pub occurred_at : Datetime
    pub user_id : String
    pub traffic_phase : String
    pub producer_id : String
    pub page_path : Option String
    pub category_id : Option String
    pub product_id : Option String
    pub amount : Option Decimal
    pub currency : Option String
    pub error_code : Option String
    pub error_message : Option String

  unfoldable pub event_to_record_values : WebEvent Datetime Decimal → EventRecord
  unfolding schema_version_text event_type_text traffic_phase_text
  event_to_record_values event = record {
    event_id = event.event_id;
    schema_version = schema_version_text event.schema_version;
    event_type = event_type_text event.event_type;
    occurred_at = event.occurred_at;
    user_id = event.user_id;
    traffic_phase = traffic_phase_text event.traffic_phase;
    producer_id = event.producer_id;
    page_path = event.page_path;
    category_id = event.category_id;
    product_id = event.product_id;
    amount = event.amount;
    currency = event.currency;
    error_code = event.error_code;
    error_message = event.error_message;
  }

  -- INSERT ... ON CONFLICT (event_id) DO NOTHING RETURNING event_id, in a transaction of its own: when
  -- it commits, each row's id is in the table, and it returns one id for each row that it added.
  pub record EventTable : Type 1 where
    pub State : Type 0
    pub insert_ignoring_conflicts : List EventRecord → Action State StoreError (List String)
    pub stored : State → String → Bool
    pub row_count : State → ℕ
    pub insert-keeps :
        (rows : List EventRecord) (s : State) (id : String)
        → stored s id ≡ true
        → stored (insert_ignoring_conflicts rows s).1 id ≡ true
    pub insert-stores :
        (rows : List EventRecord) (s s' : State) (ids : List String)
        → insert_ignoring_conflicts rows s ≡ (ok ids, s')
        → All (λ row. stored s' row.event_id ≡ true) rows
    pub insert-le :
        (rows : List EventRecord) (s s' : State) (ids : List String)
        → insert_ignoring_conflicts rows s ≡ (ok ids, s')
        → length ids ≤ length rows
    pub insert-counts :
        (rows : List EventRecord) (s s' : State) (ids : List String)
        → insert_ignoring_conflicts rows s ≡ (ok ids, s')
        → row_count s' ≡ row_count s + length ids

  pub record IngestEventsResult : Type 0 where
    pub received_count : ℕ
    pub inserted_count : ℕ

  module _ (T : EventTable) where
    open T use {State, insert_ignoring_conflicts}

    unfoldable pub save_batch : List (WebEvent Datetime Decimal) → Action State StoreError ℕ
    unfolding event_to_record_values
    save_batch [] = pure 0
    save_batch (e ∷ events) = do
      inserted_event_ids ← insert_ignoring_conflicts (map event_to_record_values (e ∷ events))
      pure (length inserted_event_ids)

    unfoldable pub ingest :
        List (WebEvent Datetime Decimal) → Action State StoreError IngestEventsResult
    unfolding save_batch
    ingest [] = pure (record { received_count = 0; inserted_count = 0 })
    ingest (e ∷ events) = do
      inserted_count ← save_batch (e ∷ events)
      pure (record { received_count = length (e ∷ events); inserted_count = inserted_count })
