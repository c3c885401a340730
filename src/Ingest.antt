-- ===== src/Ingest.antt =====
-- Reading events from the Redis stream: the data of backend/app/event_analytics/domain/events.py and
-- interface/schemas/events.py, and the parts that do the work in the children. Redis, the JSON and
-- payload validation libraries and the database are parameters.
pub mod Stream
pub mod Store
pub mod Poll
pub mod Delivery
pub mod Loop
pub mod Counts
mod Examples
use live_data_architecture.Base.{String, Option}
use live_data_architecture.Generator.{EventType, TrafficPhase}

pub data EventSchemaVersion : Type 0 where
  web_event_v1 : EventSchemaVersion

-- The literal types of event types and phases have the members of the generator's enumerations.
pub record WebEvent (Datetime Decimal : Type 0) : Type 0 where
  pub schema_version : EventSchemaVersion
  pub event_id : String
  pub event_type : EventType
  pub occurred_at : Datetime
  pub user_id : String
  pub traffic_phase : TrafficPhase
  pub producer_id : String
  pub page_path : Option String
  pub category_id : Option String
  pub product_id : Option String
  pub amount : Option Decimal
  pub currency : Option String
  pub error_code : Option String
  pub error_message : Option String

-- `WebEventPayload`, once validated
pub record WebEventPayload (Datetime Decimal : Type 0) : Type 0 where
  pub schema_version : EventSchemaVersion
  pub event_id : String
  pub event_type : EventType
  pub occurred_at : Datetime
  pub user_id : String
  pub traffic_phase : TrafficPhase
  pub producer_id : String
  pub page_path : Option String
  pub category_id : Option String
  pub product_id : Option String
  pub amount : Option Decimal
  pub currency : Option String
  pub error_code : Option String
  pub error_message : Option String
