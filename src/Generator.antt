-- ===== src/Generator.antt =====
-- event_generator/: the independent producer. This module holds event_generator/models.py.
pub mod Hex
pub mod EventId
pub mod Rng
pub mod Traffic
pub mod Clock
pub mod FakerCatalog
pub mod Events

pub data EventType : Type 0 where
  page_view product_click add_to_cart purchase checkout_error : EventType

pub data TrafficPhase : Type 0 where
  slow normal burst : TrafficPhase
