-- ===== src/Generator/EventId/Examples.antt =====
-- Ids at concrete counters.
use live_data_architecture.Base.{◌≡◌, ◌≢◌, refl, arith, ◌+◌}
use live_data_architecture.Generator.Hex.{codes, format_hex}
use live_data_architecture.Generator.EventId.{IdSource, choose_event_id}
use live_data_architecture.Generator.EventId.Unique.{
  after, event_id-injective, choose_event_id_fresh,
}

abbrev source : IdSource
source = record { event_id_prefix = 0xbeef; event_sequence = 41 }

forty_second : (choose_event_id source).0 ≡ codes "evt_0000beeff519f86ee2385b72"
unfolding choose_event_id format_hex
forty_second = refl

event_id-injective_example : (source.event_id_prefix ≡ 0xbeef) × (source.event_sequence + 1 ≡ 42)
event_id-injective_example =
    event_id-injective source.event_id_prefix 0xbeef (source.event_sequence + 1) 42 (omega arith)
      (omega arith) refl

choose_event_id_fresh_example :
    (choose_event_id (after 0 source)).0 ≢ (choose_event_id (after 3 source)).0
choose_event_id_fresh_example = choose_event_id_fresh source 0 3 (omega arith) (omega arith)
