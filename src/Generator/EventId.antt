-- ===== src/Generator/EventId.antt =====
-- Event ids of event_generator/generator.py: `_choose_event_id`, with the counter that it permutes.
pub mod Unique
mod Examples
use live_data_architecture.Base.{ℕ, ◌+◌, ◌*◌, ◌%◌, ◌^◌, List, ◌++◌}
use live_data_architecture.Generator.Hex.{codes, format_hex}

abbrev pub event_id_counter_multiplier : ℕ
event_id_counter_multiplier = 0x9E3779B97F4A7C15

-- `& ((1 << 64) - 1)` keeps the value modulo this.
abbrev pub event_id_counter_modulus : ℕ
event_id_counter_modulus = 2 ^ 64

unfoldable pub permuted_counter : ℕ → ℕ
permuted_counter sequence = sequence * event_id_counter_multiplier % event_id_counter_modulus

-- The two fields of the generator that the method uses.
pub record IdSource : Type 0 where
  pub event_id_prefix : ℕ
  pub event_sequence : ℕ

unfoldable pub event_id : ℕ → ℕ → List ℕ
unfolding permuted_counter
event_id prefix sequence =
    codes "evt_" ++ format_hex 8 prefix ++ format_hex 16 (permuted_counter sequence)

unfoldable pub choose_event_id : IdSource → List ℕ × IdSource
unfolding event_id
choose_event_id g =
    let sequence = g.event_sequence + 1 in
    (event_id g.event_id_prefix sequence, record g { event_sequence = sequence })
