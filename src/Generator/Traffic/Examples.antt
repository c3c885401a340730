-- ===== src/Generator/Traffic/Examples.antt =====
-- The traffic profile with a source of numbers that always picks the first choice and the lower
-- bound, so that every window is a normal one of the shortest length.
use live_data_architecture.Base.{◌*◌, ◌≤◌, ◌≡◌, ◌↔◌, refl, none, some, arith}
use live_data_architecture.Base.Results.{ok}
use live_data_architecture.Generator.{TrafficPhase}
use live_data_architecture.Generator.Rng.Fixed.{fixed_rng}
use live_data_architecture.Generator.Traffic.{
  TrafficProfileConfig, TrafficProfile, choose_window, next_phase, rotate, for_phase,
}
use live_data_architecture.Generator.Traffic.Windows.{
  IsValidConfig, configure, config_of, configure_iff, replicate, ProfileFits, next_phases,
  next_phase-Fits, window_emits,
}

abbrev config : TrafficProfileConfig
config = config_of 1 5 20 1 3

config-IsValidConfig : IsValidConfig config
config-IsValidConfig = omega arith

abbrev fresh : TrafficProfile fixed_rng
fresh = record { rng = tt; current_window = none; remaining_events_in_window = 0 }

first_phase : (next_phase fixed_rng config fresh).0 ≡ ok TrafficPhase.normal
unfolding next_phase rotate choose_window
first_phase = refl

configure_iff_example :
    (configure 1 5 20 1 3 ≡ ok (config_of 1 5 20 1 3)) ↔ IsValidConfig (config_of 1 5 20 1 3)
configure_iff_example = configure_iff 1 5 20 1 3

next_phase-Fits_example :
    (phase : TrafficPhase) × ((next_phase fixed_rng config fresh).0 ≡ ok phase)
    × ProfileFits fixed_rng config (next_phase fixed_rng config fresh).1
next_phase-Fits_example = next_phase-Fits fixed_rng config config-IsValidConfig fresh refl

window_emits_example :
    let (w, s) = choose_window fixed_rng config fresh.rng in
    (next_phases fixed_rng config w.event_capacity fresh ≡ (
      replicate w.event_capacity (ok w.phase),
      record { rng = s; current_window = some w; remaining_events_in_window = 0 },
    ))
    × (w.event_capacity ≡ w.duration_seconds * for_phase config.rates w.phase)
    × (config.min_phase_seconds ≤ w.duration_seconds)
    × (w.duration_seconds ≤ config.max_phase_seconds)
window_emits_example = window_emits fixed_rng config config-IsValidConfig fresh refl
