-- ===== src/Generator/Clock/Examples.antt =====
-- Timestamps of a start and a reference time within one hour of one day.
use live_data_architecture.Base.{◌≡◌, refl, arith, ◌<◌}
use live_data_architecture.Base.Results.{ok}
use live_data_architecture.Generator.{TrafficPhase}
use live_data_architecture.Generator.Rng.Fixed.{fixed_rng}
use live_data_architecture.Generator.Clock.{
  DateTime, microseconds, ensure_start_time_is_not_future, choose_occurred_at, allowed_hours,
  hour_weights, choose_millisecond, millisecond_bounds, time_at,
}
use live_data_architecture.Generator.Clock.Window.{
  IsInWindow, choose_occurred_at-IsInWindow, earliest-lt-start,
}

abbrev start : DateTime
start = record { date = 7; hour = 9; minute = 30; second = 15; microsecond = 250_500 }

abbrev reference : DateTime
reference = record { date = 7; hour = 9; minute = 45; second = 0; microsecond = 999 }

accepted : ensure_start_time_is_not_future start reference ≡ ok tt
unfolding ensure_start_time_is_not_future
accepted = refl

first_time :
    (choose_occurred_at start reference fixed_rng TrafficPhase.burst tt).0
    ≡ ok (record start { microsecond = 250_000 })
unfolding choose_occurred_at allowed_hours choose_millisecond hour_weights
first_time = refl

choose_occurred_at-IsInWindow_example :
    (t : DateTime) × ((choose_occurred_at start reference fixed_rng TrafficPhase.burst tt).0 ≡ ok t)
    × IsInWindow start reference t
choose_occurred_at-IsInWindow_example =
    choose_occurred_at-IsInWindow start reference fixed_rng TrafficPhase.burst tt (omega arith)
      (omega arith) accepted

earliest-lt-start_example :
    microseconds
      (time_at start reference start.hour (millisecond_bounds start reference start.hour).0)
    < microseconds start
earliest-lt-start_example = earliest-lt-start start reference (omega arith) (omega arith)
