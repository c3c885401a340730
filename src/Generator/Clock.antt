-- ===== src/Generator/Clock.antt =====
-- The timestamps of event_generator/generator.py: `_choose_occurred_at` and what it calls, with the
-- check of the constructor. Times are in UTC already: `astimezone` and the clock that stands in
-- for a missing reference time are outside the model.
pub mod Window
mod Examples
use live_data_architecture.Base.{
  ℕ, zero, suc, ◌+◌, ◌*◌, ◌/◌, ◌%◌, Bool, not, ◌&&◌, ◌||◌, Option, none, some, List, [], ◌∷◌, map,
  ltb, eqb, if◌then◌else◌, get_elem?,
}
use live_data_architecture.Base.Results.{Result, ok, err}
use live_data_architecture.Generator.{TrafficPhase}
use live_data_architecture.Generator.Rng.{Rng, weight_at}

-- A `datetime`; `date` is its proleptic ordinal.
pub record DateTime : Type 0 where
  pub date : ℕ
  pub hour : ℕ
  pub minute : ℕ
  pub second : ℕ
  pub microsecond : ℕ

-- The order of datetimes is that of their microseconds.
abbrev pub microseconds : DateTime → ℕ
microseconds t =
    (((t.date * 24 + t.hour) * 60 + t.minute) * 60 + t.second) * 1_000_000 + t.microsecond

pub data ClockError : Type 0 where
  future_start_time : ClockError
  -- `choices` with no hours to choose from, and `randrange` of an empty range
  no_hours empty_range : ClockError

-- `_ensure_start_time_is_not_future`
unfoldable pub ensure_start_time_is_not_future : DateTime → DateTime → Result ClockError (Unit {0})
ensure_start_time_is_not_future start reference =
    if ltb (microseconds reference) (microseconds start)
    then err ClockError.future_start_time
    else ok tt

-- `_HOUR_WEIGHTS_BY_PHASE`
unfoldable pub hour_weights : TrafficPhase → List ℕ
hour_weights TrafficPhase.slow =
    9 ∷ 9 ∷ 8 ∷ 7 ∷ 7 ∷ 6 ∷ 5 ∷ 4 ∷ 3 ∷ 2 ∷ 2 ∷ 2 ∷ 2 ∷ 2 ∷ 2 ∷ 2 ∷ 3 ∷ 4 ∷ 5 ∷ 6 ∷ 6 ∷ 7 ∷ 8 ∷ 9
    ∷ []
hour_weights TrafficPhase.normal =
    2 ∷ 1 ∷ 1 ∷ 1 ∷ 1 ∷ 2 ∷ 4 ∷ 6 ∷ 8 ∷ 9 ∷ 10 ∷ 10 ∷ 9 ∷ 9 ∷ 9 ∷ 9 ∷ 10 ∷ 10 ∷ 9 ∷ 8 ∷ 7 ∷ 6 ∷ 4
    ∷ 3 ∷ []
hour_weights TrafficPhase.burst =
    1 ∷ 1 ∷ 1 ∷ 1 ∷ 1 ∷ 1 ∷ 2 ∷ 4 ∷ 7 ∷ 9 ∷ 10 ∷ 12 ∷ 12 ∷ 10 ∷ 9 ∷ 10 ∷ 12 ∷ 15 ∷ 18 ∷ 20 ∷ 18 ∷ 14
    ∷ 8 ∷ 4 ∷ []

-- The event date is the date of the start time, so the comparison of those two always holds; it
-- is kept as the source writes it.
module _ (start reference : DateTime) where
  unfoldable pub is_allowed_hour : ℕ → Bool
  is_allowed_hour hour =
      let is_before_start = eqb start.date start.date && ltb hour start.hour in
      let is_after_reference = eqb start.date reference.date && ltb reference.hour hour in
      not (is_before_start || is_after_reference)

  -- The hours from `first` on that are allowed, as many as `count` of them being tried.
  unfoldable pub allowed_hours_from : ℕ → ℕ → List ℕ
  unfolding is_allowed_hour
  allowed_hours_from zero first = []
  allowed_hours_from (suc count) first =
      let rest = allowed_hours_from count (first + 1) in
      if is_allowed_hour first then first ∷ rest else rest

  unfoldable pub allowed_hours : List ℕ
  unfolding allowed_hours_from
  allowed_hours = allowed_hours_from 24 0

  unfoldable pub millisecond_bounds : ℕ → ℕ × ℕ
  millisecond_bounds hour = (
    (if eqb start.date start.date && eqb hour start.hour
        then start.minute * 60_000 + start.second * 1_000 + start.microsecond / 1_000
        else 0),
    (if eqb start.date reference.date && eqb hour reference.hour
        then reference.minute * 60_000 + reference.second * 1_000 + reference.microsecond / 1_000
        else 3_599_999),
  )

  unfoldable pub time_at : ℕ → ℕ → DateTime
  time_at hour millisecond_of_hour = record {
    date = start.date;
    hour = hour;
    minute = millisecond_of_hour / 60_000;
    second = millisecond_of_hour % 60_000 / 1_000;
    microsecond = millisecond_of_hour % 60_000 % 1_000 * 1_000;
  }

  -- Minute, second and millisecond are taken from one random number of the hour's milliseconds.
  -- `randrange(a, b + 1)` is `randint(a, b)`, and raises where nothing lies between.
  module _ (R : Rng) where
    open R use {State, randint, choices}

    unfoldable pub choose_millisecond : ℕ → State → Result ClockError DateTime × State
    unfolding millisecond_bounds time_at
    choose_millisecond hour s =
        let (lower_bound, upper_bound) = millisecond_bounds hour in
        let (millisecond_of_hour, s') = randint lower_bound upper_bound s in
        if ltb upper_bound lower_bound
        then (err ClockError.empty_range, s)
        else (ok (time_at hour millisecond_of_hour), s')

    unfoldable pub choose_in_hour : Option ℕ → State → Result ClockError DateTime × State
    choose_in_hour none s = (err ClockError.no_hours, s)
    choose_in_hour (some hour) s = choose_millisecond hour s

    unfoldable pub choose_occurred_at : TrafficPhase → State → Result ClockError DateTime × State
    unfolding choose_in_hour
    choose_occurred_at phase s =
        let weights = map (weight_at (hour_weights phase)) allowed_hours in
        let (position, s') = choices weights s in
        choose_in_hour (get_elem? allowed_hours position) s'
