-- ===== src/Generator/Clock/Window.antt =====
-- Every timestamp lies between the start time, cut to its millisecond, and the reference time.
use live_data_architecture.Base.{
  ℕ, zero, suc, ◌+◌, ◌%◌, ◌≤◌, ◌<◌, ◌≡◌, refl, true, Option, some, List, [], ◌∷◌, map, arith,
  get_elem?, length, All, Bool-cases, inl, inr,
}
use live_data_architecture.Base.Results.{ok}
use live_data_architecture.Generator.{TrafficPhase}
use live_data_architecture.Generator.Rng.{Rng, sum, weight_at}
use live_data_architecture.Generator.Clock.{
  DateTime, microseconds, ensure_start_time_is_not_future, hour_weights, is_allowed_hour,
  allowed_hours_from, allowed_hours, millisecond_bounds, time_at, choose_millisecond,
  choose_in_hour, choose_occurred_at,
}

-- The fields of a `datetime` are in range.
pub record IsTime (t : DateTime) : Type 0 where
  pub hour : t.hour < 24
  pub minute : t.minute < 60
  pub second : t.second < 60
  pub microsecond : t.microsecond < 1_000_000

weight_at-pos : (ws : List ℕ) (i : ℕ) → All (λ w. 0 < w) ws → i < length ws → 0 < weight_at ws i
weight_at-pos [] i h k = elim k [ ]
weight_at-pos (w ∷ ws) zero h k = h.0
weight_at-pos (w ∷ ws) (suc i) h k = weight_at-pos ws i h.1 (omega arith)

hour_weight_pos :
    (phase : TrafficPhase) (hour : ℕ) → hour < 24 → 0 < weight_at (hour_weights phase) hour
unfolding hour_weights
hour_weight_pos TrafficPhase.slow hour h =
    weight_at-pos (hour_weights TrafficPhase.slow) hour (omega arith) h
hour_weight_pos TrafficPhase.normal hour h =
    weight_at-pos (hour_weights TrafficPhase.normal) hour (omega arith) h
hour_weight_pos TrafficPhase.burst hour h =
    weight_at-pos (hour_weights TrafficPhase.burst) hour (omega arith) h

pick {ℓ} :
    (P : ℕ → Type ℓ) (weight : ℕ → ℕ) (hours : List ℕ) (i : ℕ)
    → All P hours
    → 0 < weight_at (map weight hours) i
    → (hour : ℕ) × (get_elem? hours i ≡ some hour) × P hour
pick P weight [] i h k = elim k [ ]
pick P weight (x ∷ hours) zero h k = (x, refl, h.0)
pick P weight (x ∷ hours) (suc i) h k = pick P weight hours i h.1 k

module _ (start reference : DateTime) where
  -- The hour may hold an event.
  abbrev pub IsAllowed : ℕ → Type 0
  IsAllowed hour =
      (start.hour ≤ hour) × (hour < 24) × (start.date ≡ reference.date → hour ≤ reference.hour)

  is_allowed_hour-IsAllowed :
      (hour : ℕ) → hour < 24 → is_allowed_hour start reference hour ≡ true → IsAllowed hour
  unfolding is_allowed_hour
  is_allowed_hour-IsAllowed hour k h = (ground arith, k, λ e. ground arith)

  allowed_hours_from-All :
      (count first : ℕ)
      → first + count ≤ 24
      → All IsAllowed (allowed_hours_from start reference count first)
  unfolding allowed_hours_from
  allowed_hours_from-All zero first h = tt
  allowed_hours_from-All (suc count) first h =
      elim (Bool-cases (is_allowed_hour start reference first)) [
        | inl e ↦ rw e (
          is_allowed_hour-IsAllowed first (omega arith) e,
          allowed_hours_from-All count (first + 1) (omega arith),
        )
        | inr e ↦ rw e (allowed_hours_from-All count (first + 1) (omega arith))
      ]

  allowed_hours_weight :
      (weight : ℕ → ℕ) (hour count first : ℕ)
      → is_allowed_hour start reference hour ≡ true
      → 0 < weight hour
      → first ≤ hour
      → hour < first + count
      → 0 < sum (map weight (allowed_hours_from start reference count first))
  unfolding allowed_hours_from
  allowed_hours_weight weight hour zero first a w h k = absurd (omega arith)
  allowed_hours_weight weight hour (suc count) first a w h k =
      ground (arith, allowed_hours_weight weight hour count (first + 1) a w)

  abbrev lower : ℕ → ℕ
  lower hour = (millisecond_bounds start reference hour).0

  abbrev upper : ℕ → ℕ
  upper hour = (millisecond_bounds start reference hour).1

  -- What is said of a timestamp, and of its place between the two times.
  pub record IsInWindow (t : DateTime) : Type 0 where
    pub valid : IsTime t
    pub same_date : t.date ≡ start.date
    pub from_start : microseconds start ≤ microseconds t + start.microsecond % 1_000
    pub to_reference : microseconds t ≤ microseconds reference

  module _ (vs : IsTime start) (vr : IsTime reference)
      (order : microseconds start ≤ microseconds reference) where
    bounds_order : (hour : ℕ) → IsAllowed hour → lower hour ≤ upper hour
    unfolding millisecond_bounds
    bounds_order hour a = ground (arith, a.2)

    time_at-IsInWindow :
        (hour ms : ℕ)
        → IsAllowed hour
        → lower hour ≤ ms
        → ms ≤ upper hour
        → IsInWindow (time_at start reference hour ms)
    unfolding millisecond_bounds time_at
    time_at-IsInWindow hour ms a lo hi = record {
      valid = ground arith;
      same_date = refl;
      from_start = ground arith;
      to_reference = ground (arith, a.2);
    }

    module _ (R : Rng) where
      choose_millisecond-IsInWindow :
          (hour : ℕ) (s : Rng.State R)
          → IsAllowed hour
          → (t : DateTime) × ((choose_millisecond start reference R hour s).0 ≡ ok t) × IsInWindow t
      choose_millisecond-IsInWindow hour s a =
          let ms = (R.randint (lower hour) (upper hour) s).0 in
          let b = R.randint_bounds (lower hour) (upper hour) s (bounds_order hour a) in
          (
            time_at start reference hour ms,
            unfold choose_millisecond in ground (arith, bounds_order hour a),
            time_at-IsInWindow hour ms a b.0 b.1,
          )

      start_hour_allowed : is_allowed_hour start reference start.hour ≡ true
      unfolding is_allowed_hour
      start_hour_allowed = ground arith

      choose_in_hour-IsInWindow :
          (o : Option ℕ) (hour : ℕ) (s : Rng.State R)
          → o ≡ some hour
          → IsAllowed hour
          → (t : DateTime) × ((choose_in_hour start reference R o s).0 ≡ ok t) × IsInWindow t
      unfolding choose_in_hour
      choose_in_hour-IsInWindow o hour s e a = rw e (choose_millisecond-IsInWindow hour s a)

      choose_occurred_at_in_order :
          (phase : TrafficPhase) (s : Rng.State R)
          → (t : DateTime) × ((choose_occurred_at start reference R phase s).0 ≡ ok t)
            × IsInWindow t
      unfolding choose_occurred_at allowed_hours
      choose_occurred_at_in_order phase s =
          let weight = weight_at (hour_weights phase) in
          let hours = allowed_hours_from start reference 24 0 in
          let total =
            allowed_hours_weight weight start.hour 24 0 start_hour_allowed
              (hour_weight_pos phase start.hour vs.hour) (omega arith) (omega (arith, vs.hour)) in
          let (hour, e, a) =
            pick IsAllowed weight hours (R.choices (map weight hours) s).0
              (allowed_hours_from-All 24 0 (omega arith))
              (R.choices_weight (map weight hours) s total) in
          choose_in_hour-IsInWindow _ hour _ e a

-- If the constructor accepts the start time, `_choose_occurred_at` never raises: it returns a valid
-- time of the start's date, not later than the reference time, and before the start time by no more
-- than the start's microseconds within its millisecond.
pub choose_occurred_at-IsInWindow :
    (start reference : DateTime) (R : Rng) (phase : TrafficPhase) (s : Rng.State R)
    → IsTime start
    → IsTime reference
    → ensure_start_time_is_not_future start reference ≡ ok tt
    → (t : DateTime) × ((choose_occurred_at start reference R phase s).0 ≡ ok t)
      × IsInWindow start reference t
choose_occurred_at-IsInWindow start reference R phase s vs vr accepted =
    choose_occurred_at_in_order start reference vs vr
      (unfold ensure_start_time_is_not_future in ground arith) R phase s

-- In the start's hour the lowest millisecond that may be drawn is the start's own, so where the
-- start has microseconds past a whole millisecond that timestamp comes before it.
pub earliest-lt-start :
    (start reference : DateTime)
    → IsTime start
    → 0 < start.microsecond % 1_000
    → microseconds
        (time_at start reference start.hour (millisecond_bounds start reference start.hour).0)
      < microseconds start
unfolding time_at millisecond_bounds
earliest-lt-start start reference v h = ground arith
