-- ===== src/Generator/Traffic.antt =====
-- event_generator/traffic_profile.py: phases of traffic in windows of whole seconds. An `int` of the
-- configuration is a natural number here; a negative one would be rejected as 0 is.
pub mod Windows
mod Examples
use live_data_architecture.Base.{
  ℕ, ◌+◌, ◌-◌, ◌*◌, Option, none, some, List, [], ◌∷◌, leb, ltb, if◌then◌else◌,
}
use live_data_architecture.Base.Results.{Result, ok, err, raise_if, ◌>>=◌, ◌>>◌}
use live_data_architecture.Generator.{TrafficPhase}
use live_data_architecture.Generator.Rng.{Rng}

pub data ProfileError : Type 0 where
  slow_rate normal_rate burst_rate : ProfileError
  min_phase_seconds max_phase_seconds phase_seconds_order : ProfileError
  window_not_initialized : ProfileError

pub record PhaseRates : Type 0 where
  pub slow : ℕ
  pub normal : ℕ
  pub burst : ℕ

-- The constructor with its `__post_init__`; the loop over the three rates is written out.
unfoldable pub phase_rates : ℕ → ℕ → ℕ → Result ProfileError PhaseRates
phase_rates slow normal burst = do
  raise_if (ltb slow 1) ProfileError.slow_rate
  raise_if (ltb normal 1) ProfileError.normal_rate
  raise_if (ltb burst 1) ProfileError.burst_rate
  ok (record { slow = slow; normal = normal; burst = burst })

unfoldable pub for_phase : PhaseRates → TrafficPhase → ℕ
for_phase rates TrafficPhase.slow = rates.slow
for_phase rates TrafficPhase.normal = rates.normal
for_phase rates TrafficPhase.burst = rates.burst

pub record TrafficProfileConfig : Type 0 where
  pub rates : PhaseRates
  pub min_phase_seconds : ℕ
  pub max_phase_seconds : ℕ

unfoldable pub traffic_profile_config :
    PhaseRates → ℕ → ℕ → Result ProfileError TrafficProfileConfig
traffic_profile_config rates lo hi = do
  raise_if (ltb lo 1) ProfileError.min_phase_seconds
  raise_if (ltb hi 1) ProfileError.max_phase_seconds
  raise_if (ltb hi lo) ProfileError.phase_seconds_order
  ok (record { rates = rates; min_phase_seconds = lo; max_phase_seconds = hi })

pub record PhaseWindow : Type 0 where
  pub phase : TrafficPhase
  pub duration_seconds : ℕ
  pub event_capacity : ℕ

-- `_PHASES` and `_PHASE_WEIGHTS`: the phase at a position, and the weights of the positions
unfoldable pub phase_at : ℕ → TrafficPhase
phase_at n =
    if leb n 0
    then TrafficPhase.normal
    else if leb n 1
    then TrafficPhase.slow
    else TrafficPhase.burst

abbrev pub phase_weights : List ℕ
phase_weights = 60 ∷ 25 ∷ 15 ∷ []

unfoldable pub current_phase : Option PhaseWindow → Result ProfileError TrafficPhase
current_phase none = err ProfileError.window_not_initialized
current_phase (some window) = ok window.phase

module _ (R : Rng) where
  open R use {State, randint, choices}

  -- The configuration does not change and is passed beside the object's other fields.
  pub record TrafficProfile : Type 0 where
    pub rng : State
    pub current_window : Option PhaseWindow
    pub remaining_events_in_window : ℕ

  unfoldable pub traffic_profile : State → TrafficProfile
  traffic_profile seeded = record {
    rng = seeded;
    current_window = none;
    remaining_events_in_window = 0;
  }

  unfoldable pub choose_window : TrafficProfileConfig → State → PhaseWindow × State
  unfolding phase_at for_phase
  choose_window config s =
      let (position, s₁) = choices phase_weights s in
      let (duration, s₂) = randint config.min_phase_seconds config.max_phase_seconds s₁ in
      let phase = phase_at position in
      (
        record {
          phase = phase;
          duration_seconds = duration;
          event_capacity = duration * for_phase config.rates phase;
        },
        s₂,
      )

  -- A new window is chosen when none of the old one is left.
  unfoldable pub rotate : TrafficProfileConfig → TrafficProfile → TrafficProfile
  rotate config p =
      let (window, s) = choose_window config p.rng in
      if leb p.remaining_events_in_window 0
      then record {
        rng = s;
        current_window = some window;
        remaining_events_in_window = window.event_capacity;
      }
      else p

  -- A window has room for at least one event, so the count of the rest does not pass 0.
  unfoldable pub next_phase :
      TrafficProfileConfig → TrafficProfile → Result ProfileError TrafficPhase × TrafficProfile
  unfolding current_phase
  next_phase config p =
      let q = rotate config p in
      (
        current_phase q.current_window,
        record q { remaining_events_in_window = q.remaining_events_in_window - 1 },
      )
