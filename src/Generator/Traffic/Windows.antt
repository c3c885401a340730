-- ===== src/Generator/Traffic/Windows.antt =====
-- The windows that `next_phase` goes through.
use native.Mathlib.Decide.{dec_lt}
use live_data_architecture.Base.{
  ℕ, zero, suc, ◌-◌, ◌*◌, ◌≤◌, ◌≡◌, ◌↔◌, refl, sym, ap, ◌∙◌, Option, none, some, List, [], ◌∷◌,
  arith,
}
use live_data_architecture.Base.Results.{Result, ok, ◌>>=◌}
use live_data_architecture.Generator.{TrafficPhase}
use live_data_architecture.Generator.Rng.{Rng}
use live_data_architecture.Generator.Traffic.{
  ProfileError, phase_rates, for_phase, TrafficProfileConfig, traffic_profile_config, PhaseWindow,
  phase_weights, TrafficProfile, choose_window, rotate, current_phase, next_phase,
}

pub record IsValidConfig (c : TrafficProfileConfig) : Type 0 where
  pub slow : 1 ≤ c.rates.slow
  pub normal : 1 ≤ c.rates.normal
  pub burst : 1 ≤ c.rates.burst
  pub shortest : 1 ≤ c.min_phase_seconds
  pub order : c.min_phase_seconds ≤ c.max_phase_seconds

abbrev pub configure : (slow normal burst lo hi : ℕ) → Result ProfileError TrafficProfileConfig
configure slow normal burst lo hi = do
  rates ← phase_rates slow normal burst
  traffic_profile_config rates lo hi

abbrev pub config_of : (slow normal burst lo hi : ℕ) → TrafficProfileConfig
config_of slow normal burst lo hi = record {
  rates = record { slow = slow; normal = normal; burst = burst };
  min_phase_seconds = lo;
  max_phase_seconds = hi;
}

-- The constructors of the rates and of the profile's configuration accept five numbers exactly if
-- every rate is at least 1, the shortest window is at least 1 second and not above the longest;
-- the configuration then holds these numbers.
pub configure_iff :
    (slow normal burst lo hi : ℕ)
    → (configure slow normal burst lo hi ≡ ok (config_of slow normal burst lo hi))
      ↔ IsValidConfig (config_of slow normal burst lo hi)
unfolding phase_rates traffic_profile_config
configure_iff slow normal burst lo hi = ground arith

abbrev pub replicate {ℓ} : {A : Type ℓ} → ℕ → A → List A
replicate zero a = []
replicate (suc n) a = a ∷ replicate n a

module _ (R : Rng) (config : TrafficProfileConfig) where
  -- The window and the count of its events that are left fit the configuration.
  abbrev pub Fits : Option PhaseWindow → ℕ → Type 0
  Fits none left = left ≡ 0
  Fits (some w) left =
      (config.min_phase_seconds ≤ w.duration_seconds)
      × (w.duration_seconds ≤ config.max_phase_seconds)
      × (w.event_capacity ≡ w.duration_seconds * for_phase config.rates w.phase)
      × (left ≤ w.event_capacity)

  abbrev pub ProfileFits : TrafficProfile R → Type 0
  ProfileFits p = Fits p.current_window p.remaining_events_in_window

  -- The results of that many calls of `next_phase`, and the profile after them.
  unfoldable pub next_phases :
      ℕ → TrafficProfile R → List (Result ProfileError TrafficPhase) × TrafficProfile R
  next_phases zero p = ([], p)
  next_phases (suc n) p =
      let (phase, q) = next_phase R config p in
      let (phases, r) = next_phases n q in (phase ∷ phases, r)

  module _ (v : IsValidConfig config) where
    for_phase_pos : (phase : TrafficPhase) → 1 ≤ for_phase config.rates phase
    unfolding for_phase
    for_phase_pos TrafficPhase.slow = v.slow
    for_phase_pos TrafficPhase.normal = v.normal
    for_phase_pos TrafficPhase.burst = v.burst

    choose_window-Fits :
        (s : Rng.State R) → let w = (choose_window R config s).0 in Fits (some w) w.event_capacity
    unfolding choose_window
    choose_window-Fits s =
        let s₁ = (R.choices phase_weights s).1 in
        let b = R.randint_bounds config.min_phase_seconds config.max_phase_seconds s₁ v.order in
        (b.0, b.1, refl, omega arith)

    pos_mul : (a b : ℕ) → 1 ≤ a → 1 ≤ b → 1 ≤ a * b
    pos_mul a b h k = grind arith

    capacity_pos : (s : Rng.State R) → 1 ≤ (choose_window R config s).0.event_capacity
    capacity_pos s =
        let w = (choose_window R config s).0 in
        let fits = choose_window-Fits s in
        omega (
          arith,
          fits.2,
          pos_mul w.duration_seconds (for_phase config.rates w.phase)
              (omega (arith, fits.0, v.shortest)) (for_phase_pos w.phase),
        )

    rotate_used :
        (p : TrafficProfile R)
        → p.remaining_events_in_window ≡ 0
        → let chosen = choose_window R config p.rng in
          rotate R config p ≡ record {
            rng = chosen.1;
            current_window = some chosen.0;
            remaining_events_in_window = chosen.0.event_capacity;
          }
    unfolding rotate
    rotate_used p e = ground arith

    rotate_open : (p : TrafficProfile R) → 1 ≤ p.remaining_events_in_window → rotate R config p ≡ p
    unfolding rotate
    rotate_open p h = ground arith

    -- After a rotation there is a window, and room in it.
    abbrev Rotated : TrafficProfile R → Type 0
    Rotated q =
        (w : PhaseWindow) × (q.current_window ≡ some w)
        × (Fits (some w) q.remaining_events_in_window)
        × (1 ≤ q.remaining_events_in_window)

    open_Rotated :
        (q : TrafficProfile R) (o : Option PhaseWindow)
        → q.current_window ≡ o
        → Fits o q.remaining_events_in_window
        → 1 ≤ q.remaining_events_in_window
        → Rotated q
    open_Rotated q none e h k = absurd (omega arith)
    open_Rotated q (some w) e h k = (w, e, h, k)

    rotate-Rotated : (p : TrafficProfile R) → ProfileFits p → Rotated (rotate R config p)
    rotate-Rotated p h = elim (dec_lt 0 p.remaining_events_in_window) [
      | yes some_left ↦
          rw (rotate_open p some_left) (open_Rotated p p.current_window refl h some_left)
      | no none_left ↦
          rw (rotate_used p (omega arith))
            ((choose_window R config p.rng).0, refl, choose_window-Fits p.rng, capacity_pos p.rng)
    ]

    next_phase_of_Rotated :
        (p : TrafficProfile R)
        → Rotated (rotate R config p)
        → (phase : TrafficPhase) × ((next_phase R config p).0 ≡ ok phase)
          × ProfileFits (next_phase R config p).1
    unfolding next_phase
    next_phase_of_Rotated p (w, e, fits, room) =
        (w.phase, ap current_phase e, rw e (fits.0, fits.1, fits.2, omega (arith, fits.3)))

    -- With a configuration that the constructors accept, and a profile that fits it, `next_phase`
    -- never raises, and the profile that it leaves fits the configuration: its window lasts between
    -- the shortest and the longest number of seconds, holds that many seconds at the phase's rate,
    -- and has no more events left than it holds.
    pub next_phase-Fits :
        (p : TrafficProfile R)
        → ProfileFits p
        → (phase : TrafficPhase) × ((next_phase R config p).0 ≡ ok phase)
          × ProfileFits (next_phase R config p).1
    next_phase-Fits p h = next_phase_of_Rotated p (rotate-Rotated p h)

    next_phase_open :
        (p : TrafficProfile R) (w : PhaseWindow)
        → p.current_window ≡ some w
        → 1 ≤ p.remaining_events_in_window
        → next_phase R config p
          ≡ (ok w.phase, record p { remaining_events_in_window = p.remaining_events_in_window - 1 })
    unfolding next_phase
    next_phase_open p w e h = rw (rotate_open p h) (rw e refl)

    next_phases_open :
        (n : ℕ) (p : TrafficProfile R) (w : PhaseWindow)
        → p.current_window ≡ some w
        → p.remaining_events_in_window ≡ n
        → next_phases n p ≡ (replicate n (ok w.phase), record p { remaining_events_in_window = 0 })
    unfolding next_phases
    next_phases_open zero p w e h = λ i. ([], record p { remaining_events_in_window = h i })
    next_phases_open (suc n) p w e h = rw (next_phase_open p w e (omega arith)) (
        rw (
          next_phases_open n
            (record p { remaining_events_in_window = p.remaining_events_in_window - 1 }) w e
            (omega arith)))

    next_phase-rotate :
        (p : TrafficProfile R)
        → 1 ≤ (rotate R config p).remaining_events_in_window
        → next_phase R config (rotate R config p) ≡ next_phase R config p
    unfolding next_phase
    next_phase-rotate p h = rw (rotate_open (rotate R config p) h)

    next_phases-rotate :
        (n : ℕ) (p : TrafficProfile R)
        → 1 ≤ n
        → 1 ≤ (rotate R config p).remaining_events_in_window
        → next_phases n (rotate R config p) ≡ next_phases n p
    unfolding next_phases
    next_phases-rotate zero p k h = absurd (omega arith)
    next_phases-rotate (suc n) p k h = rw (next_phase-rotate p h)

    -- A used-up profile draws a window of a length between the configured bounds, with room for the
    -- phase's rate of events in each of its seconds; the next calls, as many as it has room for,
    -- all return its phase, and leave the window used up.
    pub window_emits :
        (p : TrafficProfile R)
        → p.remaining_events_in_window ≡ 0
        → let (w, s) = choose_window R config p.rng in
          (next_phases w.event_capacity p ≡ (
            replicate w.event_capacity (ok w.phase),
            record { rng = s; current_window = some w; remaining_events_in_window = 0 },
          ))
          × (w.event_capacity ≡ w.duration_seconds * for_phase config.rates w.phase)
          × (config.min_phase_seconds ≤ w.duration_seconds)
          × (w.duration_seconds ≤ config.max_phase_seconds)
    window_emits p e = (emitted, fits.2, fits.0, fits.1)
      where
        w : PhaseWindow
        w = (choose_window R config p.rng).0

        q : TrafficProfile R
        q = record {
          rng = (choose_window R config p.rng).1;
          current_window = some w;
          remaining_events_in_window = w.event_capacity;
        }

        fits : Fits (some w) w.event_capacity
        fits = choose_window-Fits p.rng

        room : 1 ≤ w.event_capacity
        room = capacity_pos p.rng

        rotated : rotate R config p ≡ q
        rotated = rotate_used p e

        emitted :
            next_phases w.event_capacity p
            ≡ (replicate w.event_capacity (ok w.phase), record q { remaining_events_in_window = 0 })
        emitted =
            sym (next_phases-rotate w.event_capacity p room (rw rotated room))
            ∙ ap (next_phases w.event_capacity) rotated
            ∙ next_phases_open w.event_capacity q w refl refl
