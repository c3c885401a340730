-- ===== src/Generator/Events/Ids.antt =====
-- The ids of a run of events.
use live_data_architecture.Base.{
  ℕ, suc, ◌+◌, ◌<◌, ◌≤◌, ◌≡◌, ◌≢◌, sym, ◌∙◌, String, List, [], ◌∷◌, length, arith, All,
}
use live_data_architecture.Base.Results.{ok}
use live_data_architecture.Generator.Rng.{Rng}
use live_data_architecture.Generator.EventId.{
  IdSource, event_id, event_id_counter_modulus, choose_event_id,
}
use live_data_architecture.Generator.EventId.Unique.{event_id-injective}
use live_data_architecture.Generator.Clock.{DateTime, ensure_start_time_is_not_future}
use live_data_architecture.Generator.Clock.Window.{IsTime}
use live_data_architecture.Generator.Traffic.{TrafficProfileConfig}
use live_data_architecture.Generator.Traffic.Windows.{IsValidConfig, ProfileFits}
use live_data_architecture.Generator.FakerCatalog.{FakerDataCatalog}
use live_data_architecture.Generator.FakerCatalog.Pools.{IsCatalog}
use live_data_architecture.Generator.Events.{GeneratedEvent, EventGenerator, iter_events}
use live_data_architecture.Generator.Events.Run.{IsEvent, Numbered, iter_events-Numbered}

-- No two events have one id.
abbrev pub DistinctIds : List GeneratedEvent → Type 0
DistinctIds [] = Unit
DistinctIds (e ∷ es) = All (λ other. e.event_id ≢ other.event_id) es × DistinctIds es

-- The id of a number past the counter and at most so many past it
abbrev IsLater : ℕ → ℕ → ℕ → List ℕ → Type 0
IsLater prefix from count id = (k : ℕ) × (from < k) × (k ≤ from + count) × (id ≡ event_id prefix k)

All-IsLater :
    (prefix from count : ℕ) (es : List GeneratedEvent)
    → All (λ e. IsLater prefix (from + 1) count e.event_id) es
    → All (λ e. IsLater prefix from (suc count) e.event_id) es
All-IsLater prefix from count [] later = tt
All-IsLater prefix from count (e ∷ es) ((k, above, below, same), more) =
    ((k, omega arith, omega arith, same), All-IsLater prefix from count es more)

All-other :
    (prefix from count : ℕ) (e : GeneratedEvent) (es : List GeneratedEvent)
    → e.event_id ≡ event_id prefix from
    → from + count < event_id_counter_modulus
    → All (λ other. IsLater prefix from count other.event_id) es
    → All (λ other. e.event_id ≢ other.event_id) es
All-other prefix from count e [] first room later = tt
All-other prefix from count e (o ∷ es) first room ((k, above, below, same), more) = (
  λ equal. omega (
    arith,
    (event_id-injective prefix prefix from k (omega arith) (omega arith)
        (sym first ∙ equal ∙ same)).1,
  ),
  All-other prefix from count e es first room more,
)

Numbered-IsLater :
    (ids : IdSource) (es : List GeneratedEvent)
    → Numbered ids es
    → All (λ e. IsLater ids.event_id_prefix ids.event_sequence (length es) e.event_id) es
unfolding choose_event_id
Numbered-IsLater ids [] numbered = tt
Numbered-IsLater ids (e ∷ es) (first, rest) =
    let ids' : IdSource = (choose_event_id ids).1 in
    (
      (ids.event_sequence + 1, omega arith, omega arith, first),
      All-IsLater ids.event_id_prefix ids.event_sequence (length es) es
          (Numbered-IsLater ids' es rest),
    )

Numbered-DistinctIds :
    (ids : IdSource) (es : List GeneratedEvent)
    → Numbered ids es
    → ids.event_sequence + length es < event_id_counter_modulus
    → DistinctIds es
unfolding choose_event_id
Numbered-DistinctIds ids [] numbered h = tt
Numbered-DistinctIds ids (e ∷ es) (first, rest) h =
    let ids' : IdSource = (choose_event_id ids).1 in
    (
      All-other ids.event_id_prefix (ids.event_sequence + 1) (length es) e es first (omega arith)
          (Numbered-IsLater ids' es rest),
      Numbered-DistinctIds ids' es rest (omega arith),
    )

module _ (R : Rng) (catalog : FakerDataCatalog) (config : TrafficProfileConfig)
    (start reference : DateTime) (producer : String) (complete : IsCatalog catalog)
    (valid : IsValidConfig config) (start_valid : IsTime start) (reference_valid : IsTime reference)
    (accepted : ensure_start_time_is_not_future start reference ≡ ok tt) where
  -- `iter_events` never raises and returns as many events as were asked for. Each is complete: of a user
  -- of the catalog, timed no later than the reference time and before the start by no more than the
  -- start's microseconds past its millisecond, and with the fields of its type, from the catalog. No
  -- two have the same id while the counter stays below 2^64.
  pub iter_events_complete :
      (count : ℕ) (g : EventGenerator R)
      → ProfileFits R config g.traffic_profile
      → g.ids.event_sequence + count < event_id_counter_modulus
      → (es : List GeneratedEvent) × (g' : EventGenerator R) × (iter_events R catalog config start
            reference producer count g
          ≡ (ok es, g'))
        × (length es ≡ count)
        × All (IsEvent catalog start reference producer) es
        × DistinctIds es
  iter_events_complete count g fits room =
      let (es, g', made, counted, events, numbered) =
        iter_events-Numbered R catalog config start reference producer complete valid start_valid
          reference_valid accepted count g fits in
      (
        es,
        g',
        made,
        counted,
        events,
        Numbered-DistinctIds g.ids es numbered (omega (arith, counted)),
      )
