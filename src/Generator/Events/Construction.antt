-- ===== src/Generator/Events/Construction.antt =====
-- The constructor of `EventGenerator`, given the seeded sources, and the events of what it makes.
use live_data_architecture.Base.{
  ℕ, ◌<◌, ◌≤◌, ◌≡◌, refl, String, Option, none, some, List, length, arith, All,
}
use live_data_architecture.Base.Results.{Result, ok, err}
use live_data_architecture.Generator.Rng.{Rng}
use live_data_architecture.Generator.EventId.{event_id_counter_modulus}
use live_data_architecture.Generator.Clock.{
  DateTime, ClockError, microseconds, ensure_start_time_is_not_future,
}
use live_data_architecture.Generator.Clock.Window.{IsTime}
use live_data_architecture.Generator.Traffic.{TrafficProfileConfig, traffic_profile}
use live_data_architecture.Generator.Traffic.Windows.{IsValidConfig}
use live_data_architecture.Generator.FakerCatalog.{Faker, FakerDataCatalog, faker_data_catalog}
use live_data_architecture.Generator.FakerCatalog.Pools.{IsCatalog, faker_data_catalog-IsCatalog}
use live_data_architecture.Generator.Events.{GeneratedEvent, EventGenerator, iter_events}
use live_data_architecture.Generator.Events.Run.{IsEvent}
use live_data_architecture.Generator.Events.Ids.{DistinctIds, iter_events_complete}

module _ (R : Rng) (F : Faker) (lower : String → String) where
  -- The first id is that of number 1.
  abbrev pub with_catalog :
      R.State
      → R.State
      → Option (FakerDataCatalog × F.State)
      → Result ClockError (Option (FakerDataCatalog × EventGenerator R))
  with_catalog rng profile_rng none = ok none
  with_catalog rng profile_rng (some (catalog, faker)) =
      let (event_id_prefix, s) = R.getrandbits 32 rng in
      ok (
        some (
          catalog,
          record {
            rng = s;
            traffic_profile = traffic_profile R profile_rng;
            ids = record { event_id_prefix = event_id_prefix; event_sequence = 0 };
          },
        ))

  abbrev pub if_accepted {ℓ} :
      {A : Type ℓ} → Result ClockError (Unit {0}) → Result ClockError A → Result ClockError A
  if_accepted (err e) made = err e
  if_accepted (ok tt) made = made

  unfoldable pub event_generator :
      DateTime
      → DateTime
      → R.State
      → R.State
      → F.State
      → Result ClockError (Option (FakerDataCatalog × EventGenerator R))
  event_generator start reference rng profile_rng faker =
      if_accepted (ensure_start_time_is_not_future start reference)
        (with_catalog rng profile_rng (faker_data_catalog lower F faker))

  -- A generator that starts no later than the reference time is constructed, whatever the seeds. It
  -- then makes any number of events below 2^64 without raising. Each is complete: of a user of the
  -- catalog, timed no later than the reference time and before the start by no more than the start's
  -- microseconds past its millisecond, with the fields of its type, and the amount of a purchase
  -- between four fifths of the product's price and the price. No two of them have the same id.
  pub event_generator_runs :
      (config : TrafficProfileConfig) (start reference : DateTime) (producer : String)
      (rng profile_rng : R.State) (faker : F.State) (count : ℕ)
      → IsValidConfig config
      → IsTime start
      → IsTime reference
      → microseconds start ≤ microseconds reference
      → count < event_id_counter_modulus
      → (catalog : FakerDataCatalog) × (g : EventGenerator R) × (event_generator start reference rng
            profile_rng faker
          ≡ ok (some (catalog, g)))
        × IsCatalog catalog
        × (es : List GeneratedEvent) × (g' : EventGenerator R) × (iter_events R catalog config start
              reference producer count g
            ≡ (ok es, g'))
        × (length es ≡ count)
        × All (IsEvent catalog start reference producer) es
        × DistinctIds es
  unfolding event_generator traffic_profile
  event_generator_runs config start reference producer rng profile_rng faker count valid vs vr order
        room =
      let (catalog, faker', built, complete) = faker_data_catalog-IsCatalog lower F faker in
      let accepted : ensure_start_time_is_not_future start reference ≡ ok tt =
        unfold ensure_start_time_is_not_future in ground arith in
      let g : EventGenerator R = record {
        rng = (R.getrandbits 32 rng).1;
        traffic_profile = traffic_profile R profile_rng;
        ids = record { event_id_prefix = (R.getrandbits 32 rng).0; event_sequence = 0 };
      } in
      let (es, g', made, counted, events, distinct) =
        iter_events_complete R catalog config start reference producer complete valid vs vr accepted
          count g refl (omega arith) in
      (catalog, g, rw (accepted, built) refl, complete, es, g', made, counted, events, distinct)
