-- ===== src/Generator/Events/Run.antt =====
-- One event, and a run of events: no call raises, and every event is complete.
use live_data_architecture.Base.{
  ℕ, zero, suc, ◌<◌, ◌≡◌, refl, sym, ap, ◌∙◌, String, some, List, [], ◌∷◌, length, get_elem?, arith,
  All,
}
use live_data_architecture.Base.Results.{ok}
use live_data_architecture.Base.Action.{after}
use live_data_architecture.Generator.{EventType, TrafficPhase}
use live_data_architecture.Generator.Rng.{Rng, weight_at}
use live_data_architecture.Generator.EventId.{IdSource, choose_event_id}
use live_data_architecture.Generator.Clock.{
  DateTime, ensure_start_time_is_not_future, choose_occurred_at,
}
use live_data_architecture.Generator.Clock.Window.{
  IsTime, IsInWindow, choose_occurred_at-IsInWindow,
}
use live_data_architecture.Generator.Traffic.{TrafficProfileConfig, next_phase}
use live_data_architecture.Generator.Traffic.Windows.{IsValidConfig, ProfileFits, next_phase-Fits}
use live_data_architecture.Generator.FakerCatalog.{
  Product, UserProfile, FakerDataCatalog, CategoryTemplate, product_rounds, category_templates,
  repeated,
}
use live_data_architecture.Generator.FakerCatalog.Pools.{IsCatalog, Fit}
use live_data_architecture.Generator.Events.{
  GeneratedEvent, Details, EventGenerator, event_types, event_weights, choose_event_type,
  choose_time, base_event, build_event, generate_one, iter_events,
}
use live_data_architecture.Generator.Events.Draws.{Among, Draws, Draws-after, pick-Draws}
use live_data_architecture.Generator.Events.Shape.{IsShaped, choose_details-IsShaped}

abbrev pub details_of : GeneratedEvent → Details
details_of e = record {
  page_path = e.page_path;
  category_id = e.category_id;
  product_id = e.product_id;
  amount = e.amount;
  currency = e.currency;
  error_code = e.error_code;
  error_message = e.error_message;
}

-- An event of a user of the catalog, in the time window, with the optional fields of its type.
pub record IsEvent (catalog : FakerDataCatalog) (start reference : DateTime) (producer : String)
    (e : GeneratedEvent) : Type 0 where
  pub user : UserProfile
  pub known_user : Among catalog.users user
  pub user_id : e.user_id ≡ user.user_id
  pub timely : IsInWindow start reference e.occurred_at
  pub produced : e.producer_id ≡ producer
  pub shaped : IsShaped catalog e.event_type (details_of e)

-- Each event has the id that the source gives at its place.
abbrev pub Numbered : IdSource → List GeneratedEvent → Type 0
Numbered ids [] = Unit
Numbered ids (e ∷ es) = (e.event_id ≡ (choose_event_id ids).0) × Numbered (choose_event_id ids).1 es

products_present :
    (rounds : List CategoryTemplate) (products : List Product)
    → Fit rounds products
    → 0 < length rounds
    → 0 < length products
products_present [] ps fits h = elim h [ ]
products_present (c ∷ cs) [] fits h = absurd fits
products_present (c ∷ cs) (p ∷ ps) fits h = omega arith

event_type_at :
    (i : ℕ) → 0 < weight_at event_weights i → (t : EventType) × (get_elem? event_types i ≡ some t)
event_type_at zero h = (EventType.page_view, refl)
event_type_at (suc zero) h = (EventType.product_click, refl)
event_type_at (suc (suc zero)) h = (EventType.add_to_cart, refl)
event_type_at (suc (suc (suc zero))) h = (EventType.purchase, refl)
event_type_at (suc (suc (suc (suc zero)))) h = (EventType.checkout_error, refl)
event_type_at (suc (suc (suc (suc (suc i))))) h = elim h [ ]

module _ (R : Rng) (catalog : FakerDataCatalog) (config : TrafficProfileConfig)
    (start reference : DateTime) (producer : String) (complete : IsCatalog catalog)
    (valid : IsValidConfig config) (start_valid : IsTime start) (reference_valid : IsTime reference)
    (accepted : ensure_start_time_is_not_future start reference ≡ ok tt) where
  users_there : 0 < length catalog.users
  users_there = omega (arith, complete.user_count)

  products_there : 0 < length catalog.products
  products_there =
      products_present (product_rounds category_templates) catalog.products complete.products_fit
        (unfold product_rounds category_templates repeated in omega arith)

  pages_there : 0 < length catalog.page_targets
  pages_there = rw complete.pages (omega arith)

  time-Draws :
      (phase : TrafficPhase) (g : EventGenerator R)
      → Draws R g
          (IsInWindow start reference)
          (choose_time R catalog config start reference producer phase g)
  unfolding choose_time
  time-Draws phase g =
      let (t, e, inside) =
        choose_occurred_at-IsInWindow start reference R phase g.rng start_valid reference_valid
          accepted in
      (t, (choose_occurred_at start reference R phase g.rng).1, rw e refl, inside)

  type-Draws : (g : EventGenerator R) → Draws R g (λ t. Unit {0}) (choose_event_type R g)
  unfolding choose_event_type
  type-Draws g =
      let (position, s) = R.choices event_weights g.rng in
      let (t, at) = event_type_at position (R.choices_weight event_weights g.rng (omega arith)) in
      (t, s, rw at refl, tt)

  -- A complete event with this id and phase.
  abbrev IsBuilt : List ℕ → TrafficPhase → GeneratedEvent → Type 0
  IsBuilt id phase e =
      (e.event_id ≡ id) × (e.traffic_phase ≡ phase) × IsEvent catalog start reference producer e

  base-Draws :
      (id : List ℕ) (kind : EventType) (user : UserProfile) (phase : TrafficPhase) (d : Details)
      (g : EventGenerator R)
      → Among catalog.users user
      → IsShaped catalog kind d
      → Draws R g
          (IsBuilt id phase)
          (base_event R catalog config start reference producer id kind user phase d g)
  unfolding base_event
  base-Draws id kind user phase d g known shaped =
      let (t, s, e, inside) = time-Draws phase g in
      (
        _,
        s,
        rw e refl,
        (
          refl,
          refl,
          record {
            user = user;
            known_user = known;
            user_id = refl;
            timely = inside;
            produced = refl;
            shaped = shaped;
          },
        ),
      )

  build-Draws :
      (kind : EventType) (phase : TrafficPhase) (g : EventGenerator R)
      → let (id, ids) = choose_event_id g.ids in
        Draws R
          (record g { ids = ids })
          (IsBuilt id phase)
          (build_event R catalog config start reference producer kind phase g)
  unfolding build_event
  build-Draws kind phase g =
      let (id, ids) = choose_event_id g.ids in
      let taken : EventGenerator R = record g { ids = ids } in
      Draws-after R _ (IsBuilt id phase) taken _ _ (pick-Draws R catalog.users taken users_there)
        λ user s known.
          Draws-after R _ (IsBuilt id phase) (record taken { rng = s }) _
            (base_event R catalog config start reference producer id kind user phase)
            (choose_details-IsShaped R catalog config start reference producer pages_there
              products_there kind user (record taken { rng = s }))
            λ d t shaped. base-Draws id kind user phase d (record taken { rng = t }) known shaped

  -- The generator after an event: the next phase and the next id are taken.
  abbrev pub advanced : EventGenerator R → R.State → EventGenerator R
  advanced g s = record {
    rng = s;
    traffic_profile = (next_phase R config g.traffic_profile).1;
    ids = (choose_event_id g.ids).1;
  }

  -- `generate_one` never raises. Its event is complete, has the next id and the next phase of the
  -- traffic profile, and the profile still fits the configuration.
  pub generate_one-IsEvent :
      (g : EventGenerator R)
      → ProfileFits R config g.traffic_profile
      → (e : GeneratedEvent) × (s : R.State) × (generate_one R catalog config start reference
            producer g
          ≡ (ok e, advanced g s))
        × (e.event_id ≡ (choose_event_id g.ids).0)
        × ((next_phase R config g.traffic_profile).0 ≡ ok e.traffic_phase)
        × IsEvent catalog start reference producer e
        × ProfileFits R config (advanced g s).traffic_profile
  unfolding generate_one
  generate_one-IsEvent g fits =
      let (phase, got, fits') = next_phase-Fits R config valid g.traffic_profile fits in
      let moved : EventGenerator R = record g {
        traffic_profile = (next_phase R config g.traffic_profile).1;
      } in
      let (kind, t, chosen, u) = type-Draws moved in
      let (e, s, built, (same_id, same_phase, is_event)) =
        build-Draws kind phase (record moved { rng = t }) in
      (
        e,
        s,
        rw got (
            ap (λ y. after y (λ k. build_event R catalog config start reference producer k phase))
              chosen
            ∙ built),
        same_id,
        got ∙ ap ok (sym same_phase),
        is_event,
        fits',
      )

  pub iter_events-Numbered :
      (count : ℕ) (g : EventGenerator R)
      → ProfileFits R config g.traffic_profile
      → (es : List GeneratedEvent) × (g' : EventGenerator R) × (iter_events R catalog config start
            reference producer count g
          ≡ (ok es, g'))
        × (length es ≡ count)
        × All (IsEvent catalog start reference producer) es
        × Numbered g.ids es
  unfolding iter_events
  iter_events-Numbered zero g fits = ([], g, refl, refl, tt, tt)
  iter_events-Numbered (suc count) g fits =
      let (e, s, one, same_id, same_phase, is_event, fits') = generate_one-IsEvent g fits in
      let (es, g', more, counted, events, numbered) =
        iter_events-Numbered count (advanced g s) fits' in
      (
        e ∷ es,
        g',
        rw (one, more) refl,
        omega (arith, counted),
        (is_event, events),
        (same_id, numbered),
      )
