-- ===== src/Generator/Events.antt =====
-- The events of event_generator/generator.py: `generate_one` and what it calls, over the catalog, the
-- traffic profile, the ids and the clock of the modules beside this one. An amount is kept in cents,
-- where the source rounds the cents over 100 to a float. An event id is a list of code points.
pub mod Draws
pub mod Shape
pub mod Run
pub mod Ids
pub mod Construction
mod Examples
use Prim.Native.String
use live_data_architecture.Base.{
  ℕ, zero, suc, ◌-◌, ◌/◌, String, Bool, true, false, Option, none, some, List, [], ◌∷◌, map, length,
  get_elem?, leb, if◌then◌else◌, ◌==◌,
}
use live_data_architecture.Base.Results.{Result, ok, err}
use live_data_architecture.Base.Action.{Action, pure, ◌>>=◌}
use live_data_architecture.Generator.{EventType, TrafficPhase}
use live_data_architecture.Generator.Rng.{Rng}
use live_data_architecture.Generator.EventId.{IdSource, choose_event_id}
use live_data_architecture.Generator.Clock.{DateTime, ClockError, choose_occurred_at}
use live_data_architecture.Generator.Traffic.{
  ProfileError, TrafficProfileConfig, TrafficProfile, next_phase,
}
use live_data_architecture.Generator.FakerCatalog.{
  PageTarget, Product, UserProfile, FakerDataCatalog, products_for_category,
  page_targets_for_category,
}

pub record GeneratedEvent : Type 0 where
  pub event_id : List ℕ
  pub event_type : EventType
  pub occurred_at : DateTime
  pub user_id : String
  pub traffic_phase : TrafficPhase
  pub producer_id : String
  pub page_path : Option String
  pub category_id : Option String
  pub product_id : Option String
  pub amount : Option ℕ
  pub currency : Option String
  pub error_code : Option String
  pub error_message : Option String

-- The keyword arguments of `_base_event` that have a default, all None.
pub record Details : Type 0 where
  pub page_path : Option String
  pub category_id : Option String
  pub product_id : Option String
  pub amount : Option ℕ
  pub currency : Option String
  pub error_code : Option String
  pub error_message : Option String

abbrev pub no_details : Details
no_details = record {
  page_path = none;
  category_id = none;
  product_id = none;
  amount = none;
  currency = none;
  error_code = none;
  error_message = none;
}

-- What the calls could raise; `choice` of an empty sequence raises an index error.
pub data GeneratorError : Type 0 where
  traffic : ProfileError → GeneratorError
  clock : ClockError → GeneratorError
  index_error key_error : GeneratorError

-- `_EVENT_TYPES` and `_EVENT_WEIGHTS`
abbrev pub event_types : List EventType
event_types =
    EventType.page_view ∷ EventType.product_click ∷ EventType.add_to_cart ∷ EventType.purchase
    ∷ EventType.checkout_error ∷ []

abbrev pub event_weights : List ℕ
event_weights = 45 ∷ 25 ∷ 15 ∷ 8 ∷ 7 ∷ []

-- `_ERROR_MESSAGES`
abbrev pub error_messages : List (String × String)
error_messages =
    ("PAYMENT_DECLINED", "Payment was declined by the card issuer.")
    ∷ ("TIMEOUT", "Checkout request timed out while waiting for the payment gateway.")
    ∷ ("INVALID_COUPON", "The submitted coupon cannot be applied to this order.")
    ∷ ("PG_UNAVAILABLE", "Payment gateway is temporarily unavailable.")
    ∷ []

abbrev pub error_codes : List String
error_codes = map (λ (entry : String × String). entry.0) error_messages

-- `_ERROR_MESSAGES[error_code]`
unfoldable pub message_of : List (String × String) → String → Result GeneratorError String
message_of [] code = err GeneratorError.key_error
message_of ((known, message) ∷ entries) code =
    let rest = message_of entries code in if known == code then ok message else rest

abbrev pub at_position {ℓ} : {A : Type ℓ} → Option A → Result GeneratorError A
at_position none = err GeneratorError.index_error
at_position (some a) = ok a

abbrev pub or_traffic_error : Result ProfileError TrafficPhase → Result GeneratorError TrafficPhase
or_traffic_error (ok phase) = ok phase
or_traffic_error (err e) = err (GeneratorError.traffic e)

abbrev pub or_clock_error : Result ClockError DateTime → Result GeneratorError DateTime
or_clock_error (ok t) = ok t
or_clock_error (err e) = err (GeneratorError.clock e)

module _ (R : Rng) where
  open R use {State, randint, choice, choices, below_seven_tenths}

  -- The fields that change. The traffic profile has a random source of its own.
  pub record EventGenerator : Type 0 where
    pub rng : State
    pub traffic_profile : TrafficProfile R
    pub ids : IdSource

  abbrev pub Step {ℓ} : Type ℓ → Type ℓ
  Step A = Action EventGenerator GeneratorError A

  -- A call of the generator's random source
  abbrev pub draw {ℓ} : {A : Type ℓ} → (State → Result GeneratorError A × State) → Step A
  draw call g = let (a, s) = call g.rng in (a, record g { rng = s })

  -- `self._rng.choice(items)`
  unfoldable pub pick : {A : Type 0} → List A → Step A
  pick items = draw λ s.
      let (position, s') = choice (length items) s in (at_position (get_elem? items position), s')

  unfoldable pub choose_event_type : Step EventType
  choose_event_type = draw λ s.
      let (position, s') = choices event_weights s in
      (at_position (get_elem? event_types position), s')

  -- `_choose_page_target` and `_choose_product`, of the preferred items and of all. With no preferred
  -- ones the number is not drawn.
  unfoldable pub choose_preferred : {A : Type 0} → List A → List A → Step A
  unfolding pick
  choose_preferred [] items = pick items
  choose_preferred (p ∷ preferred) items = do
    likes ← draw λ s. let (b, s') = below_seven_tenths s in (ok b, s')
    if likes then pick (p ∷ preferred) else pick items

  unfoldable pub choose_amount : Product → Step ℕ
  choose_amount product = draw λ s.
      let (discount_cents, s') = randint 0 (product.price_cents / 5) s in
      (ok (product.price_cents - discount_cents), s')

  abbrev pub take_event_id : Step (List ℕ)
  take_event_id g = let (id, ids) = choose_event_id g.ids in (ok id, record g { ids = ids })

  module _ (catalog : FakerDataCatalog) (config : TrafficProfileConfig) (start reference : DateTime)
      (producer : String) where
    unfoldable pub choose_page_target : UserProfile → Step PageTarget
    unfolding choose_preferred
    choose_page_target user =
        choose_preferred (page_targets_for_category catalog.page_targets user.preferred_category_id)
          catalog.page_targets

    unfoldable pub choose_product : UserProfile → Step Product
    unfolding choose_preferred
    choose_product user =
        choose_preferred (products_for_category catalog.products user.preferred_category_id)
          catalog.products

    unfoldable pub choose_time : TrafficPhase → Step DateTime
    choose_time phase =
        draw
          λ s. let (t, s') = choose_occurred_at start reference R phase s in (or_clock_error t, s')

    unfoldable pub base_event :
        List ℕ → EventType → UserProfile → TrafficPhase → Details → Step GeneratedEvent
    unfolding choose_time
    base_event id kind user phase details = do
      occurred_at ← choose_time phase
      pure (record {
        event_id = id;
        event_type = kind;
        occurred_at = occurred_at;
        user_id = user.user_id;
        traffic_phase = phase;
        producer_id = producer;
        page_path = details.page_path;
        category_id = details.category_id;
        product_id = details.product_id;
        amount = details.amount;
        currency = details.currency;
        error_code = details.error_code;
        error_message = details.error_message;
      })

    -- The arguments that the match of `_build_event` makes for each type.
    unfoldable pub choose_details : EventType → UserProfile → Step Details
    unfolding choose_page_target choose_product choose_amount
    choose_details EventType.page_view user = do
      target ← choose_page_target user
      pure (record no_details { page_path = some target.path; category_id = target.category_id })
    choose_details EventType.product_click user = do
      product ← choose_product user
      pure (record no_details {
        page_path = some (String.◌++◌ "/products/" product.product_id);
        category_id = some product.category_id;
        product_id = some product.product_id;
      })
    choose_details EventType.add_to_cart user = do
      product ← choose_product user
      pure (record no_details {
        category_id = some product.category_id;
        product_id = some product.product_id;
      })
    choose_details EventType.purchase user = do
      product ← choose_product user
      amount ← choose_amount product
      pure (record no_details {
        category_id = some product.category_id;
        product_id = some product.product_id;
        amount = some amount;
        currency = some "USD";
      })
    choose_details EventType.checkout_error user = do
      product ← choose_product user
      code ← pick error_codes
      message ← λ g. (message_of error_messages code, g)
      pure (record no_details {
        category_id = some product.category_id;
        product_id = some product.product_id;
        error_code = some code;
        error_message = some message;
      })

    unfoldable pub build_event : EventType → TrafficPhase → Step GeneratedEvent
    unfolding choose_details base_event
    build_event kind phase = do
      id ← take_event_id
      user ← pick catalog.users
      details ← choose_details kind user
      base_event id kind user phase details

    abbrev pub take_phase : Step TrafficPhase
    take_phase g =
        let (phase, profile) = next_phase R config g.traffic_profile in
        (or_traffic_error phase, record g { traffic_profile = profile })

    unfoldable pub generate_one : Step GeneratedEvent
    unfolding build_event choose_event_type
    generate_one = do phase ← take_phase; kind ← choose_event_type; build_event kind phase

    -- `iter_events` with a number of events, each of which is consumed.
    unfoldable pub iter_events : ℕ → Step (List GeneratedEvent)
    unfolding generate_one
    iter_events zero = pure []
    iter_events (suc count) = do
      event ← generate_one
      events ← iter_events count
      pure (event ∷ events)
