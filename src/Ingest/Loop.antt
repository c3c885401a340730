-- ===== src/Ingest/Loop.antt =====
-- `run_forever` of backend/app/event_analytics/interface/consumer_lifespan.py: polls until the stop
-- event is set. The loop is given the number of times that it finds the event unset; the waits
-- between polls, and a cancellation, are outside the model.
pub mod Safety
use live_data_architecture.Base.{
  ℕ, zero, suc, String, ◌≡◌, refl, Bool, true, false, Option, none, some, List, [], ◌∷◌, ◌||◌, sym,
  ap, ◌∙◌, subst, map, contains, arith, Option-cases, ◌==◌, inl, inr, length, ◌⊎◌, Bool-cases, All,
  eq_iff,
}
use live_data_architecture.Base.Results.{Result, ok, err}
use live_data_architecture.Ingest.{WebEvent}
use live_data_architecture.Base.Action.{Action, pure, after, ◌>>=◌, after-pure}
use live_data_architecture.Ingest.Stream.{
  Decoders, StreamError, StreamConfig, StreamMessage, Redis, ensure_group, read_messages,
  pending_or_new, read_batch, returned, ack_many, decode_entries,
}
use live_data_architecture.Ingest.Store.{
  StoreError, EventTable, IngestEventsResult, event_to_record_values, save_batch, ingest,
}
use live_data_architecture.Ingest.Poll.{
  EventStreamIngestionPollResult, SortedMessages, World, on_redis, attempt, add_message,
  coerce_payload, sort_messages, stored_result, finish, store_valid, poll_messages, poll_once,
}
use live_data_architecture.Ingest.Delivery.{IsKept, poll_once_keeps}
use live_data_architecture.Ingest.Delivery.Sorting.{invalid-ids, ids_of, DistinctIds}

module _ (D : Decoders) (R : Redis D) (config : StreamConfig)
    (T : EventTable D.Datetime D.Decimal) where
  -- `group_ready` and the world, between two iterations.
  pub record LoopState : Type 0 where
    pub group_ready : Bool
    pub world : World D R config T

  abbrev pub unless_ready : Bool → Action (World D R config T) StreamError (Unit {0})
  unless_ready true = pure tt
  unless_ready false = on_redis D R config T (ensure_group D R config)

  -- An exception resets `group_ready`; else it is set.
  abbrev pub next_state :
      Result StreamError EventStreamIngestionPollResult × World D R config T → LoopState
  next_state (ok result, w) = record { group_ready = true; world = w }
  next_state (err e, w) = record { group_ready = false; world = w }

  unfoldable pub iterate : LoopState → LoopState
  iterate s = next_state (after (unless_ready s.group_ready s.world) (λ t. poll_once D R config T))

  unfoldable pub run_forever : ℕ → LoopState → LoopState
  unfolding iterate
  run_forever zero s = s
  run_forever (suc n) s = run_forever n (iterate s)

  abbrev pub IsPending : R.State → String → Type 0
  IsPending s id = R.pending s id ≡ true

  -- A step that keeps an id pending, after one that does.
  after-IsPending :
      {A B : Type 0} (m : Result StreamError A × R.State) (f : A → Action R.State StreamError B)
      (id : String)
      → IsPending m.1 id
      → ((a : A) (s : R.State) → IsPending s id → IsPending (f a s).1 id)
      → IsPending (after m f).1 id
  after-IsPending (ok a, s) f id h k = k a s h
  after-IsPending (err e, s) f id h k = h

  read_messages-IsPending :
      (cursor : String) (block : Option ℕ) (s : R.State) (id : String)
      → IsPending s id
      → IsPending (read_messages D R config cursor block s).1 id
  unfolding read_messages
  read_messages-IsPending cursor block s id h =
      after-IsPending (R.xreadgroup cursor config.batch_size block s)
        (λ entries. returned D R config (decode_entries D entries)) id
        (R.xreadgroup-keeps cursor config.batch_size block s id h) (λ a t k. k)

  pending_or_new-IsPending :
      (old : List (StreamMessage D)) (s : R.State) (id : String)
      → IsPending s id
      → IsPending (pending_or_new D R config old s).1 id
  pending_or_new-IsPending [] s id h = read_messages-IsPending ">" (some config.block_ms) s id h
  pending_or_new-IsPending (m ∷ old) s id h = h

  pub read_batch-IsPending :
      (s : R.State) (id : String) → IsPending s id → IsPending (read_batch D R config s).1 id
  unfolding read_batch
  read_batch-IsPending s id h =
      after-IsPending (read_messages D R config "0" none s) (pending_or_new D R config) id
        (read_messages-IsPending "0" none s id h) (λ old t k. pending_or_new-IsPending old t id k)

  ack_many-IsPending :
      (ids : List String) (s : R.State) (id : String)
      → contains ids id ≡ false
      → IsPending s id
      → IsPending (ack_many D R config ids s).1 id
  unfolding ack_many
  ack_many-IsPending [] s id h p = p
  ack_many-IsPending (i ∷ ids) s id h p = R.xack-keeps (i ∷ ids) s id h p

  valid-ids :
      (ms : List (StreamMessage D)) (id : String)
      → contains (ids_of D ms) id ≡ false
      → contains (sort_messages D ms).valid_message_ids id ≡ false
  unfolding sort_messages
  valid-ids [] id h = refl
  valid-ids (m ∷ ms) id h = elim (Option-cases (coerce_payload D m.payload)) [
    | inl n ↦ rw n (valid-ids ms id (ground arith))
    | inr (e, v) ↦ rw v (ground (arith, valid-ids ms id))
  ]

  finish-IsPending :
      (n : ℕ) (sorted : SortedMessages D) (k : ℕ)
      (answer : Result StoreError (IngestEventsResult D.Datetime D.Decimal))
      (w : World D R config T) (id : String)
      → contains sorted.valid_message_ids id ≡ false
      → IsPending w.redis id
      → IsPending (finish D R config T n sorted k answer w).1.redis id
  unfolding finish
  finish-IsPending n sorted k (err e) w id h p = p
  finish-IsPending n sorted k (ok r) w id h p =
      subst (λ (v : World D R config T). IsPending v.redis id)
        (sym (
          after-pure (on_redis D R config T (ack_many D R config sorted.valid_message_ids) w)
            (stored_result D R config T n sorted k r)))
        (ack_many-IsPending sorted.valid_message_ids w.redis id h p)

  store_valid-IsPending :
      (n : ℕ) (sorted : SortedMessages D) (k : ℕ) (events : List (WebEvent D.Datetime D.Decimal))
      (w : World D R config T) (id : String)
      → contains sorted.valid_message_ids id ≡ false
      → IsPending w.redis id
      → IsPending (store_valid D R config T n sorted k events w).1.redis id
  unfolding store_valid
  store_valid-IsPending n sorted k [] w id h p = p
  store_valid-IsPending n sorted k (e ∷ events) w id h p =
      let x = ingest D.Datetime D.Decimal T (e ∷ events) w.database in
      finish-IsPending n sorted k x.0 (record w { database = x.1 }) id h p

  -- A step after another keeps a property of the world that both keep.
  pub after-keeps :
      {A B : Type 0} (P : World D R config T → Type 0)
      (m : Result StreamError A × World D R config T)
      (f : A → Action (World D R config T) StreamError B)
      → P m.1
      → ((a : A) (w : World D R config T) → P w → P (f a w).1)
      → P (after m f).1
  after-keeps P (ok a, w) f h k = k a w h
  after-keeps P (err e, w) f h k = h

  pub poll_messages-IsPending :
      (ms : List (StreamMessage D)) (w : World D R config T) (id : String)
      → contains (ids_of D ms) id ≡ false
      → IsPending w.redis id
      → IsPending (poll_messages D R config T ms w).1.redis id
  unfolding poll_messages
  poll_messages-IsPending ms w id h p =
      after-keeps (λ v. IsPending v.redis id)
        (on_redis D R config T (ack_many D R config (sort_messages D ms).invalid_message_ids) w) _
        (ack_many-IsPending (sort_messages D ms).invalid_message_ids w.redis id
          (invalid-ids D ms id h) p)
        (λ k v q.
          store_valid-IsPending (length ms) (sort_messages D ms) k (sort_messages D ms).valid_events
            v id (valid-ids ms id h) q)
