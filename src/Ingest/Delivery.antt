-- ===== src/Ingest/Delivery.antt =====
-- No event is lost between the stream and the table: delivery is at least once.
pub mod Sorting
pub mod Reading
use live_data_architecture.Base.{
  none-not-some, some-injective, ℕ, String, ◌≡◌, ◌⊎◌, inl, inr, refl, sym, ap, ◌∙◌, true, false,
  Option, none, some, List, [], ◌∷◌, map, subst, arith, length, All, contains, eq_iff, Option-cases,
}
use live_data_architecture.Base.Results.{err-not-ok, Result, ok, err, ok-injective}
use live_data_architecture.Ingest.{WebEvent}
use live_data_architecture.Base.Action.{after, after-eq-ok, after-pure}
use live_data_architecture.Ingest.Stream.{
  Decoders, StreamError, StreamConfig, StreamMessage, Redis, RedisText, RedisStreamFields,
  decode_text, decode_payload, message_of, decode_message, decode_messages, decode_entries,
  concat_entries, cons_result, pending_or_new, read_messages, read_batch, ack_many,
}
use live_data_architecture.Ingest.Store.{
  StoreError, EventTable, IngestEventsResult, event_to_record_values, save_batch, ingest,
}
use live_data_architecture.Ingest.Poll.{
  SortedMessages, World, on_redis, coerce_payload, add_message, sort_messages, stored_result,
  finish, store_valid, poll_messages, poll_once,
}
use live_data_architecture.Ingest.Delivery.Sorting.{
  ids_of, DistinctIds, IsValid, Spared, valid-Spared,
}
use live_data_architecture.Ingest.Delivery.Reading.{IsPending, read_batch-IsPending}

module _ (D : Decoders) where
  module _ (R : Redis D) (config : StreamConfig) (T : EventTable D.Datetime D.Decimal) where
    abbrev AreStored : T.State → List (WebEvent D.Datetime D.Decimal) → Type 0
    AreStored s = All (λ e. T.stored s e.event_id ≡ true)

    ack_many-keeps :
        (ids : List String) (s : R.State) (id : String)
        → contains ids id ≡ false
        → IsPending D R config s id
        → IsPending D R config (ack_many D R config ids s).1 id
    unfolding ack_many
    ack_many-keeps [] s id h p = p
    ack_many-keeps (i ∷ ids) s id h p = R.xack-keeps (i ∷ ids) s id h p

    stored_rows :
        (events : List (WebEvent D.Datetime D.Decimal)) (s : T.State)
        → All
            (λ row. T.stored s row.event_id ≡ true)
            (map (event_to_record_values D.Datetime D.Decimal) events)
        → AreStored s events
    unfolding event_to_record_values
    stored_rows [] s h = tt
    stored_rows (e ∷ events) s h = (h.0, stored_rows events s h.1)

    -- An `ingest` that returns has stored every event.
    ingest-stores :
        (events : List (WebEvent D.Datetime D.Decimal)) (s s' : T.State)
        (r : IngestEventsResult D.Datetime D.Decimal)
        → ingest D.Datetime D.Decimal T events s ≡ (ok r, s')
        → AreStored s' events
    unfolding ingest save_batch
    ingest-stores [] s s' r h = tt
    ingest-stores (e ∷ events) s s' r h =
        let (n, s₁, saved, same) =
          after-eq-ok (save_batch D.Datetime D.Decimal T (e ∷ events) s) _ h in
        let (ids, s₂, inserted, same') = after-eq-ok (T.insert_ignoring_conflicts _ s) _ saved in
        let final : s₂ ≡ s' =
          ap (λ (x : Result StoreError ℕ × T.State). x.1) same'
          ∙ ap (λ (x : Result StoreError (IngestEventsResult D.Datetime D.Decimal) × T.State). x.1)
              same in
        stored_rows (e ∷ events) s' (
          subst
            (λ t.
              All (λ row. T.stored t row.event_id ≡ true)
                (map (event_to_record_values D.Datetime D.Decimal) (e ∷ events)))
            final (T.insert-stores _ s s₂ ids inserted))

    finish_lem :
        (n : ℕ) (sorted : SortedMessages D) (k : ℕ) (events : List (WebEvent D.Datetime D.Decimal))
        (answer : Result StoreError (IngestEventsResult D.Datetime D.Decimal))
        (w : World D R config T)
        → ((r : IngestEventsResult D.Datetime D.Decimal)
            → answer ≡ ok r
            → AreStored w.database events)
        → ((finish D R config T n sorted k answer w).1.redis ≡ w.redis)
          ⊎ AreStored (finish D R config T n sorted k answer w).1.database events
    unfolding finish
    finish_lem n sorted k events (err e) w h = inl refl
    finish_lem n sorted k events (ok r) w h = inr (
        subst (λ v. AreStored v.database events)
          (sym (
            after-pure (on_redis D R config T (ack_many D R config sorted.valid_message_ids) w)
              (stored_result D R config T n sorted k r)))
          (h r refl))

    -- Storing either leaves the stream alone or stores every event.
    store_valid_lem :
        (n : ℕ) (sorted : SortedMessages D) (k : ℕ) (events : List (WebEvent D.Datetime D.Decimal))
        (w : World D R config T)
        → ((store_valid D R config T n sorted k events w).1.redis ≡ w.redis)
          ⊎ AreStored (store_valid D R config T n sorted k events w).1.database events
    unfolding store_valid
    store_valid_lem n sorted k [] w = inl refl
    store_valid_lem n sorted k (e ∷ events) w =
        let x = ingest D.Datetime D.Decimal T (e ∷ events) w.database in
        finish_lem n sorted k (e ∷ events) x.0 (record w { database = x.1 })
          (λ r h.
            ingest-stores (e ∷ events) w.database x.1 r (
              ap (λ (a : Result StoreError (IngestEventsResult D.Datetime D.Decimal)). (a, x.1)) h))

    -- A valid message is still pending, or its event is stored.
    abbrev pub IsKept : World D R config T → StreamMessage D → Type 0
    IsKept w m =
        (e : WebEvent D.Datetime D.Decimal)
        → coerce_payload D m.payload ≡ some e
        → IsPending D R config w.redis m.message_id ⊎ (T.stored w.database e.event_id ≡ true)

    first_stored :
        (e : WebEvent D.Datetime D.Decimal) (id : String) (rest : SortedMessages D)
        (w : World D R config T)
        → AreStored w.database (add_message D id (some e) rest).valid_events
        → (T.stored w.database e.event_id ≡ true) × AreStored w.database rest.valid_events
    first_stored e id rest w h = h

    stored-IsKept :
        (ms : List (StreamMessage D)) (w : World D R config T)
        → AreStored w.database (sort_messages D ms).valid_events
        → All (IsKept w) ms
    unfolding sort_messages
    stored-IsKept [] w h = tt
    stored-IsKept (m ∷ ms) w h = elim (Option-cases (coerce_payload D m.payload)) [
      | inl n ↦ (λ e v. absurd (none-not-some (sym n ∙ v)), stored-IsKept ms w (rw n at h))
      | inr (e, v) ↦
          let (first, rest) = first_stored e m.message_id (sort_messages D ms) w (rw v at h) in
          (
            λ e' v'. inr (
                subst (λ (x : WebEvent D.Datetime D.Decimal). T.stored w.database x.event_id ≡ true)
                  (some-injective (sym v ∙ v')) first),
            stored-IsKept ms w rest,
          )
    ]

    pending-IsKept :
        (ms all_ms : List (StreamMessage D)) (w w' : World D R config T)
        → All (λ m. IsPending D R config w.redis m.message_id) ms
        → w'.redis ≡ (ack_many D R config (sort_messages D all_ms).invalid_message_ids w.redis).1
        → All (Spared D (sort_messages D all_ms).invalid_message_ids) ms
        → All (IsKept w') ms
    pending-IsKept [] all_ms w w' p same h = tt
    pending-IsKept (m ∷ ms) all_ms w w' p same h = (
      λ e v. inl (rw same (ack_many-keeps _ w.redis m.message_id (h.0 e v) p.0)),
      pending-IsKept ms all_ms w w' p.1 same h.1,
    )

    after_ack :
        (messages : List (StreamMessage D)) (w w₁ : World D R config T)
        (answer : Result StreamError ℕ)
        → DistinctIds D messages
        → All (λ m. IsPending D R config w.redis m.message_id) messages
        → w₁.redis ≡ (ack_many D R config (sort_messages D messages).invalid_message_ids w.redis).1
        → All
            (IsKept
              (after
                (answer, w₁)
                (λ k.
                  store_valid D R config T
                    (length messages)
                    (sort_messages D messages)
                    k
                    (sort_messages D messages).valid_events)).1)
            messages
    after_ack messages w w₁ (err e) d p same =
        pending-IsKept messages messages w w₁ p same (valid-Spared D messages d)
    after_ack messages w w₁ (ok k) d p same =
        elim (store_valid_lem (length messages) (sort_messages D messages) k
          (sort_messages D messages).valid_events w₁) [
            | inl unchanged ↦
                pending-IsKept messages messages w _ p (unchanged ∙ same)
                  (valid-Spared D messages d)
            | inr stored ↦ stored-IsKept messages _ stored
          ]

    -- Whatever a poll does with the messages that it read, and whether it returns or raises, each
    -- valid one of them is still pending, or its event is stored. The messages were pending, and
    -- their ids are distinct.
    pub poll_messages_keeps :
        (messages : List (StreamMessage D)) (w : World D R config T)
        → DistinctIds D messages
        → All (λ m. IsPending D R config w.redis m.message_id) messages
        → All (IsKept (poll_messages D R config T messages w).1) messages
    unfolding poll_messages
    poll_messages_keeps messages w d p =
        let x =
          on_redis D R config T (ack_many D R config (sort_messages D messages).invalid_message_ids)
            w in
        after_ack messages w x.1 x.0 d p refl

    -- A poll that reads a batch with distinct ids loses none of it, whether the poll then returns or
    -- raises: each message of the batch that is a valid event is still pending in the stream's group,
    -- to be read again, or its event is stored.
    pub poll_once_keeps :
        (w w₁ : World D R config T) (messages : List (StreamMessage D))
        → on_redis D R config T (read_batch D R config) w ≡ (ok messages, w₁)
        → DistinctIds D messages
        → All (IsKept (poll_once D R config T w).1) messages
    unfolding poll_once
    poll_once_keeps w w₁ messages h d =
        let redis_eq : read_batch D R config w.redis ≡ (ok messages, w₁.redis) =
          ap
            (λ (x : Result StreamError (List (StreamMessage D)) × World D R config T).
              (x.0, x.1.redis))
            h in
        let all_pending = read_batch-IsPending D R config w.redis w₁.redis messages redis_eq in
        subst (λ x. All (IsKept (after x (poll_messages D R config T)).1) messages) (sym h)
          (poll_messages_keeps messages w₁ d all_pending)
