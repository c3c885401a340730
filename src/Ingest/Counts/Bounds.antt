-- ===== src/Ingest/Counts/Bounds.antt =====
-- Bounds on the counts that a poll reports.
use live_data_architecture.Base.{
  ℕ, suc, ◌+◌, ◌≤◌, String, ◌≡◌, refl, ap, subst, true, false, Option, none, some, List, [], ◌∷◌,
  map, arith, length,
}
use live_data_architecture.Base.Results.{Result, ok, err}
use live_data_architecture.Ingest.{WebEvent}
use live_data_architecture.Base.Action.{after-eq-ok, pure-value}
use live_data_architecture.Ingest.Stream.{
  Decoders, StreamError, StreamConfig, StreamMessage, Redis, ack_many,
}
use live_data_architecture.Ingest.Store.{
  StoreError, EventTable, IngestEventsResult, event_to_record_values, save_batch, ingest,
}
use live_data_architecture.Ingest.Poll.{
  EventStreamIngestionPollResult, SortedMessages, World, on_redis, coerce_payload, add_message,
  sort_messages, finish, store_valid,
}

-- No more rows are inserted than events are valid, and no more ids acknowledged than messages read.
-- A batch that failed to be stored inserts nothing and has invalid messages acknowledged only.
pub record IsBounded (r : EventStreamIngestionPollResult) : Type 0 where
  pub read : r.read_count ≡ r.valid_count + r.invalid_count
  pub inserted : r.inserted_count ≤ r.valid_count
  pub acked : r.acked_count ≤ r.read_count
  pub failed : r.store_failed ≡ true → (r.inserted_count ≡ 0) × (r.acked_count ≤ r.invalid_count)

false-not-true : false ≡ true → ⊥
false-not-true h = cc

module _ (D : Decoders) where
  -- The lists of the sorted messages have the lengths that they should.
  pub record IsSorted (n : ℕ) (sorted : SortedMessages D) : Type 0 where
    pub total : n ≡ length sorted.valid_events + length sorted.invalid_message_ids
    pub ids : length sorted.valid_message_ids ≡ length sorted.valid_events

  add_message-IsSorted :
      (id : String) (event : Option (WebEvent D.Datetime D.Decimal)) (n : ℕ)
      (sorted : SortedMessages D)
      → IsSorted n sorted
      → IsSorted (suc n) (add_message D id event sorted)
  add_message-IsSorted id none n sorted h = record { total = omega (arith, h.total); ids = h.ids }
  add_message-IsSorted id (some event) n sorted h = record {
    total = omega (arith, h.total);
    ids = omega (arith, h.ids);
  }

  pub sort_messages-IsSorted :
      (ms : List (StreamMessage D)) → IsSorted (length ms) (sort_messages D ms)
  unfolding sort_messages
  sort_messages-IsSorted [] = record { total = refl; ids = refl }
  sort_messages-IsSorted (m ∷ ms) =
      add_message-IsSorted m.message_id (coerce_payload D m.payload) (length ms)
        (sort_messages D ms) (sort_messages-IsSorted ms)

  length-map_rows :
      (events : List (WebEvent D.Datetime D.Decimal))
      → length (map (event_to_record_values D.Datetime D.Decimal) events) ≡ length events
  length-map_rows [] = refl
  length-map_rows (e ∷ events) = omega (arith, length-map_rows events)

  module _ (R : Redis D) (config : StreamConfig) (T : EventTable D.Datetime D.Decimal) where
    ack_many-le :
        (ids : List String) (s s' : R.State) (n : ℕ)
        → ack_many D R config ids s ≡ (ok n, s')
        → n ≤ length ids
    unfolding ack_many
    ack_many-le [] s s' n h = subst (λ k. k ≤ 0) (pure-value h) (omega arith)
    ack_many-le (i ∷ ids) s s' n h = R.xack-le (i ∷ ids) s s' n h

    pub on_redis-ack-le :
        (ids : List String) (w w' : World D R config T) (n : ℕ)
        → on_redis D R config T (ack_many D R config ids) w ≡ (ok n, w')
        → n ≤ length ids
    on_redis-ack-le ids w w' n h =
        ack_many-le ids w.redis w'.redis n
          (ap (λ (x : Result StreamError ℕ × World D R config T). (x.0, x.1.redis)) h)

    ingest-le :
        (events : List (WebEvent D.Datetime D.Decimal)) (s s' : T.State)
        (r : IngestEventsResult D.Datetime D.Decimal)
        → ingest D.Datetime D.Decimal T events s ≡ (ok r, s')
        → r.inserted_count ≤ length events
    unfolding ingest save_batch
    ingest-le [] s s' r h =
        subst (λ (i : IngestEventsResult D.Datetime D.Decimal). i.inserted_count ≤ 0) (pure-value h)
          (omega arith)
    ingest-le (e ∷ events) s s' r h =
        let (n, s₁, saved, same) =
          after-eq-ok (save_batch D.Datetime D.Decimal T (e ∷ events) s) _ h in
        let (ids, s₂, inserted, same') = after-eq-ok (T.insert_ignoring_conflicts _ s) _ saved in
        let few = T.insert-le _ s s₂ ids inserted in
        let count : n ≤ length (e ∷ events) =
          omega (arith, few, pure-value same', length-map_rows (e ∷ events)) in
        subst
          (λ (i : IngestEventsResult D.Datetime D.Decimal). i.inserted_count ≤ length (e ∷ events))
          (pure-value same) count

    finish-IsBounded :
        (n : ℕ) (sorted : SortedMessages D) (k : ℕ)
        (answer : Result StoreError (IngestEventsResult D.Datetime D.Decimal))
        (w w' : World D R config T) (r : EventStreamIngestionPollResult)
        → IsSorted n sorted
        → k ≤ length sorted.invalid_message_ids
        → ((i : IngestEventsResult D.Datetime D.Decimal)
            → answer ≡ ok i
            → i.inserted_count ≤ length sorted.valid_events)
        → finish D R config T n sorted k answer w ≡ (ok r, w')
        → IsBounded r
    unfolding finish
    finish-IsBounded n sorted k (err e) w w' r is_sorted few_acked few h =
        subst IsBounded (pure-value h) (record {
          read = is_sorted.total;
          inserted = omega arith;
          acked = omega (arith, few_acked, is_sorted.total);
          failed = λ f. (refl, few_acked);
        })
    finish-IsBounded n sorted k (ok i) w w' r is_sorted few_acked few h =
        let (acked, w₁, answered, same) =
          after-eq-ok (on_redis D R config T (ack_many D R config sorted.valid_message_ids) w) _
            h in
        let few_valid = on_redis-ack-le sorted.valid_message_ids w w₁ acked answered in
        subst IsBounded (pure-value same) (record {
          read = is_sorted.total;
          inserted = few i refl;
          acked = omega (arith, few_acked, few_valid, is_sorted.total, is_sorted.ids);
          failed = λ f. absurd (false-not-true f);
        })

    pub store_valid-IsBounded :
        (n : ℕ) (sorted : SortedMessages D) (k : ℕ) (events : List (WebEvent D.Datetime D.Decimal))
        (w w' : World D R config T) (r : EventStreamIngestionPollResult)
        → IsSorted n sorted
        → k ≤ length sorted.invalid_message_ids
        → events ≡ sorted.valid_events
        → store_valid D R config T n sorted k events w ≡ (ok r, w')
        → IsBounded r
    unfolding store_valid
    store_valid-IsBounded n sorted k [] w w' r is_sorted few_acked same h =
        subst IsBounded (pure-value h) (record {
          read = is_sorted.total;
          inserted = omega arith;
          acked = omega (arith, few_acked, is_sorted.total);
          failed = λ f. absurd (false-not-true f);
        })
    store_valid-IsBounded n sorted k (e ∷ events) w w' r is_sorted few_acked same h =
        let x = ingest D.Datetime D.Decimal T (e ∷ events) w.database in
        finish-IsBounded n sorted k x.0 (record w { database = x.1 }) w' r is_sorted few_acked
          (λ i got.
            subst (λ (l : List (WebEvent D.Datetime D.Decimal)). i.inserted_count ≤ length l) same
              (ingest-le (e ∷ events) w.database x.1 i (
                ap (λ (a : Result StoreError (IngestEventsResult D.Datetime D.Decimal)). (a, x.1))
                  got)))
          h
