-- ===== src/Ingest/Counts.antt =====
-- The counts that a poll reports: against the messages that it read, the stream and the table.
mod Bounds
mod Changes
use live_data_architecture.Base.{
  ℕ, suc, ◌+◌, ◌≤◌, String, ◌≡◌, refl, ap, ◌∙◌, sym, Bool, true, false, Option, none, some, List,
  [], ◌∷◌, arith, length,
}
use live_data_architecture.Base.Results.{Result, ok}
use live_data_architecture.Base.Action.{after-eq-ok}
use live_data_architecture.Ingest.{WebEvent}
use live_data_architecture.Ingest.Stream.{
  Decoders, StreamError, StreamConfig, StreamMessage, Redis, ack_many, read_batch,
}
use live_data_architecture.Ingest.Store.{EventTable}
use live_data_architecture.Ingest.Poll.{
  EventStreamIngestionPollResult, SortedMessages, World, on_redis, coerce_payload, add_message,
  sort_messages, poll_messages, poll_once,
}
use live_data_architecture.Ingest.Counts.Bounds.{
  IsBounded, sort_messages-IsSorted, on_redis-ack-le, store_valid-IsBounded,
}
use live_data_architecture.Ingest.Counts.Changes.{Reports, ack_many-counts, store_valid-Reports}

module _ (D : Decoders) where
  -- One more where there is an event.
  abbrev pub add_valid : Option (WebEvent D.Datetime D.Decimal) → ℕ → ℕ
  add_valid none n = n
  add_valid (some event) n = suc n

  -- How many messages have a payload that is valid.
  abbrev pub valid_among : List (StreamMessage D) → ℕ
  valid_among [] = 0
  valid_among (m ∷ ms) = add_valid (coerce_payload D m.payload) (valid_among ms)

  add_message-length :
      (id : String) (event : Option (WebEvent D.Datetime D.Decimal)) (sorted : SortedMessages D)
      (n : ℕ)
      → length sorted.valid_events ≡ n
      → length (add_message D id event sorted).valid_events ≡ add_valid event n
  add_message-length id none sorted n h = h
  add_message-length id (some event) sorted n h = ap suc h

  sort_messages-length :
      (ms : List (StreamMessage D)) → length (sort_messages D ms).valid_events ≡ valid_among ms
  unfolding sort_messages
  sort_messages-length [] = refl
  sort_messages-length (m ∷ ms) =
      add_message-length m.message_id (coerce_payload D m.payload) (sort_messages D ms)
        (valid_among ms) (sort_messages-length ms)

  module _ (R : Redis D) (config : StreamConfig) (T : EventTable D.Datetime D.Decimal) where
    -- The counts of a result, for the messages that were read, the world just after the read, and the
    -- world at the end: the messages are counted, and of these the valid ones and the others; as many
    -- messages are no longer pending as are counted as acknowledged; and, unless the store failed,
    -- the table has as many rows more as are counted as inserted.
    pub record AddsUp (ms : List (StreamMessage D)) (w w' : World D R config T)
        (r : EventStreamIngestionPollResult) : Type 0 where
      pub read : r.read_count ≡ length ms
      pub valid : r.valid_count ≡ valid_among ms
      pub invalid : r.read_count ≡ r.valid_count + r.invalid_count
      pub acked : R.pending_count w.redis ≡ r.acked_count + R.pending_count w'.redis
      pub acked_few : r.acked_count ≤ r.read_count
      pub inserted :
          r.store_failed ≡ false
          → T.row_count w'.database ≡ T.row_count w.database + r.inserted_count
      pub inserted_few : r.inserted_count ≤ r.valid_count
      pub failed :
          r.store_failed ≡ true → (r.inserted_count ≡ 0) × (r.acked_count ≤ r.invalid_count)

    -- The counts of a poll that returns are those of the messages that it read, and of what it did to
    -- the stream and the table since the read. As many messages are acknowledged as are no longer
    -- pending, at most all, and at most the invalid ones if the store failed. The inserted rows are at
    -- most one for each valid message; they are none if the store failed, and else as many as are new
    -- in the table.
    pub poll_once_counts :
        (w w' : World D R config T) (r : EventStreamIngestionPollResult)
        → poll_once D R config T w ≡ (ok r, w')
        → (ms : List (StreamMessage D)) × (w₁ : World D R config T) × (on_redis D R config T
              (read_batch D R config)
              w
            ≡ (ok ms, w₁))
          × AddsUp ms w₁ w' r
    unfolding poll_once poll_messages
    poll_once_counts w w' r h =
        let (ms, w₁, got, h₁) = after-eq-ok (on_redis D R config T (read_batch D R config) w) _ h in
        let sorted = sort_messages D ms in
        let (k, w₂, acked, h₂) =
          after-eq-ok (on_redis D R config T (ack_many D R config sorted.invalid_message_ids) w₁) _
            h₁ in
        let bounded =
          store_valid-IsBounded D R config T (length ms) sorted k sorted.valid_events w₂ w' r
            (sort_messages-IsSorted D ms) (on_redis-ack-le D R config T _ w₁ w₂ k acked) refl h₂ in
        let reported =
          store_valid-Reports D R config T (length ms) sorted k sorted.valid_events w₂ w' r h₂ in
        let (taken, kept) = ack_many-counts D R config T sorted.invalid_message_ids w₁ w₂ k acked in
        let total = (sort_messages-IsSorted D ms).total in
        (
          ms,
          w₁,
          got,
          record {
            read = omega (arith, total, bounded.read, reported.valid, reported.invalid);
            valid = reported.valid ∙ sort_messages-length ms;
            invalid = bounded.read;
            acked = omega (arith, taken, reported.acked);
            acked_few = bounded.acked;
            inserted = λ f. reported.inserted f ∙ ap (λ d. T.row_count d + r.inserted_count) kept;
            inserted_few = bounded.inserted;
            failed = bounded.failed;
          },
        )
