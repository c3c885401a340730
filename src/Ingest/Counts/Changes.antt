-- ===== src/Ingest/Counts/Changes.antt =====
-- The counts that a poll reports against what it changes.
use live_data_architecture.Base.{
  ℕ, ◌+◌, String, ◌≡◌, refl, ap, ◌∙◌, sym, subst, true, false, List, [], ◌∷◌, arith, length,
}
use live_data_architecture.Base.Results.{Result, ok, err}
use live_data_architecture.Ingest.{WebEvent}
use live_data_architecture.Base.Action.{after-eq-ok, pure-value}
use live_data_architecture.Ingest.Stream.{Decoders, StreamError, StreamConfig, Redis, ack_many}
use live_data_architecture.Ingest.Store.{
  StoreError, EventTable, IngestEventsResult, save_batch, ingest,
}
use live_data_architecture.Ingest.Poll.{
  EventStreamIngestionPollResult, SortedMessages, World, on_redis, finish, store_valid,
}

true-not-false : true ≡ false → ⊥
true-not-false h = cc

module _ (D : Decoders) (R : Redis D) (config : StreamConfig)
    (T : EventTable D.Datetime D.Decimal) where
  -- A result against the world before and after: as many messages as it says are no longer pending,
  -- besides those acknowledged before; and unless the store failed, as many rows are new as it says.
  pub record Reports (acked_before : ℕ) (sorted : SortedMessages D) (w w' : World D R config T)
      (r : EventStreamIngestionPollResult) : Type 0 where
    pub valid : r.valid_count ≡ length sorted.valid_events
    pub invalid : r.invalid_count ≡ length sorted.invalid_message_ids
    pub acked : R.pending_count w.redis + acked_before ≡ r.acked_count + R.pending_count w'.redis
    pub inserted :
        r.store_failed ≡ false → T.row_count w'.database ≡ T.row_count w.database + r.inserted_count

  pub ack_many-counts :
      (ids : List String) (w w' : World D R config T) (n : ℕ)
      → on_redis D R config T (ack_many D R config ids) w ≡ (ok n, w')
      → (R.pending_count w.redis ≡ n + R.pending_count w'.redis) × (w'.database ≡ w.database)
  unfolding ack_many
  ack_many-counts [] w w' n h = (
    omega (
      arith,
      pure-value h,
      ap (λ (x : Result StreamError ℕ × World D R config T). R.pending_count x.1.redis) h,
    ),
    ap (λ (x : Result StreamError ℕ × World D R config T). x.1.database) (sym h),
  )
  ack_many-counts (i ∷ ids) w w' n h = (
    R.xack-counts (i ∷ ids) w.redis w'.redis n
        (ap (λ (x : Result StreamError ℕ × World D R config T). (x.0, x.1.redis)) h),
    ap (λ (x : Result StreamError ℕ × World D R config T). x.1.database) (sym h),
  )

  pub ingest-counts :
      (events : List (WebEvent D.Datetime D.Decimal)) (s s' : T.State)
      (r : IngestEventsResult D.Datetime D.Decimal)
      → ingest D.Datetime D.Decimal T events s ≡ (ok r, s')
      → T.row_count s' ≡ T.row_count s + r.inserted_count
  unfolding ingest save_batch
  ingest-counts [] s s' r h = omega (
    arith,
    ap (λ (i : IngestEventsResult D.Datetime D.Decimal). i.inserted_count) (pure-value h),
    ap
        (λ (x : Result StoreError (IngestEventsResult D.Datetime D.Decimal) × T.State).
          T.row_count x.1)
        h,
  )
  ingest-counts (e ∷ events) s s' r h =
      let (n, s₁, saved, same) =
        after-eq-ok (save_batch D.Datetime D.Decimal T (e ∷ events) s) _ h in
      let (ids, s₂, inserted, same') = after-eq-ok (T.insert_ignoring_conflicts _ s) _ saved in
      omega (
        arith,
        T.insert-counts _ s s₂ ids inserted,
        pure-value same',
        ap (λ (x : Result StoreError ℕ × T.State). T.row_count x.1) same',
        ap (λ (i : IngestEventsResult D.Datetime D.Decimal). i.inserted_count) (pure-value same),
        ap
            (λ (x : Result StoreError (IngestEventsResult D.Datetime D.Decimal) × T.State).
              T.row_count x.1)
            same,
      )

  -- Where a result is returned as it is, the world does not change.
  pub returned :
      {r r' : EventStreamIngestionPollResult} {w w' : World D R config T}
      → ◌≡◌ {A = Result StreamError EventStreamIngestionPollResult × World D R config T}
          (ok r, w)
          (ok r', w')
      → (r ≡ r') × (w ≡ w')
  returned h = (
    pure-value h,
    ap (λ (x : Result StreamError EventStreamIngestionPollResult × World D R config T). x.1) h,
  )

  moved :
      {k : ℕ} {sorted : SortedMessages D} {r r' : EventStreamIngestionPollResult}
      {w u u' : World D R config T}
      → (r ≡ r') × (u ≡ u')
      → Reports k sorted w u r
      → Reports k sorted w u' r'
  moved {k} {sorted} {r} {r'} {w} {u} {u'} (same, same_world) h =
      subst (λ x. Reports k sorted w u' x) same (subst (λ v. Reports k sorted w v r) same_world h)

  finish-Reports :
      (n : ℕ) (sorted : SortedMessages D) (k : ℕ)
      (answer : Result StoreError (IngestEventsResult D.Datetime D.Decimal))
      (w v w' : World D R config T) (r : EventStreamIngestionPollResult)
      → w.redis ≡ v.redis
      → ((i : IngestEventsResult D.Datetime D.Decimal)
          → answer ≡ ok i
          → T.row_count v.database ≡ T.row_count w.database + i.inserted_count)
      → finish D R config T n sorted k answer v ≡ (ok r, w')
      → Reports k sorted w w' r
  unfolding finish
  finish-Reports n sorted k (err e) w v w' r same count h = moved (returned h) (record {
    valid = refl;
    invalid = refl;
    acked = omega (arith, ap R.pending_count same);
    inserted = λ f. absurd (true-not-false f);
  })
  finish-Reports n sorted k (ok i) w v w' r same count h =
      let (acked, w₁, answered, last) =
        after-eq-ok (on_redis D R config T (ack_many D R config sorted.valid_message_ids) v) _ h in
      let (taken, kept) = ack_many-counts sorted.valid_message_ids v w₁ acked answered in
      moved (returned last) (record {
        valid = refl;
        invalid = refl;
        acked = omega (arith, ap R.pending_count same, taken);
        inserted = λ f. ap T.row_count kept ∙ count i refl;
      })

  pub store_valid-Reports :
      (n : ℕ) (sorted : SortedMessages D) (k : ℕ) (events : List (WebEvent D.Datetime D.Decimal))
      (w w' : World D R config T) (r : EventStreamIngestionPollResult)
      → store_valid D R config T n sorted k events w ≡ (ok r, w')
      → Reports k sorted w w' r
  unfolding store_valid
  store_valid-Reports n sorted k [] w w' r h =
      moved (returned h)
        (record { valid = refl; invalid = refl; acked = omega arith; inserted = λ f. omega arith })
  store_valid-Reports n sorted k (e ∷ events) w w' r h =
      let x = ingest D.Datetime D.Decimal T (e ∷ events) w.database in
      finish-Reports n sorted k x.0 w (record w { database = x.1 }) w' r refl
        (λ i got.
          ingest-counts (e ∷ events) w.database x.1 i (
            ap (λ (a : Result StoreError (IngestEventsResult D.Datetime D.Decimal)). (a, x.1)) got))
        h
