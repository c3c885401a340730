-- ===== src/Ingest/Loop/Safety.antt =====
-- The events of pending messages are delivered by `run_forever`, however its polls fail.
use live_data_architecture.Base.{
  ℕ, zero, suc, String, ◌≡◌, refl, Bool, true, false, some, List, [], ◌∷◌, sym, ap, ◌∙◌, subst, map,
  contains, arith, ◌==◌, inl, inr, length, ◌⊎◌, Bool-cases, All, eq_iff,
}
use live_data_architecture.Base.Results.{Result, ok, err}
use live_data_architecture.Ingest.{WebEvent}
use live_data_architecture.Base.Action.{after, after-pure}
use live_data_architecture.Ingest.Stream.{
  Decoders, StreamError, StreamConfig, StreamMessage, Redis, ensure_group, read_batch, ack_many,
}
use live_data_architecture.Ingest.Store.{
  StoreError, EventTable, IngestEventsResult, event_to_record_values, save_batch, ingest,
}
use live_data_architecture.Ingest.Poll.{
  EventStreamIngestionPollResult, SortedMessages, World, on_redis, coerce_payload, sort_messages,
  stored_result, finish, store_valid, poll_messages, poll_once,
}
use live_data_architecture.Ingest.Delivery.{IsKept, poll_once_keeps}
use live_data_architecture.Ingest.Delivery.Sorting.{ids_of, DistinctIds}
use live_data_architecture.Ingest.Loop.{
  LoopState, unless_ready, next_state, iterate, run_forever, IsPending, after-keeps,
  read_batch-IsPending, poll_messages-IsPending,
}

module _ (D : Decoders) (R : Redis D) (config : StreamConfig)
    (T : EventTable D.Datetime D.Decimal) where
  -- A read gives distinct ids, and the stream still holds the entry of one message: wherever its id
  -- is read, it is with its payload. The producer adds entries with MAXLEN, so Redis may trim an
  -- entry that is pending, and reads it with no fields from then on; this is no hypothesis on the
  -- other messages.
  pub record RetainsEntry (id : String) (payload : D.JsonObject) : Type 0 where
    pub distinct :
        (s s' : R.State) (ms : List (StreamMessage D))
        → read_batch D R config s ≡ (ok ms, s')
        → DistinctIds D ms
    pub retained :
        (s s' : R.State) (ms : List (StreamMessage D))
        → read_batch D R config s ≡ (ok ms, s')
        → All (λ m. m.message_id ≡ id → m.payload ≡ payload) ms

  module _ (id : String) (e : WebEvent D.Datetime D.Decimal) where
    -- The event is stored.
    abbrev IsStored : T.State → Type 0
    IsStored s = T.stored s e.event_id ≡ true

    -- The message is pending or its event is stored.
    abbrev pub IsSafe : World D R config T → Type 0
    IsSafe w = IsPending D R config T w.redis id ⊎ IsStored w.database

    save_batch-IsStored :
        (events : List (WebEvent D.Datetime D.Decimal)) (s : T.State)
        → IsStored s
        → IsStored (save_batch D.Datetime D.Decimal T events s).1
    unfolding save_batch
    save_batch-IsStored [] s h = h
    save_batch-IsStored (x ∷ events) s h =
        let rows = map (event_to_record_values D.Datetime D.Decimal) (x ∷ events) in
        subst IsStored (sym (after-pure (T.insert_ignoring_conflicts rows s) length))
          (T.insert-keeps rows s e.event_id h)

    ingest-IsStored :
        (events : List (WebEvent D.Datetime D.Decimal)) (s : T.State)
        → IsStored s
        → IsStored (ingest D.Datetime D.Decimal T events s).1
    unfolding ingest
    ingest-IsStored [] s h = h
    ingest-IsStored (x ∷ events) s h =
        subst IsStored
          (sym (
            after-pure (save_batch D.Datetime D.Decimal T (x ∷ events) s)
              (λ n. record { received_count = length (x ∷ events); inserted_count = n })))
          (save_batch-IsStored (x ∷ events) s h)

    finish-IsStored :
        (n : ℕ) (sorted : SortedMessages D) (k : ℕ)
        (answer : Result StoreError (IngestEventsResult D.Datetime D.Decimal))
        (w : World D R config T)
        → IsStored w.database
        → IsStored (finish D R config T n sorted k answer w).1.database
    unfolding finish
    finish-IsStored n sorted k (err x) w h = h
    finish-IsStored n sorted k (ok r) w h =
        subst (λ (v : World D R config T). IsStored v.database)
          (sym (
            after-pure (on_redis D R config T (ack_many D R config sorted.valid_message_ids) w)
              (stored_result D R config T n sorted k r)))
          h

    store_valid-IsStored :
        (n : ℕ) (sorted : SortedMessages D) (k : ℕ) (events : List (WebEvent D.Datetime D.Decimal))
        (w : World D R config T)
        → IsStored w.database
        → IsStored (store_valid D R config T n sorted k events w).1.database
    unfolding store_valid
    store_valid-IsStored n sorted k [] w h = h
    store_valid-IsStored n sorted k (x ∷ events) w h =
        let y = ingest D.Datetime D.Decimal T (x ∷ events) w.database in
        finish-IsStored n sorted k y.0 (record w { database = y.1 })
          (ingest-IsStored (x ∷ events) w.database h)

    poll_once-IsStored :
        (w : World D R config T)
        → IsStored w.database
        → IsStored (poll_once D R config T w).1.database
    unfolding poll_once poll_messages
    poll_once-IsStored w h =
        after-keeps D R config T (λ v. IsStored v.database)
          (on_redis D R config T (read_batch D R config) w) _ h
          (λ ms v q.
            after-keeps D R config T (λ v. IsStored v.database)
              (on_redis D R config T (ack_many D R config (sort_messages D ms).invalid_message_ids)
                v)
              _ q
              (λ k u p.
                store_valid-IsStored (length ms) (sort_messages D ms) k
                  (sort_messages D ms).valid_events u p))

    module _ (payload : D.JsonObject) (is_valid : coerce_payload D payload ≡ some e) where
      kept-IsSafe :
          (ms : List (StreamMessage D)) (w : World D R config T)
          → contains (ids_of D ms) id ≡ true
          → All (λ m. m.message_id ≡ id → m.payload ≡ payload) ms
          → All (IsKept D R config T w) ms
          → IsSafe w
      kept-IsSafe [] w h p k = cc
      kept-IsSafe (m ∷ ms) w h p k = elim (Bool-cases (m.message_id == id)) [
        | inl t ↦
            let same : m.message_id ≡ id = (eq_iff m.message_id id).0 t in
            let valid = ap (coerce_payload D) (p.0 same) ∙ is_valid in
            subst (λ i. IsPending D R config T w.redis i ⊎ IsStored w.database) same (k.0 e valid)
        | inr f ↦ kept-IsSafe ms w (ground arith) p.1 k.1
      ]

      module _ (entry : RetainsEntry id payload) where
        polled-IsSafe :
            (w : World D R config T)
            (x : Result StreamError (List (StreamMessage D)) × World D R config T)
            → on_redis D R config T (read_batch D R config) w ≡ x
            → IsPending D R config T w.redis id
            → IsSafe (after x (poll_messages D R config T)).1
        unfolding poll_once
        polled-IsSafe w (err y, w₁) h p = inl (
            subst (λ s. IsPending D R config T s id)
              (ap
                (λ (x : Result StreamError (List (StreamMessage D)) × World D R config T).
                  x.1.redis)
                h)
              (read_batch-IsPending D R config T w.redis id p))
        polled-IsSafe w (ok ms, w₁) h p =
            let still =
              subst (λ s. IsPending D R config T s id)
                (ap
                  (λ (x : Result StreamError (List (StreamMessage D)) × World D R config T).
                    x.1.redis)
                  h)
                (read_batch-IsPending D R config T w.redis id p) in
            let got : read_batch D R config w.redis ≡ (ok ms, w₁.redis) =
              ap
                (λ (x : Result StreamError (List (StreamMessage D)) × World D R config T).
                  (x.0, x.1.redis))
                h in
            elim (Bool-cases (contains (ids_of D ms) id)) [
              | inl t ↦
                  let kept =
                    poll_once_keeps D R config T w w₁ ms h
                      (entry.distinct w.redis w₁.redis ms got) in
                  kept-IsSafe ms _ t (entry.retained w.redis w₁.redis ms got) (
                    subst
                      (λ x. All (IsKept D R config T (after x (poll_messages D R config T)).1) ms) h
                      kept)
              | inr f ↦ inl (poll_messages-IsPending D R config T ms w₁ id f still)
            ]

        poll_once-IsSafe : (w : World D R config T) → IsSafe w → IsSafe (poll_once D R config T w).1
        unfolding poll_once
        poll_once-IsSafe w (inl p) = polled-IsSafe w _ refl p
        poll_once-IsSafe w (inr s) = inr (poll_once-IsStored w s)

        next_state-world :
            (x : Result StreamError EventStreamIngestionPollResult × World D R config T)
            → (next_state D R config T x).world ≡ x.1
        next_state-world (ok r, w) = refl
        next_state-world (err y, w) = refl

        ensure_group-IsSafe :
            (ready : Bool) (w : World D R config T)
            → IsSafe w
            → IsSafe (unless_ready D R config T ready w).1
        unfolding ensure_group
        ensure_group-IsSafe true w h = h
        ensure_group-IsSafe false w (inl p) = inl (R.xgroup_create-keeps w.redis id p)
        ensure_group-IsSafe false w (inr s) = inr s

        iterate-IsSafe :
            (s : (LoopState D R config T)) → IsSafe s.world → IsSafe (iterate D R config T s).world
        unfolding iterate
        iterate-IsSafe s h =
            subst IsSafe
              (sym (
                next_state-world (
                  after (unless_ready D R config T s.group_ready s.world)
                    (λ t. poll_once D R config T))))
              (after-keeps D R config T IsSafe (unless_ready D R config T s.group_ready s.world) _
                (ensure_group-IsSafe s.group_ready s.world h) (λ t w k. poll_once-IsSafe w k))

        -- While the stream retains the entry of a message: however many times the loop runs, and
        -- whatever fails in between, if the message was pending, or its event was stored, then it is
        -- pending or its event is stored. The message is valid, and a read gives distinct ids.
        pub run_forever_delivers :
            (n : ℕ) (s : (LoopState D R config T))
            → IsSafe s.world
            → IsSafe (run_forever D R config T n s).world
        unfolding run_forever
        run_forever_delivers zero s h = h
        run_forever_delivers (suc n) s h =
            run_forever_delivers n (iterate D R config T s) (iterate-IsSafe s h)
