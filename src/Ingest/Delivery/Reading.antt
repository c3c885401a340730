-- ===== src/Ingest/Delivery/Reading.antt =====
-- Reading a batch: every message of it is pending.
use live_data_architecture.Base.{
  ℕ, String, ◌≡◌, refl, ap, true, Option, none, some, List, [], ◌∷◌, subst, All,
}
use live_data_architecture.Base.Results.{Result, ok, err, ok-injective}
use live_data_architecture.Base.Action.{after-eq-ok}
use live_data_architecture.Ingest.Stream.{
  Decoders, StreamError, StreamConfig, StreamMessage, Redis, RedisText, RedisStreamFields,
  decode_text, decode_payload, message_of, decode_message, decode_messages, decode_entries,
  concat_entries, cons_result, pending_or_new, read_messages, read_batch,
}

module _ (D : Decoders) where
  cons_result-eq-ok :
      (a : Result StreamError (StreamMessage D)) (b : Result StreamError (List (StreamMessage D)))
      (ms : List (StreamMessage D))
      → cons_result D a b ≡ ok ms
      → (m : StreamMessage D) × (rest : List (StreamMessage D)) × (a ≡ ok m)
        × (b ≡ ok rest)
        × (m ∷ rest ≡ ms)
  cons_result-eq-ok (err e) b ms h = cc
  cons_result-eq-ok (ok m) (err e) ms h = cc
  cons_result-eq-ok (ok m) (ok rest) ms h = (m, rest, refl, refl, ok-injective h)

  message_of-id :
      (id : Option String) (payload : D.JsonObject) (m : StreamMessage D)
      → message_of D id payload ≡ ok m
      → id ≡ some m.message_id
  message_of-id none payload m h = cc
  message_of-id (some id) payload m h =
      ap (λ (x : StreamMessage D). some x.message_id) (ok-injective h)

  decode_message-id :
      (raw : RedisText D) (fields : RedisStreamFields D) (m : StreamMessage D)
      → decode_message D (raw, fields) ≡ ok m
      → decode_text D raw ≡ some m.message_id
  unfolding decode_message
  decode_message-id raw fields m h = message_of-id (decode_text D raw) (decode_payload D fields) m h

  module _ (R : Redis D) (config : StreamConfig) where
    abbrev pub IsPending : R.State → String → Type 0
    IsPending s id = R.pending s id ≡ true

    decoded-IsPending :
        (raws : List (RedisText D × RedisStreamFields D)) (ms : List (StreamMessage D))
        (s : R.State)
        → decode_messages D raws ≡ ok ms
        → All (λ m. (id : String) → decode_text D m.0 ≡ some id → IsPending s id) raws
        → All (λ m. IsPending s m.message_id) ms
    unfolding decode_messages
    decoded-IsPending [] ms s h l = subst (All (λ m. IsPending s m.message_id)) (ok-injective h) tt
    decoded-IsPending ((raw, fields) ∷ raws) ms s h l =
        let (m, rest, first, others, same) =
          cons_result-eq-ok (decode_message D (raw, fields)) (decode_messages D raws) ms h in
        subst (All (λ m. IsPending s m.message_id)) same (
          l.0 m.message_id (decode_message-id raw fields m first),
          decoded-IsPending raws rest s others l.1,
        )

    read_messages-IsPending :
        (cursor : String) (block : Option ℕ) (s s' : R.State) (ms : List (StreamMessage D))
        → read_messages D R config cursor block s ≡ (ok ms, s')
        → All (λ m. IsPending s' m.message_id) ms
    unfolding read_messages decode_entries
    read_messages-IsPending cursor block s s' ms h =
        let (entries, s₁, answered, same) =
          after-eq-ok (R.xreadgroup cursor config.batch_size block s) _ h in
        let final : s₁ ≡ s' =
          ap (λ (x : Result StreamError (List (StreamMessage D)) × R.State). x.1) same in
        let decoded =
          ap (λ (x : Result StreamError (List (StreamMessage D)) × R.State). x.0) same in
        subst (λ t. All (λ m. IsPending t m.message_id) ms) final
          (decoded-IsPending (concat_entries D entries) ms s₁ decoded
            (R.xreadgroup-lists cursor config.batch_size block s s₁ entries answered))

    pending_or_new-IsPending :
        (old : List (StreamMessage D)) (s s' : R.State) (ms : List (StreamMessage D))
        → All (λ m. IsPending s m.message_id) old
        → pending_or_new D R config old s ≡ (ok ms, s')
        → All (λ m. IsPending s' m.message_id) ms
    pending_or_new-IsPending [] s s' ms p h =
        read_messages-IsPending ">" (some config.block_ms) s s' ms h
    pending_or_new-IsPending (m ∷ old) s s' ms p h =
        let final : s ≡ s' =
          ap (λ (x : Result StreamError (List (StreamMessage D)) × R.State). x.1) h in
        let same : m ∷ old ≡ ms =
          ok-injective
            (ap (λ (x : Result StreamError (List (StreamMessage D)) × R.State). x.0) h) in
        subst (λ t. All (λ m. IsPending t m.message_id) ms) final
          (subst (All (λ m. IsPending s m.message_id)) same p)

    pub read_batch-IsPending :
        (s s' : R.State) (ms : List (StreamMessage D))
        → read_batch D R config s ≡ (ok ms, s')
        → All (λ m. IsPending s' m.message_id) ms
    unfolding read_batch
    read_batch-IsPending s s' ms h =
        let (old, s₁, answered, same) = after-eq-ok (read_messages D R config "0" none s) _ h in
        pending_or_new-IsPending old s₁ s' ms (read_messages-IsPending "0" none s s₁ old answered)
          same
