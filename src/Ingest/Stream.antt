-- ===== src/Ingest/Stream.antt =====
-- backend/app/event_analytics/infrastructure/streams/redis_stream_consumer.py, over a Redis client
-- and decoders that are parameters.
use live_data_architecture.Base.{
  ℕ, ◌+◌, String, ◌≡◌, Bool, true, false, Option, none, some, List, [], ◌∷◌, ◌++◌, ◌==◌, ◌≤◌, All,
  contains, length, if◌then◌else◌,
}
use live_data_architecture.Base.Results.{Result, ok, err}
use live_data_architecture.Ingest.{WebEventPayload}
use live_data_architecture.Base.Action.{Action, pure, ◌>>=◌}

-- `bytes.decode`, `json.loads` and `WebEventPayload.model_validate`. `loads` gives a text's value,
-- or its object where it is one.
pub record Decoders : Type 1 where
  pub Bytes : Type 0
  pub Datetime : Type 0
  pub Decimal : Type 0
  pub JsonObject : Type 0
  pub JsonOther : Type 0
  pub empty_object : JsonObject
  pub payload_key : Bytes
  pub bytes_eq : Bytes → Bytes → Bool
  pub bytes_is_empty : Bytes → Bool
  pub decode : Bytes → Option String
  pub loads : String → Option (Result JsonOther JsonObject)
  pub model_validate : JsonObject → Option (WebEventPayload Datetime Decimal)

-- What a poll may raise.
pub data StreamError : Type 0 where
  redis_error busy_group unicode_decode_error : StreamError

pub record StreamConfig : Type 0 where
  pub batch_size : ℕ
  pub block_ms : ℕ

pub record StreamMessage (D : Decoders) : Type 0 where
  pub message_id : String
  pub payload : D.JsonObject

module _ (D : Decoders) where
  pub data RedisText : Type 0 where
    str_text : String → RedisText
    bytes_text : D.Bytes → RedisText

  abbrev pub RedisStreamFields : Type 0
  RedisStreamFields = List (RedisText × RedisText)

  abbrev pub RedisReadGroupEntries : Type 0
  RedisReadGroupEntries = List (RedisText × List (RedisText × RedisStreamFields))

  -- `_decode_text`; none where `bytes.decode` raises
  unfoldable pub decode_text : RedisText → Option String
  decode_text (RedisText.str_text s) = some s
  decode_text (RedisText.bytes_text b) = D.decode b

  unfoldable pub text_eq : RedisText → RedisText → Bool
  text_eq (RedisText.str_text s) (RedisText.str_text t) = s == t
  text_eq (RedisText.bytes_text a) (RedisText.bytes_text b) = D.bytes_eq a b
  text_eq _ _ = false

  unfoldable pub is_falsy : RedisText → Bool
  is_falsy (RedisText.str_text s) = s == ""
  is_falsy (RedisText.bytes_text b) = D.bytes_is_empty b

  -- `dict.get`
  unfoldable pub field : RedisStreamFields → RedisText → Option RedisText
  unfolding text_eq
  field [] key = none
  field ((k, v) ∷ fields) key =
      let rest = field fields key in if text_eq k key then some v else rest

  -- `a or b` on two looked-up values
  unfoldable pub or_else : Option RedisText → Option RedisText → Option RedisText
  unfolding is_falsy
  or_else none b = b
  or_else (some a) b = if is_falsy a then b else some a

  -- `json.loads` of a text that was decoded
  unfoldable pub object_of : Option String → D.JsonObject
  object_of none = D.empty_object
  object_of (some text) = elim (D.loads text) [
    | none ↦ D.empty_object
    | some parsed ↦ elim parsed [ err other ↦ D.empty_object | ok object ↦ object ]
  ]

  -- `_decode_payload`
  unfoldable pub decode_payload : RedisStreamFields → D.JsonObject
  unfolding field or_else decode_text object_of
  decode_payload raw_fields =
      let payload_value =
        or_else (field raw_fields (RedisText.bytes_text D.payload_key))
          (field raw_fields (RedisText.str_text "payload")) in
      elim payload_value [ none ↦ D.empty_object | some value ↦ object_of (decode_text value) ]

  abbrev pub message_of : Option String → D.JsonObject → Result StreamError (StreamMessage D)
  message_of none payload = err StreamError.unicode_decode_error
  message_of (some id) payload = ok (record { message_id = id; payload = payload })

  unfoldable pub decode_message :
      RedisText × RedisStreamFields → Result StreamError (StreamMessage D)
  unfolding decode_text decode_payload
  decode_message (message_id, raw_fields) =
      message_of (decode_text message_id) (decode_payload raw_fields)

  abbrev pub cons_result :
      Result StreamError (StreamMessage D)
      → Result StreamError (List (StreamMessage D))
      → Result StreamError (List (StreamMessage D))
  cons_result (err e) ms = err e
  cons_result (ok m) (err e) = err e
  cons_result (ok m) (ok ms) = ok (m ∷ ms)

  unfoldable pub decode_messages :
      List (RedisText × RedisStreamFields) → Result StreamError (List (StreamMessage D))
  unfolding decode_message
  decode_messages [] = ok []
  decode_messages (m ∷ ms) = cons_result (decode_message m) (decode_messages ms)

  -- The messages of all streams of an answer, in order.
  abbrev pub concat_entries : RedisReadGroupEntries → List (RedisText × RedisStreamFields)
  concat_entries [] = []
  concat_entries ((stream_name, stream_messages) ∷ entries) =
      stream_messages ++ concat_entries entries

  unfoldable pub decode_entries :
      RedisReadGroupEntries → Result StreamError (List (StreamMessage D))
  unfolding decode_messages
  decode_entries entries = decode_messages (concat_entries entries)

  -- The Redis client, on the one stream and consumer group. `pending` lists the ids that were
  -- delivered to the consumer and not acknowledged. XACK takes ids from that list, no other than
  -- those it is given, whether its answer arrives or not, and answers how many it took, which is at
  -- most their number; `pending_count` is how many there are. XREADGROUP and XGROUP CREATE take none,
  -- and XREADGROUP lists what it delivers.
  pub record Redis : Type 1 where
    pub State : Type 0
    pub xgroup_create : State → Result StreamError (Unit {0}) × State
    pub xreadgroup :
        String → ℕ → Option ℕ → State → Result StreamError RedisReadGroupEntries × State
    pub xack : List String → State → Result StreamError ℕ × State
    pub pending : State → String → Bool
    pub pending_count : State → ℕ
    pub xgroup_create-keeps :
        (s : State) (id : String) → pending s id ≡ true → pending (xgroup_create s).1 id ≡ true
    pub xack-keeps :
        (ids : List String) (s : State) (id : String)
        → contains ids id ≡ false
        → pending s id ≡ true
        → pending (xack ids s).1 id ≡ true
    pub xack-le :
        (ids : List String) (s s' : State) (n : ℕ) → xack ids s ≡ (ok n, s') → n ≤ length ids
    pub xack-counts :
        (ids : List String) (s s' : State) (n : ℕ)
        → xack ids s ≡ (ok n, s')
        → pending_count s ≡ n + pending_count s'
    pub xreadgroup-keeps :
        (cursor : String) (count : ℕ) (block : Option ℕ) (s : State) (id : String)
        → pending s id ≡ true
        → pending (xreadgroup cursor count block s).1 id ≡ true
    pub xreadgroup-lists :
        (cursor : String) (count : ℕ) (block : Option ℕ) (s s' : State)
        (entries : RedisReadGroupEntries)
        → xreadgroup cursor count block s ≡ (ok entries, s')
        → All
            (λ m. (id : String) → decode_text m.0 ≡ some id → pending s' id ≡ true)
            (concat_entries entries)

  module _ (R : Redis) (config : StreamConfig) where
    open R use {State, xgroup_create, xreadgroup, xack}

    -- `BUSYGROUP` says that the group is there already.
    abbrev pub unless_busy : Result StreamError (Unit {0}) → Result StreamError (Unit {0})
    unless_busy (ok t) = ok t
    unless_busy (err StreamError.busy_group) = ok tt
    unless_busy (err e) = err e

    unfoldable pub ensure_group : Action State StreamError (Unit {0})
    ensure_group s = let (answer, s') = xgroup_create s in (unless_busy answer, s')

    abbrev pub returned :
        Result StreamError (List (StreamMessage D))
        → Action State StreamError (List (StreamMessage D))
    returned answer s = (answer, s)

    -- `_read_messages`
    unfoldable pub read_messages :
        String → Option ℕ → Action State StreamError (List (StreamMessage D))
    unfolding decode_entries
    read_messages stream_id block_ms = do
      entries ← xreadgroup stream_id config.batch_size block_ms
      returned (decode_entries entries)

    abbrev pub pending_or_new :
        List (StreamMessage D) → Action State StreamError (List (StreamMessage D))
    pending_or_new (m ∷ pending_messages) = pure (m ∷ pending_messages)
    pending_or_new [] = read_messages ">" (some config.block_ms)

    unfoldable pub read_batch : Action State StreamError (List (StreamMessage D))
    unfolding read_messages
    read_batch = do pending_messages ← read_messages "0" none; pending_or_new pending_messages

    unfoldable pub ack_many : List String → Action State StreamError ℕ
    ack_many [] s = (ok 0, s)
    ack_many (id ∷ message_ids) s = xack (id ∷ message_ids) s
