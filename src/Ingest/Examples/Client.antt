-- ===== src/Ingest/Examples/Client.antt =====
-- A stream of two messages, one of them valid; its state is the list of the pending ids.
use live_data_architecture.Base.{
  some-injective, ℕ, suc, ◌+◌, ◌≤◌, ◌∙◌, String, ◌≡◌, inl, inr, refl, ap, subst, Bool, true, false,
  none, some, List, [], ◌∷◌, arith, ◌==◌, length, All, contains, eq_iff, if◌then◌else◌, Bool-cases,
}
use live_data_architecture.Base.Results.{Result, ok, err, ok-injective}
use live_data_architecture.Generator.{EventType, TrafficPhase}
use live_data_architecture.Ingest.{EventSchemaVersion, WebEventPayload}
use live_data_architecture.Ingest.Stream.{
  Decoders, StreamError, Redis, RedisText, RedisReadGroupEntries, decode_text, concat_entries,
}

abbrev pub good : WebEventPayload ℕ ℕ
good = record {
  schema_version = EventSchemaVersion.web_event_v1;
  event_id = "evt_1";
  event_type = EventType.page_view;
  occurred_at = 7;
  user_id = "user_013";
  traffic_phase = TrafficPhase.normal;
  producer_id = "producer_local";
  page_path = none;
  category_id = none;
  product_id = none;
  amount = none;
  currency = none;
  error_code = none;
  error_message = none;
}

abbrev pub decoders : Decoders
decoders = record {
  Bytes = String;
  Datetime = ℕ;
  Decimal = ℕ;
  JsonObject = String;
  JsonOther = Unit {0};
  empty_object = "";
  payload_key = "payload";
  bytes_eq = λ a b. a == b;
  bytes_is_empty = λ a. a == "";
  decode = some;
  loads = λ s. some (ok s);
  model_validate = λ s. if s == "good" then some good else none;
}

abbrev pub message :
    String → String → RedisText decoders × List (RedisText decoders × RedisText decoders)
message id payload =
    (RedisText.bytes_text id, (RedisText.bytes_text "payload", RedisText.bytes_text payload) ∷ [])

abbrev pub entries : RedisReadGroupEntries decoders
entries =
    (RedisText.bytes_text "web.events.raw.v1", message "1-0" "good" ∷ message "2-0" "bad" ∷ []) ∷ []

abbrev pub without : String → List String → List String
without id [] = []
without id (p ∷ ps) = let rest = without id ps in if p == id then ps else p ∷ rest

abbrev pub take : Bool → String → ℕ × List String → ℕ × List String
take true id (n, ps) = (suc n, without id ps)
take false id (n, ps) = (n, ps)

-- How many of the ids are pending, and the pending ids without them.
abbrev pub acknowledge : List String → List String → ℕ × List String
acknowledge [] ps = (0, ps)
acknowledge (id ∷ ids) ps = let rest = acknowledge ids ps in take (contains rest.1 id) id rest

without-length :
    (id : String) (ps : List String)
    → contains ps id ≡ true
    → length ps ≡ suc (length (without id ps))
without-length id [] h = cc
without-length id (p ∷ ps) h = elim (Bool-cases (p == id)) [
  | inl t ↦ rw t refl
  | inr f ↦ rw f (ap suc (without-length id ps (ground arith)))
]

without-keeps :
    (i id : String) (ps : List String)
    → (i == id) ≡ false
    → contains ps id ≡ true
    → contains (without i ps) id ≡ true
without-keeps i id [] h k = cc
without-keeps i id (p ∷ ps) h k = elim (Bool-cases (p == i)) [
  | inl t ↦
      let differs : (p == id) ≡ false = ap (λ x. x == id) ((eq_iff p i).0 t) ∙ h in
      rw t (ground (arith, differs))
  | inr f ↦ rw f (ground (arith, without-keeps i id ps h))
]

take-le : (b : Bool) (id : String) (x : ℕ × List String) → (take b id x).0 ≤ suc x.0
take-le true id x = omega arith
take-le false id x = omega arith

take-counts :
    (b : Bool) (id : String) (x : ℕ × List String)
    → contains x.1 id ≡ b
    → x.0 + length x.1 ≡ (take b id x).0 + length (take b id x).1
take-counts true id (n, ps) h = omega (arith, without-length id ps h)
take-counts false id x h = refl

take-keeps :
    (b : Bool) (i id : String) (x : ℕ × List String)
    → (i == id) ≡ false
    → contains x.1 id ≡ true
    → contains (take b i x).1 id ≡ true
take-keeps true i id (n, ps) h k = without-keeps i id ps h k
take-keeps false i id x h k = k

pub acknowledge-le : (ids ps : List String) → (acknowledge ids ps).0 ≤ length ids
acknowledge-le [] ps = omega arith
acknowledge-le (id ∷ ids) ps =
    let rest = acknowledge ids ps in
    omega (arith, acknowledge-le ids ps, take-le (contains rest.1 id) id rest)

pub acknowledge-counts :
    (ids ps : List String) → length ps ≡ (acknowledge ids ps).0 + length (acknowledge ids ps).1
acknowledge-counts [] ps = omega arith
acknowledge-counts (id ∷ ids) ps =
    let rest = acknowledge ids ps in
    acknowledge-counts ids ps ∙ take-counts (contains rest.1 id) id rest refl

pub acknowledge-keeps :
    (ids ps : List String) (id : String)
    → contains ids id ≡ false
    → contains ps id ≡ true
    → contains (acknowledge ids ps).1 id ≡ true
acknowledge-keeps [] ps id h k = k
acknowledge-keeps (i ∷ ids) ps id h k =
    let rest = acknowledge ids ps in
    take-keeps (contains rest.1 i) i id rest (ground arith)
      (acknowledge-keeps ids ps id (ground arith) k)

abbrev pub answer :
    Bool → List String → Result StreamError (RedisReadGroupEntries decoders) × List String
answer true s = (ok entries, "1-0" ∷ "2-0" ∷ s)
answer false s = (ok [], s)

pub answer-keeps :
    (new : Bool) (s : List String) (id : String)
    → contains s id ≡ true
    → contains (answer new s).1 id ≡ true
answer-keeps true s id h = ground arith
answer-keeps false s id h = h

abbrev pub AreListed : List String → RedisReadGroupEntries decoders → Type 0
AreListed s e =
    All (λ m. (id : String) → decode_text decoders m.0 ≡ some id → contains s id ≡ true)
      (concat_entries decoders e)

listed_lem :
    (a id : String) (s : List String)
    → some a ≡ some id
    → contains s a ≡ true
    → contains s id ≡ true
listed_lem a id s h k = subst (λ x. contains s x ≡ true) (some-injective h) k

abbrev pub AreListedAnswer :
    Result StreamError (RedisReadGroupEntries decoders) × List String → Type 0
AreListedAnswer (ok e, s) = AreListed s e
AreListedAnswer (err e, s) = Unit

pub lists_lem :
    (new : Bool) (s s' : List String) (e : RedisReadGroupEntries decoders)
    → answer new s ≡ (ok e, s')
    → AreListed s' e
unfolding decode_text
lists_lem true s s' e h =
    subst
      (λ (x : Result StreamError (RedisReadGroupEntries decoders) × List String). AreListedAnswer x)
      h
      (
        λ id h. listed_lem "1-0" id (answer true s).1 h refl,
        (λ id h. listed_lem "2-0" id (answer true s).1 h refl, tt),
      )
lists_lem false s s' e h =
    subst
      (λ (x : Result StreamError (RedisReadGroupEntries decoders) × List String). AreListedAnswer x)
      h tt

pub taken_lem :
    (k n : ℕ) (s s' : List String)
    → ◌≡◌ {A = Result StreamError ℕ × List String} (ok k, s) (ok n, s')
    → k + length s ≡ n + length s'
taken_lem k n s s' h =
    let same_count : k ≡ n =
      ok-injective (ap (λ (x : Result StreamError ℕ × List String). x.0) h) in
    let same_length : length s ≡ length s' =
      ap (λ (x : Result StreamError ℕ × List String). length x.1) h in
    omega (arith, same_count, same_length)

abbrev pub redis : Redis decoders
redis = record {
  State = List String;
  xgroup_create = λ s. (err StreamError.busy_group, s);
  xreadgroup = λ cursor n b s. answer (cursor == ">") s;
  xack = λ ids s. (ok (acknowledge ids s).0, (acknowledge ids s).1);
  pending = λ s id. contains s id;
  pending_count = λ s. length s;
  xgroup_create-keeps = λ s id h. h;
  xack-keeps = λ ids s id h k. acknowledge-keeps ids s id h k;
  xack-le = λ ids s s' n h.
      subst (λ k. k ≤ length ids)
        (ok-injective (ap (λ (x : Result StreamError ℕ × List String). x.0) h))
        (acknowledge-le ids s);
  xack-counts = λ ids s s' n h.
      acknowledge-counts ids s ∙ taken_lem (acknowledge ids s).0 n (acknowledge ids s).1 s' h;
  xreadgroup-keeps = λ cursor n b s id h. answer-keeps (cursor == ">") s id h;
  xreadgroup-lists = λ cursor n b s s' e h. lists_lem (cursor == ">") s s' e h;
}
