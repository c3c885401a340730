-- ===== src/Ingest/Delivery/Sorting.antt =====
-- Sorting a batch: a valid message with an id of its own is not acknowledged as an invalid one.
use live_data_architecture.Base.{
  none-not-some, String, ◌≡◌, inl, inr, refl, sym, ◌∙◌, false, none, some, List, [], ◌∷◌, map,
  subst, arith, All, contains, eq_iff, Option-cases,
}
use live_data_architecture.Ingest.{WebEvent}
use live_data_architecture.Ingest.Stream.{Decoders, StreamMessage}
use live_data_architecture.Ingest.Poll.{coerce_payload, sort_messages}

module _ (D : Decoders) where
  abbrev pub ids_of : List (StreamMessage D) → List String
  ids_of = map (λ m. m.message_id)

  -- No two messages have one id.
  abbrev pub DistinctIds : List (StreamMessage D) → Type 0
  DistinctIds [] = Unit
  DistinctIds (m ∷ ms) = (contains (ids_of ms) m.message_id ≡ false) × DistinctIds ms

  abbrev pub IsValid : StreamMessage D → WebEvent D.Datetime D.Decimal → Type 0
  IsValid m e = coerce_payload D m.payload ≡ some e

  -- The id of a valid message is not among the ids that are acknowledged as invalid.
  abbrev pub Spared : List String → StreamMessage D → Type 0
  Spared ids m =
      (e : WebEvent D.Datetime D.Decimal) → IsValid m e → contains ids m.message_id ≡ false

  pub invalid-ids :
      (ms : List (StreamMessage D)) (id : String)
      → contains (ids_of ms) id ≡ false
      → contains (sort_messages D ms).invalid_message_ids id ≡ false
  unfolding sort_messages
  invalid-ids [] id h = refl
  invalid-ids (m ∷ ms) id h = elim (Option-cases (coerce_payload D m.payload)) [
    | inl n ↦ rw n (ground (arith, invalid-ids ms id))
    | inr (e, v) ↦ rw v (invalid-ids ms id (ground arith))
  ]

  Spared-weaken :
      (ids : List String) (ms : List (StreamMessage D)) (i : String)
      → All (Spared ids) ms
      → contains (ids_of ms) i ≡ false
      → All (Spared (i ∷ ids)) ms
  Spared-weaken ids [] i h k = tt
  Spared-weaken ids (m ∷ ms) i h k = (
    λ e v. ground (arith, h.0 e v, eq_iff i m.message_id, eq_iff m.message_id i),
    Spared-weaken ids ms i h.1 (ground arith),
  )

  invalid-first :
      (m : StreamMessage D) (ms : List (StreamMessage D))
      → coerce_payload D m.payload ≡ none
      → (sort_messages D (m ∷ ms)).invalid_message_ids
        ≡ m.message_id ∷ (sort_messages D ms).invalid_message_ids
  unfolding sort_messages
  invalid-first m ms n = rw n refl

  valid-first :
      (m : StreamMessage D) (ms : List (StreamMessage D)) (e : WebEvent D.Datetime D.Decimal)
      → coerce_payload D m.payload ≡ some e
      → (sort_messages D (m ∷ ms)).invalid_message_ids ≡ (sort_messages D ms).invalid_message_ids
  unfolding sort_messages
  valid-first m ms e v = rw v refl

  pub valid-Spared :
      (ms : List (StreamMessage D))
      → DistinctIds ms
      → All (Spared (sort_messages D ms).invalid_message_ids) ms
  valid-Spared [] d = tt
  valid-Spared (m ∷ ms) d = elim (Option-cases (coerce_payload D m.payload)) [
    | inl n ↦
        subst (λ ids. All (Spared ids) (m ∷ ms)) (sym (invalid-first m ms n))
          (
            λ e v. absurd (none-not-some (sym n ∙ v)),
            Spared-weaken (sort_messages D ms).invalid_message_ids ms m.message_id
                (valid-Spared ms d.1) d.0,
          )
    | inr (e, v) ↦
        subst (λ ids. All (Spared ids) (m ∷ ms)) (sym (valid-first m ms e v))
          (λ e' v'. invalid-ids ms m.message_id d.0, valid-Spared ms d.1)
  ]
