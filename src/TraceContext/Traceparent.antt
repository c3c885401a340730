-- ===== src/TraceContext/Traceparent.antt =====
-- Which `traceparent` headers are read, and as what.
use Prim.Native.Char.{Char, code}
use Prim.Native.String.{◌++◌, count}
use text.Mathlib.TextLemmas.{cons-append, nil-append}
use text.Mathlib.TextEquality.{Char-path}
use live_data_architecture.Base.{
  ℕ, String, ◌≡◌, ◌≢◌, ◌↔◌, eq_iff, refl, sym, ap, subst, ◌∙◌, Bool, true, false, ◌&&◌, none, some,
  List, [], ◌∷◌, arith, eqb, if◌then◌else◌, Bool-cases, inl, inr,
}
use live_data_architecture.TraceContext.{
  is_lower_hex, is_all_zero, is_lower_hex_digit, all_chars, validate_field, version_rule,
  trace_id_rule, parent_id_rule, trace_flags_rule, push, split_dashes, traceparent_of_parts,
  parse_traceparent,
}

-- `"-".join` of at least one part
abbrev pub join_dashes : List String → String
join_dashes [] = ""
join_dashes (part ∷ []) = part
join_dashes (part ∷ next ∷ parts) = part ++ "-" ++ join_dashes (next ∷ parts)

-- A field that its rule accepts has no dash.
abbrev NoDash : String → Type 0
NoDash s = all_chars is_lower_hex_digit s ≡ true

not_dash : (c : Char) → is_lower_hex_digit c ≡ true → eqb (code c) b'-' ≡ false
not_dash c h = ground arith

split_field : (s : String) → NoDash s → split_dashes s ≡ s ∷ []
unfolding split_dashes
split_field String.[] h = refl
split_field (String.◌∷◌ c s) h = rw (split_field s (ground arith), not_dash c (ground arith)) refl

split_before_dash :
    (s rest : String) → NoDash s → split_dashes (s ++ "-" ++ rest) ≡ s ∷ split_dashes rest
unfolding split_dashes
split_before_dash String.[] rest h = rw (nil-append, cons-append, nil-append) refl
split_before_dash (String.◌∷◌ c s) rest h =
    rw (cons-append, split_before_dash s rest (ground arith), not_dash c (ground arith)) refl

join-push :
    (c : Char) (parts : List String) → join_dashes (push c parts) ≡ String.◌∷◌ c (join_dashes parts)
join-push c [] = refl
join-push c (p ∷ []) = refl
join-push c (p ∷ q ∷ parts) = rw (cons-append) refl

some_part : (s : String) → (p : String) × (ps : List String) × (split_dashes s ≡ p ∷ ps)
unfolding split_dashes
some_part String.[] = ("", [], refl)
some_part (String.◌∷◌ c s) =
    let (p, ps, e) = some_part s in
    elim (Bool-cases (eqb (code c) b'-')) [
      | inl dash ↦ ("", split_dashes s, rw dash refl)
      | inr other ↦ (String.◌∷◌ c p, ps, rw (other, e) refl)
    ]

dash_char : (c : Char) → eqb (code c) b'-' ≡ true → String.◌∷◌ c "" ≡ "-"
dash_char c h = ap (λ d. String.◌∷◌ d "") (Char-path c _ (ground arith))

join_at_dash :
    (c : Char) (s : String)
    → eqb (code c) b'-' ≡ true
    → join_dashes (split_dashes s) ≡ s
    → join_dashes ("" ∷ split_dashes s) ≡ String.◌∷◌ c s
join_at_dash c s h joined =
    let (p, ps, e) = some_part s in
    let same : join_dashes (p ∷ ps) ≡ s = ap join_dashes (sym e) ∙ joined in
    rw e (
      rw (nil-append, same)
        (ap (λ d. d ++ s) (sym (dash_char c h))
          ∙ cons-append c "" s
          ∙ ap (String.◌∷◌ c) (nil-append s)))

-- Joining the parts gives the text back.
join-split : (s : String) → join_dashes (split_dashes s) ≡ s
unfolding split_dashes
join-split String.[] = refl
join-split (String.◌∷◌ c s) = elim (Bool-cases (eqb (code c) b'-')) [
  | inl dash ↦ rw dash (join_at_dash c s dash (join-split s))
  | inr other ↦ rw (other, join-push c (split_dashes s), join-split s) refl
]

-- A text of so many lowercase hexadecimal digits
abbrev pub IsHexField : ℕ → String → Type 0
IsHexField length s = (count s ≡ length) × (all_chars is_lower_hex_digit s ≡ true)

-- A header in the format of the standard: four fields of digits, the version not `ff` and neither
-- id all zero.
pub record IsTraceparent (text trace_id parent_id : String) : Type 0 where
  pub version : String
  pub trace_flags : String
  pub spelled : text ≡ join_dashes (version ∷ trace_id ∷ parent_id ∷ trace_flags ∷ [])
  pub version_field : IsHexField 2 version
  pub version_allowed : version ≢ "ff"
  pub trace_id_field : IsHexField 32 trace_id
  pub trace_id_not_zero : is_all_zero trace_id ≡ false
  pub parent_id_field : IsHexField 16 parent_id
  pub parent_id_not_zero : is_all_zero parent_id ≡ false
  pub trace_flags_field : IsHexField 2 trace_flags

version_rule_iff :
    (s : String) → (validate_field version_rule s ≡ true) ↔ (IsHexField 2 s × (s ≢ "ff"))
unfolding validate_field is_lower_hex
version_rule_iff s = grind (arith, eq_iff "ff" s)

trace_id_rule_iff :
    (s : String)
    → (validate_field trace_id_rule s ≡ true) ↔ (IsHexField 32 s × (is_all_zero s ≡ false))
unfolding validate_field is_lower_hex
trace_id_rule_iff s = ground arith

parent_id_rule_iff :
    (s : String)
    → (validate_field parent_id_rule s ≡ true) ↔ (IsHexField 16 s × (is_all_zero s ≡ false))
unfolding validate_field is_lower_hex
parent_id_rule_iff s = ground arith

trace_flags_rule_iff : (s : String) → (validate_field trace_flags_rule s ≡ true) ↔ IsHexField 2 s
unfolding validate_field is_lower_hex
trace_flags_rule_iff s = ground arith

four_parts :
    (v t p f : String)
    → NoDash v
    → NoDash t
    → NoDash p
    → NoDash f
    → split_dashes (join_dashes (v ∷ t ∷ p ∷ f ∷ [])) ≡ v ∷ t ∷ p ∷ f ∷ []
four_parts v t p f hv ht hp hf =
    split_before_dash v _ hv
    ∙ ap (λ ps. v ∷ ps)
        (split_before_dash t _ ht
          ∙ ap (λ ps. t ∷ ps) (split_before_dash p _ hp ∙ ap (λ ps. p ∷ ps) (split_field f hf)))

all_accepted :
    {A : Type 0} (a b c d : Bool) (x y : A)
    → (if a && b && c && d then some x else none) ≡ some y
    → (a ≡ true) × (b ≡ true) × (c ≡ true) × (d ≡ true) × (x ≡ y)
all_accepted true true true true x y h = (refl, refl, refl, refl, cc)
all_accepted true true true false x y h = cc
all_accepted true true false d x y h = cc
all_accepted true false c d x y h = cc
all_accepted false b c d x y h = cc

parts_read :
    (parts : List String) (t p : String)
    → traceparent_of_parts parts ≡ some (t, p)
    → IsTraceparent (join_dashes parts) t p
unfolding traceparent_of_parts
parts_read [] t p h = cc
parts_read (a ∷ []) t p h = cc
parts_read (a ∷ b ∷ []) t p h = cc
parts_read (a ∷ b ∷ c ∷ []) t p h = cc
parts_read (a ∷ b ∷ c ∷ d ∷ e ∷ parts) t p h = cc
parts_read (v ∷ t' ∷ p' ∷ f ∷ []) t p h =
    let (hv, ht, hp, hf, same) = all_accepted _ _ _ _ _ _ h in
    let (version_field, version_allowed) = (version_rule_iff v).0 hv in
    let (trace_id_field, trace_id_not_zero) = (trace_id_rule_iff t').0 ht in
    let (parent_id_field, parent_id_not_zero) = (parent_id_rule_iff p').0 hp in
    subst
      (λ (ids : String × String). IsTraceparent (join_dashes (v ∷ t' ∷ p' ∷ f ∷ [])) ids.0 ids.1)
      same
      (record {
        version = v;
        trace_flags = f;
        spelled = refl;
        version_field = version_field;
        version_allowed = version_allowed;
        trace_id_field = trace_id_field;
        trace_id_not_zero = trace_id_not_zero;
        parent_id_field = parent_id_field;
        parent_id_not_zero = parent_id_not_zero;
        trace_flags_field = (trace_flags_rule_iff f).0 hf;
      })

-- A `traceparent` header is read as a trace id and a parent id exactly if, stripped, it is in the
-- format of the standard with these two in their places.
pub parse_traceparent_iff :
    (strip : String → String) (value trace_id parent_id : String)
    → (parse_traceparent strip (some value) ≡ some (trace_id, parent_id))
      ↔ IsTraceparent (strip value) trace_id parent_id
unfolding parse_traceparent traceparent_of_parts
parse_traceparent_iff strip value t p = (
  λ h.
      subst (λ text. IsTraceparent text t p) (join-split (strip value))
        (parts_read (split_dashes (strip value)) t p h),
  λ r.
      ap traceparent_of_parts (
        ap split_dashes r.spelled
        ∙ four_parts r.version t p r.trace_flags r.version_field.1 r.trace_id_field.1
            r.parent_id_field.1 r.trace_flags_field.1)
      ∙ rw
          (
            (version_rule_iff r.version).1 (r.version_field, r.version_allowed),
            (trace_id_rule_iff t).1 (r.trace_id_field, r.trace_id_not_zero),
            (parent_id_rule_iff p).1 (r.parent_id_field, r.parent_id_not_zero),
            (trace_flags_rule_iff r.trace_flags).1 r.trace_flags_field,
          )
          refl,
)
