-- ===== src/SqlPolicy/Checks.antt =====
-- What each check of `validate` says of a statement that it lets through, and that it lets such a
-- statement through.
use Prim.Native.String.{count}
use live_data_architecture.Base.{
  ◌≤◌, String, ◌≡◌, ◌↔◌, refl, ap, sym, ◌∙◌, true, false, not, Option, List, [], ◌∷◌, arith,
  contains, any, all, All, Bool-cases, inl, inr, eq_refl,
}
use live_data_architecture.Base.Results.{Result, ok, err, ok-injective, err-not-ok, Result-cases}
use live_data_architecture.SqlPolicy.Parser.{SqlGlot, NodeClass, ParseFailure}
use live_data_architecture.SqlPolicy.{
  RejectionReason, PolicyError, rejecting, max_query_text_length, mutating_expressions,
  allowed_function_names, is_empty, present, exactly_one, ensure_query_length, parse_one_statement,
  ensure_select_only, ensure_bounded_select_shape, normalized_function_name, check_functions,
  ensure_relations_are_allowlisted,
}
use live_data_architecture.SqlPolicy.Relations.{unknown_names-is_empty, is_shadowed, reads}

is_empty_iff {ℓ} : {A : Type ℓ} (xs : List A) → (not (is_empty xs) ≡ false) ↔ (xs ≡ [])
is_empty_iff [] = ground arith
is_empty_iff (x ∷ xs) = (λ h. cc, λ h. cc)

pub rejecting-eq-ok :
    {A : Type 0} (m : Result RejectionReason A) {a : A} → rejecting m ≡ ok a → m ≡ ok a
rejecting-eq-ok (ok b) h = ap ok (ok-injective h)
rejecting-eq-ok (err r) h = absurd (err-not-ok h)

rejected-not-token :
    {A : Type 0} {r : RejectionReason}
    → ◌≡◌ {A = Result PolicyError A} (err (PolicyError.rejected r)) (err PolicyError.token_error)
    → ⊥
rejected-not-token h = cc

pub rejecting-not-token :
    {A : Type 0} (m : Result RejectionReason A) → rejecting m ≡ err PolicyError.token_error → ⊥
rejecting-not-token (ok a) h = cc
rejecting-not-token (err r) h = rejected-not-token h

pub ensure_query_length_iff :
    (sql : String) → (ensure_query_length sql ≡ ok tt) ↔ (count sql ≤ max_query_text_length)
unfolding ensure_query_length
ensure_query_length_iff sql = ground arith

pub ensure_relations_iff :
    (referenced allowed : List String)
    → (ensure_relations_are_allowlisted referenced allowed ≡ ok tt)
      ↔ ((is_empty referenced ≡ false) × (all (contains allowed) referenced ≡ true))
unfolding ensure_relations_are_allowlisted
ensure_relations_iff referenced allowed = ground (arith, unknown_names-is_empty referenced allowed)

module _ (G : SqlGlot) where
  open G use {Node, parse, is_instance, find_all, name, lower}

  pub check_functions_sound :
      (fs : List Node)
      → check_functions G fs ≡ ok tt
      → All (λ f. contains allowed_function_names (normalized_function_name G f) ≡ true) fs
  unfolding check_functions
  check_functions_sound [] h = tt
  check_functions_sound (f ∷ fs) h = (ground arith, check_functions_sound fs (ground arith))

  pub check_functions_complete :
      (fs : List Node)
      → All (λ f. contains allowed_function_names (normalized_function_name G f) ≡ true) fs
      → check_functions G fs ≡ ok tt
  unfolding check_functions
  check_functions_complete [] h = refl
  check_functions_complete (f ∷ fs) h = rw (h.0) (check_functions_complete fs h.1)

  exactly_one_sound : (es : List Node) (e : Node) → exactly_one G es ≡ ok e → es ≡ e ∷ []
  unfolding exactly_one
  exactly_one_sound [] e h = cc
  exactly_one_sound (x ∷ []) e h = cc
  exactly_one_sound (x ∷ y ∷ es) e h = cc

  parse_one_statement_error :
      (sql : String) (f : ParseFailure) (e : Node)
      → parse sql ≡ err f
      → parse_one_statement G sql ≡ ok e
      → ⊥
  unfolding parse_one_statement
  parse_one_statement_error sql ParseFailure.parse_error e p h =
      err-not-ok (rw (p, parse_one_statement) at h)
  parse_one_statement_error sql ParseFailure.token_error e p h =
      err-not-ok (rw (p, parse_one_statement) at h)

  parse_one_statement_lem :
      (sql : String) (es : List (Option Node))
      → parse sql ≡ ok es
      → parse_one_statement G sql ≡ rejecting (exactly_one G (present G es))
  unfolding parse_one_statement
  parse_one_statement_lem sql es p = rw (p, parse_one_statement) refl

  -- The parser's own error is raised for no other reason.
  pub parse_one_statement-token_error :
      (sql : String)
      → parse_one_statement G sql ≡ err PolicyError.token_error
      → parse sql ≡ err ParseFailure.token_error
  unfolding parse_one_statement
  parse_one_statement-token_error sql h = elim (Result-cases (parse sql)) [
    | inl (ParseFailure.parse_error, p) ↦
        absurd (rejected-not-token (rw (p, parse_one_statement) at h))
    | inl (ParseFailure.token_error, p) ↦ p
    | inr (es, p) ↦ absurd (rejecting-not-token _ (rw (p, parse_one_statement) at h))
  ]

  pub parse_one_statement_sound :
      (sql : String) (e : Node)
      → parse_one_statement G sql ≡ ok e
      → (es : List (Option Node)) × (parse sql ≡ ok es) × (present G es ≡ e ∷ [])
  parse_one_statement_sound sql e h = elim (Result-cases (parse sql)) [
    | inl (f, p) ↦ absurd (parse_one_statement_error sql f e p h)
    | inr (es, p) ↦ (
      es,
      p,
      exactly_one_sound (present G es) e
          (rejecting-eq-ok _ (sym (parse_one_statement_lem sql es p) ∙ h)),
    )
  ]

  pub parse_one_statement_complete :
      (sql : String) (e : Node) (es : List (Option Node))
      → parse sql ≡ ok es
      → present G es ≡ e ∷ []
      → parse_one_statement G sql ≡ ok e
  parse_one_statement_complete sql e es p q =
      let one : exactly_one G (present G es) ≡ ok e = unfold exactly_one in rw q in
      parse_one_statement_lem sql es p ∙ ap rejecting one

  pub ensure_select_only_iff :
      (e : Node)
      → (ensure_select_only G e ≡ ok tt)
        ↔ ((is_instance NodeClass.select e ≡ true) × (find_all mutating_expressions e ≡ []))
  unfolding ensure_select_only
  ensure_select_only_iff e = ground (arith, is_empty_iff (find_all mutating_expressions e))

  pub ensure_bounded_select_shape_iff :
      (e : Node)
      → (ensure_bounded_select_shape G e ≡ ok tt) ↔ (
          (find_all (NodeClass.into ∷ []) e ≡ [])
          × (find_all (NodeClass.lock ∷ []) e ≡ [])
          × (find_all (NodeClass.table_sample ∷ []) e ≡ [])
          × (check_functions G (find_all (NodeClass.func ∷ []) e) ≡ ok tt))
  unfolding ensure_bounded_select_shape
  ensure_bounded_select_shape_iff e = ground (
    arith,
    is_empty_iff (find_all (NodeClass.into ∷ []) e),
    is_empty_iff (find_all (NodeClass.lock ∷ []) e),
    is_empty_iff (find_all (NodeClass.table_sample ∷ []) e),
  )

  module _ (ctes : List String) where
    -- Some table is unshadowed exactly if some name is read.
    pub reads-unshadowed :
        (n : String) (ts : List Node)
        → any (reads G ctes n) ts ≡ true
        → any (λ t. not (is_shadowed G ctes t)) ts ≡ true
    reads-unshadowed n [] h = cc
    reads-unshadowed n (t ∷ ts) h = ground (arith, reads-unshadowed n ts)

    pub unshadowed-reads :
        (ts : List Node)
        → any (λ t. not (is_shadowed G ctes t)) ts ≡ true
        → (n : String) × (any (reads G ctes n) ts ≡ true)
    unshadowed-reads [] h = cc
    unshadowed-reads (t ∷ ts) h = elim (Bool-cases (is_shadowed G ctes t)) [
      | inl s ↦ let (n, r) = unshadowed-reads ts (ground arith) in (n, ground (arith, r))
      | inr s ↦ (lower (name t), ground (arith, eq_refl (lower (name t))))
    ]
