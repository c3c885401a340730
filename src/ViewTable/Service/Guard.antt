-- ===== src/ViewTable/Service/Guard.antt =====
-- What reaches the repository through the service: only what passed every check.
use Prim.Native.String.{count}
use live_data_architecture.Base.{
  ℕ, ◌≤◌, String, ◌≡◌, ◌⊎◌, inl, inr, refl, sym, ap, false, some, List, [], ◌∷◌, ◌++◌, arith, ltb,
  Bool-cases, min,
}
use live_data_architecture.Base.Results.{
  Result, ok, err, raise_if-eq-ok, >>=-eq-ok, >>-eq-ok, ok-injective, Result-cases,
}
use live_data_architecture.Catalog.{service_dataset_names}
use live_data_architecture.SqlPolicy.{
  PolicyError, AnalyticsSqlPolicy, ValidatedSqlQuery, effective_relations,
}
use live_data_architecture.SqlPolicy.Parser.{SqlGlot}
use live_data_architecture.SqlPolicy.Acceptance.{IsSafeQuery, validate_sound}
use live_data_architecture.ViewTable.{
  TextMethods, ViewTableError, max_view_table_description_length, max_view_table_row_limit,
  normalized_view_table_name, normalized_view_table_description, is_reserved,
  ensure_name_is_not_reserved,
}
use live_data_architecture.ViewTable.Names.{IsSafeName, normalized_name_sound}
use live_data_architecture.ViewTable.Service.{
  previewed, DatasetRepository, or_unavailable, or_violation, view_table_source_relations,
  validate_source_sql, preview, create_names, create_arguments, saved, create_checked, create,
  delete_argument, delete_checked, delete, preview_checked,
}

or_violation-eq-ok :
    (m : Result PolicyError ValidatedSqlQuery) (v : ValidatedSqlQuery)
    → or_violation m ≡ ok v
    → m ≡ ok v
unfolding or_violation
or_violation-eq-ok (ok w) v h = cc
or_violation-eq-ok (err (PolicyError.rejected e)) v h = cc
or_violation-eq-ok (err PolicyError.token_error) v h = cc

effective-nonempty :
    (policy : AnalyticsSqlPolicy) (xs ys : List String) (x : String)
    → effective_relations (some (xs ++ x ∷ ys)) policy ≡ xs ++ x ∷ ys
unfolding effective_relations
effective-nonempty policy [] ys x = refl
effective-nonempty policy (y ∷ xs) ys x = refl

ensure_name_is_not_reserved-eq-ok :
    (n : String) → ensure_name_is_not_reserved n ≡ ok tt → is_reserved n ≡ false
unfolding ensure_name_is_not_reserved
ensure_name_is_not_reserved-eq-ok n h = raise_if-eq-ok (is_reserved n) _ h

description_lem :
    {e : ViewTableError} {d : String} {A : Type 0}
    → ◌≡◌ {A = Result ViewTableError String} (err e) (ok d)
    → A
description_lem h = cc

module _ (G : SqlGlot) (T : TextMethods) (R : DatasetRepository) (policy : AnalyticsSqlPolicy) where
  open R use {State, preview_view_table_sql, create_or_replace_view_table, delete_view_table}

  description_sound :
      (description d : String)
      → normalized_view_table_description T description ≡ ok d
      → (d ≡ T.strip description) × (count d ≤ max_view_table_description_length)
  unfolding normalized_view_table_description
  description_sound description d h =
      elim (Bool-cases (ltb max_view_table_description_length (count (T.strip description)))) [
        | inl long ↦ description_lem (rw long at h)
        | inr short ↦
            let same : T.strip description ≡ d = ok-injective (rw short at h) in
            (sym same, rw (sym same) (ground arith))
      ]

  source_sql_sound :
      (sql : String) (limit : ℕ) (s : State) (v : ValidatedSqlQuery)
      → (validate_source_sql G T R policy sql limit s).0 ≡ ok v
      → (q : G.Node) × IsSafeQuery G (view_table_source_relations G T R policy s).0 sql q
        × (v.sql ≡ G.text_of q)
        × (v.row_limit ≡ min (min limit max_view_table_row_limit) policy.max_row_limit)
  unfolding validate_source_sql view_table_source_relations
  source_sql_sound sql limit s v h =
      let (q, safe, of) =
        validate_sound G policy sql (min limit max_view_table_row_limit)
          (some (view_table_source_relations G T R policy s).0) v (or_violation-eq-ok _ v h) in
      (
        q,
        rw
            (effective-nonempty policy
              (service_dataset_names (some (R.list_view_table_datasets s).0)) [] "events")
            at safe,
        of.sql,
        of.row_limit,
      )

  -- The name, the description and the text with which the repository may be called.
  pub record MayBeSaved (name description sql : String) (s : State) (n d text : String)
      : Type 0 where
    pub name_normalized : n ≡ T.lower (T.strip name)
    pub name_safe : IsSafeName n
    pub name_free : is_reserved n ≡ false
    pub description_stripped : d ≡ T.strip description
    pub description_short : count d ≤ max_view_table_description_length
    pub statement : G.Node
    pub text_safe : IsSafeQuery G (view_table_source_relations G T R policy s).0 sql statement
    pub text_eq : text ≡ G.text_of statement

  names_sound :
      (name description sql : String) (s : State) (n d : String) (v : ValidatedSqlQuery)
      → create_names G T R policy name description ≡ ok (n, d)
      → (validate_source_sql G T R policy sql 1 s).0 ≡ ok v
      → MayBeSaved name description sql s n d v.sql
  unfolding create_names
  names_sound name description sql s n d v h p₄ =
      let (n', p₁, h₁) = >>=-eq-ok (normalized_view_table_name T name) _ h in
      let (d', p₂, h₂) = >>=-eq-ok (normalized_view_table_description T description) _ h₁ in
      let (p₃, h₃) = >>-eq-ok (ensure_name_is_not_reserved n') _ h₂ in
      let same = ok-injective h₃ in
      let same_name : n' ≡ n = ap (λ (t : String × String). t.0) same in
      let same_description : d' ≡ d = ap (λ (t : String × String). t.1) same in
      let (is_normal, safe) = normalized_name_sound T name n (rw same_name at p₁) in
      let (stripped, short) = description_sound description d (rw same_description at p₂) in
      let (q, of_text, text_eq, _) = source_sql_sound sql 1 s v p₄ in
      record {
        name_normalized = is_normal;
        name_safe = safe;
        name_free = ensure_name_is_not_reserved-eq-ok n (rw same_name at p₃);
        description_stripped = stripped;
        description_short = short;
        statement = q;
        text_safe = of_text;
        text_eq = text_eq;
      }

  -- The state once the view tables were listed.
  abbrev pub listed : State → State
  listed s = (R.list_view_table_datasets s).1

  -- What the validation of the text answers, with the state that it leaves.
  answered :
      (sql : String) (limit : ℕ) (s : State) {x : Result ViewTableError ValidatedSqlQuery}
      → (validate_source_sql G T R policy sql limit s).0 ≡ x
      → validate_source_sql G T R policy sql limit s ≡ (x, listed s)
  unfolding validate_source_sql view_table_source_relations
  answered sql limit s h = ap (λ y. (y, listed s)) h

  -- `create` either raises an error, having made no call of the repository but perhaps the one that
  -- lists the view tables; or it lists them and then makes a single call, with a safe and unreserved
  -- name, a stripped description of 240 characters at most, and the parser's text of a bounded
  -- SELECT, each table of which either has, whatever its schema, the name of a CTE of the statement,
  -- or is unqualified and of the catalog or `events`. It then returns what that call answered.
  pub create_guarded :
      (name description sql : String) (s : State)
      → ((e : ViewTableError) × ((create G T R policy name description sql s ≡ (err e, s))
            ⊎ (create G T R policy name description sql s ≡ (err e, listed s))))
        ⊎ ((n : String) × (d : String) × (text : String) × MayBeSaved name description sql s n d
              text
            × (create G T R policy name description sql s ≡ (
                let (answer, s') = create_or_replace_view_table n d text (listed s) in
                (saved G T R policy answer, s'))))
  unfolding create create_checked create_arguments
  create_guarded name description sql s =
      elim (Result-cases (create_names G T R policy name description)) [
        | inl (e, h) ↦ inl (e, inl (rw h refl))
        | inr ((n, d), h) ↦ elim (Result-cases (validate_source_sql G T R policy sql 1 s).0) [
          | inl (e, k) ↦ inl (e, inr (rw h (rw (answered sql 1 s k) refl)))
          | inr (v, k) ↦ inr (
            n,
            d,
            v.sql,
            names_sound name description sql s n d v h k,
            rw h (rw (answered sql 1 s k) refl),
          )
        ]
      ]

  -- `delete` either raises an error and changes nothing, or calls the repository once, with the
  -- lowered and stripped name, which is safe and not reserved.
  pub delete_guarded :
      (name : String) (s : State)
      → ((e : ViewTableError) × (delete G T R policy name s ≡ (err e, s)))
        ⊎ ((n : String) × (n ≡ T.lower (T.strip name))
            × IsSafeName n
            × (is_reserved n ≡ false)
            × (delete G T R policy name s
                ≡ (let (answer, s') = delete_view_table n s in (or_unavailable answer, s'))))
  unfolding delete delete_checked delete_argument
  delete_guarded name s = elim (Result-cases (delete_argument G T R policy name)) [
    | inl (e, h) ↦ inl (e, rw h refl)
    | inr (n, h) ↦
        let (n', p₁, h₁) = >>=-eq-ok (normalized_view_table_name T name) _ h in
        let (p₂, h₂) = >>-eq-ok (ensure_name_is_not_reserved n') _ h₁ in
        let same : n' ≡ n = ok-injective h₂ in
        let (is_normal, safe) = normalized_name_sound T name n (rw same at p₁) in
        inr (n, is_normal, safe, ensure_name_is_not_reserved-eq-ok n (rw same at p₂), rw h refl)
  ]

  -- `preview` lists the view tables. Then it either raises an error without another call of the
  -- repository, or makes a single call, to run the parser's text of a bounded SELECT, each table of
  -- which either has, whatever its schema, the name of a CTE of the statement, or is unqualified and
  -- of the catalog or `events`. The row limit of the call is at most 100 and at most the policy's;
  -- its rows are returned with the suggested chart, and the state is the one that this call leaves.
  pub preview_guarded :
      (sql : String) (limit : ℕ) (s : State)
      → ((e : ViewTableError) × (preview G T R policy sql limit s ≡ (err e, listed s)))
        ⊎ ((q : G.Node) × (k : ℕ) × IsSafeQuery G
              (view_table_source_relations G T R policy s).0
              sql
              q
            × (k ≤ 100)
            × (k ≤ policy.max_row_limit)
            × (preview G T R policy sql limit s ≡ (
                let (answer, s') = preview_view_table_sql (G.text_of q) k (listed s) in
                (previewed G T R policy answer, s'))))
  unfolding preview preview_checked
  preview_guarded sql limit s =
      elim (Result-cases (validate_source_sql G T R policy sql limit s).0) [
        | inl (e, h) ↦ inl (e, rw (answered sql limit s h) refl)
        | inr (v, h) ↦
            let (q, safe, text_eq, limit_eq) = source_sql_sound sql limit s v h in
            inr (
              q,
              v.row_limit,
              safe,
              rw limit_eq (omega arith),
              rw limit_eq (omega arith),
              rw (answered sql limit s h) (rw text_eq refl),
            )
      ]
