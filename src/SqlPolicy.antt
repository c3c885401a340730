-- ===== src/SqlPolicy.antt =====
-- backend/app/event_analytics/application/query_policy.py: which SQL texts may run. The parser,
-- sqlglot, is a parameter. An error is its reason; its message, which repeats the reason in words,
-- is left out.
pub mod Parser
pub mod Trees
pub mod Relations
mod Checks
pub mod Acceptance
mod Examples
use Prim.Native.String.{count}
use live_data_architecture.Base.{
  ℕ, String, Bool, true, false, not, ◌&&◌, ◌||◌, Option, none, some, List, [], ◌∷◌, map, min, ltb,
  eqb, ◌==◌, if◌then◌else◌, length, contains, any,
}
use live_data_architecture.Base.Results.{Result, ok, err, raise_if, ◌>>=◌, ◌>>◌}
use Parser.{SqlGlot, NodeClass, ParseFailure}

abbrev pub max_query_row_limit : ℕ
max_query_row_limit = 500

abbrev pub max_query_text_length : ℕ
max_query_text_length = 4000

pub data RejectionReason : Type 0 where
  query_too_long parse_error multiple_statements non_select_statement : RejectionReason
  unsafe_cte disallowed_function disallowed_select_into disallowed_locking_read : RejectionReason
  disallowed_table_sample disallowed_system_catalog cross_schema_relation : RejectionReason
  unknown_relation missing_relation : RejectionReason

-- What `validate` raises: a violation with its reason, or the error of the parser that it does not
-- catch.
pub data PolicyError : Type 0 where
  rejected : RejectionReason → PolicyError
  token_error : PolicyError

-- `raise SqlPolicyViolationError(reason)`
abbrev pub rejecting {ℓ} : {A : Type ℓ} → Result RejectionReason A → Result PolicyError A
rejecting (ok a) = ok a
rejecting (err reason) = err (PolicyError.rejected reason)

abbrev pub mutating_expressions : List NodeClass
mutating_expressions =
    NodeClass.alter ∷ NodeClass.command ∷ NodeClass.create ∷ NodeClass.delete ∷ NodeClass.drop
    ∷ NodeClass.insert ∷ NodeClass.merge ∷ NodeClass.truncate_table ∷ NodeClass.update ∷ []

abbrev pub allowed_function_names : List String
allowed_function_names =
    "avg" ∷ "count" ∷ "date_trunc" ∷ "max" ∷ "min" ∷ "round" ∷ "sum" ∷ "timestamp_trunc" ∷ []

abbrev pub system_catalog_names : List String
system_catalog_names = "information_schema" ∷ "pg_catalog" ∷ []

pub record ValidatedSqlQuery : Type 0 where
  pub sql : String
  pub referenced_relations : List String
  pub row_limit : ℕ

-- The truth of a text or of a collection.
abbrev pub is_empty {ℓ} : {A : Type ℓ} → List A → Bool
is_empty [] = true
is_empty (x ∷ xs) = false

-- `set.add`
unfoldable pub add_name : String → List String → List String
add_name name names = if contains names name then names else name ∷ names

-- `_ensure_query_length`
unfoldable pub ensure_query_length : String → Result RejectionReason (Unit {0})
ensure_query_length sql =
    raise_if (ltb max_query_text_length (count sql)) RejectionReason.query_too_long

-- `names - allowed`
unfoldable pub unknown_names : List String → List String → List String
unknown_names [] allowed = []
unknown_names (n ∷ names) allowed =
    let rest = unknown_names names allowed in if contains allowed n then rest else n ∷ rest

-- `_ensure_relations_are_allowlisted`
unfoldable pub ensure_relations_are_allowlisted :
    List String → List String → Result RejectionReason (Unit {0})
unfolding unknown_names
ensure_relations_are_allowlisted referenced allowed = do
  raise_if (is_empty referenced) RejectionReason.missing_relation
  raise_if (not (is_empty (unknown_names referenced allowed))) RejectionReason.unknown_relation

-- The policy's fields.
pub record AnalyticsSqlPolicy : Type 0 where
  pub allowed_relations : List String
  pub max_row_limit : ℕ

-- `allowed_relations or self._allowed_relations`: an empty set falls back to the policy's own.
unfoldable pub effective_relations : Option (List String) → AnalyticsSqlPolicy → List String
effective_relations none policy = policy.allowed_relations
effective_relations (some []) policy = policy.allowed_relations
effective_relations (some (n ∷ names)) policy = n ∷ names

module _ (G : SqlGlot) where
  open G use {
    Node, parse, is_instance, find_all, text_of, sql_name, name, db, catalog, alias_or_name, lower,
  }

  -- `[expression for expression in expressions if expression]`
  unfoldable pub present : List (Option Node) → List Node
  present [] = []
  present (none ∷ es) = present es
  present (some e ∷ es) = e ∷ present es

  unfoldable pub exactly_one : List Node → Result RejectionReason Node
  exactly_one (e ∷ []) = ok e
  exactly_one _ = err RejectionReason.multiple_statements

  -- `_parse_one_statement`, with the `expressions[0]` of its caller
  unfoldable pub parse_one_statement : String → Result PolicyError Node
  unfolding present exactly_one
  parse_one_statement sql = elim (parse sql) [
    | err ParseFailure.parse_error ↦ err (PolicyError.rejected RejectionReason.parse_error)
    | err ParseFailure.token_error ↦ err PolicyError.token_error
    | ok es ↦ rejecting (exactly_one (present es))
  ]

  unfoldable pub has_any : List NodeClass → Node → Bool
  has_any classes e = not (is_empty (find_all classes e))

  -- `_ensure_select_only`
  unfoldable pub ensure_select_only : Node → Result RejectionReason (Unit {0})
  unfolding has_any
  ensure_select_only e = do
    raise_if (not (is_instance NodeClass.select e)) RejectionReason.non_select_statement
    raise_if (has_any mutating_expressions e) RejectionReason.unsafe_cte

  -- `_normalized_function_name`
  unfoldable pub normalized_function_name : Node → String
  normalized_function_name f =
      if is_instance NodeClass.anonymous f then lower (name f) else lower (sql_name f)

  unfoldable pub check_functions : List Node → Result RejectionReason (Unit {0})
  check_functions [] = ok tt
  check_functions (f ∷ fs) = do
    raise_if (not (contains allowed_function_names (normalized_function_name f)))
        RejectionReason.disallowed_function
    check_functions fs

  -- `_ensure_bounded_select_shape`, with `_ensure_function_surface_is_allowlisted`
  unfoldable pub ensure_bounded_select_shape : Node → Result RejectionReason (Unit {0})
  unfolding has_any check_functions
  ensure_bounded_select_shape e = do
    raise_if (has_any (NodeClass.into ∷ []) e) RejectionReason.disallowed_select_into
    raise_if (has_any (NodeClass.lock ∷ []) e) RejectionReason.disallowed_locking_read
    raise_if (has_any (NodeClass.table_sample ∷ []) e) RejectionReason.disallowed_table_sample
    check_functions (find_all (NodeClass.func ∷ []) e)

  -- The set of `cte.alias_or_name.lower()` where the name is not empty.
  unfoldable pub cte_names : List Node → List String
  cte_names [] = []
  cte_names (c ∷ cs) =
      let rest = cte_names cs in
      if alias_or_name c == "" then rest else lower (alias_or_name c) ∷ rest

  -- The checks on a table that no CTE names, in the order of the source.
  unfoldable pub table_fault : Node → Option RejectionReason
  table_fault t =
      if contains system_catalog_names (lower (db t))
        || contains system_catalog_names (lower (catalog t))
      then some RejectionReason.disallowed_system_catalog
      else if not (lower (db t) == "") || not (lower (catalog t) == "")
      then some RejectionReason.cross_schema_relation
      else none

  unfoldable pub collect_relations :
      List String → List Node → List String → Result RejectionReason (List String)
  collect_relations ctes [] found = ok found
  collect_relations ctes (t ∷ ts) found =
      let skipped = collect_relations ctes ts found in
      let added = collect_relations ctes ts (add_name (lower (name t)) found) in
      if contains ctes (lower (name t))
      then skipped
      else (elim (table_fault t) [ some reason ↦ err reason | none ↦ added ])

  -- `_extract_referenced_relations`
  unfoldable pub extract_referenced_relations : Node → Result RejectionReason (List String)
  unfolding cte_names collect_relations
  extract_referenced_relations e =
      collect_relations (cte_names (find_all (NodeClass.cte ∷ []) e))
        (find_all (NodeClass.table ∷ []) e) []

  -- `AnalyticsSqlPolicy.validate`
  unfoldable pub validate :
      AnalyticsSqlPolicy → String → ℕ → Option (List String) → Result PolicyError ValidatedSqlQuery
  validate policy sql requested_row_limit allowed_relations = do
    rejecting (ensure_query_length sql)
    e ← parse_one_statement sql
    rejecting (ensure_select_only e)
    rejecting (ensure_bounded_select_shape e)
    referenced ← rejecting (extract_referenced_relations e)
    rejecting
        (ensure_relations_are_allowlisted referenced (effective_relations allowed_relations policy))
    ok (record {
      sql = text_of e;
      referenced_relations = referenced;
      row_limit = min requested_row_limit policy.max_row_limit;
    })
