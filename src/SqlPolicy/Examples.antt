-- ===== src/SqlPolicy/Examples.antt =====
-- The policy over the small parser of Trees.
use live_data_architecture.Base.{◌≡◌, refl, none, some, [], ◌∷◌, arith, inr}
use live_data_architecture.Base.Results.{ok, err}
use live_data_architecture.SqlPolicy.Trees.{
  Tree, counts_sql, open_sql, catalog_sql, shadowed_sql, counts, shadowed, trees,
}
use live_data_architecture.SqlPolicy.{
  RejectionReason, PolicyError, AnalyticsSqlPolicy, ValidatedSqlQuery, ensure_query_length,
  parse_one_statement, ensure_select_only, ensure_bounded_select_shape,
  extract_referenced_relations, collect_relations, ensure_relations_are_allowlisted,
  effective_relations, normalized_function_name, add_name, table_fault, cte_names, present,
  validate,
}
use live_data_architecture.SqlPolicy.Relations.{without_shadowed}
use live_data_architecture.SqlPolicy.Acceptance.{
  IsSafeQuery, IsQueryOf, ctes_of, tables_of, validate_sound, validate_complete,
  extract_ignores_shadowed,
}

abbrev policy : AnalyticsSqlPolicy
policy = record { allowed_relations = "event_type_counts" ∷ []; max_row_limit = 500 }

abbrev counts_query : ValidatedSqlQuery
counts_query = record {
  sql = counts_sql;
  referenced_relations = "event_type_counts" ∷ [];
  row_limit = 500;
}

counts_accepted : validate trees policy counts_sql 900 none ≡ ok counts_query
unfolding validate ensure_query_length parse_one_statement ensure_select_only
    ensure_bounded_select_shape extract_referenced_relations ensure_relations_are_allowlisted
    effective_relations normalized_function_name add_name table_fault
counts_accepted = refl

-- The schema-qualified catalog relation alone is rejected.
catalog_rejected :
    validate trees policy catalog_sql 900 none
    ≡ err (PolicyError.rejected RejectionReason.disallowed_system_catalog)
unfolding validate ensure_query_length parse_one_statement ensure_select_only
    ensure_bounded_select_shape extract_referenced_relations table_fault
catalog_rejected = refl

-- The parser's error on an open string is no rejection of the policy.
open_not_rejected : validate trees policy open_sql 900 none ≡ err PolicyError.token_error
unfolding validate ensure_query_length parse_one_statement
open_not_rejected = refl

-- The same relation behind a CTE of its name is accepted.
shadowed_accepted :
    validate trees policy shadowed_sql 900 none ≡ ok (record counts_query { sql = shadowed_sql })
unfolding validate ensure_query_length parse_one_statement ensure_select_only
    ensure_bounded_select_shape extract_referenced_relations ensure_relations_are_allowlisted
    effective_relations normalized_function_name add_name table_fault
shadowed_accepted = refl

validate_sound_example :
    (e : Tree) × IsSafeQuery trees (effective_relations none policy) counts_sql e
    × IsQueryOf trees policy 900 e counts_query
validate_sound_example =
    validate_sound trees policy counts_sql 900 none counts_query counts_accepted

counts-IsSafeQuery : IsSafeQuery trees (effective_relations none policy) counts_sql counts
unfolding normalized_function_name effective_relations cte_names present
counts-IsSafeQuery = record {
  short = omega arith;
  statements = some counts ∷ none ∷ [];
  parsed = refl;
  single = refl;
  select = refl;
  no_mutation = refl;
  no_into = refl;
  no_lock = refl;
  no_sample = refl;
  functions = (refl, tt);
  tables = (inr (refl, refl), tt);
  relations = λ n h. h;
  reads_one = refl;
}

validate_complete_example :
    (v : ValidatedSqlQuery) × (validate trees policy counts_sql 900 none ≡ ok v)
    × IsQueryOf trees policy 900 counts v
validate_complete_example =
    validate_complete trees policy counts_sql 900 none counts counts-IsSafeQuery

extract_ignores_shadowed_example :
    extract_referenced_relations trees shadowed
    ≡ collect_relations trees
        (ctes_of trees shadowed)
        (without_shadowed trees (ctes_of trees shadowed) (tables_of trees shadowed))
        []
extract_ignores_shadowed_example = extract_ignores_shadowed trees shadowed
