-- ===== src/ViewTable/Examples.antt =====
-- A service over a store that keeps the saved tables, and the small parser of SqlPolicy.
use live_data_architecture.Base.{
  ℕ, ◌≤◌, String, ◌≡◌, ◌⊎◌, refl, true, false, some, List, [], ◌∷◌, map, contains, All,
}
use live_data_architecture.Base.Results.{ok, err}
use live_data_architecture.Catalog.{
  AnalyticsViewTable, datasets, dataset_from_view_table, list_datasets, service_dataset_names,
  allowed_dataset_names,
}
use live_data_architecture.SqlPolicy.{
  AnalyticsSqlPolicy, ensure_query_length, parse_one_statement, ensure_select_only,
  ensure_bounded_select_shape, extract_referenced_relations, ensure_relations_are_allowlisted,
  effective_relations, normalized_function_name, add_name, table_fault, validate,
}
use live_data_architecture.SqlPolicy.Trees.{Tree, counts_sql, trees}
use live_data_architecture.SqlPolicy.Acceptance.{IsSafeQuery}
use live_data_architecture.Explore.{dataset_by_name}
use live_data_architecture.ViewTable.{
  TextMethods, ViewTableError, matches_name_pattern, normalized_view_table_name,
  normalized_view_table_description, ensure_name_is_not_reserved, is_reserved,
}
use live_data_architecture.ViewTable.Names.{IsSafeName, built_in_not_shadowed}
use live_data_architecture.Charts.{AnalyticsRows, JsonValue}
use live_data_architecture.ViewTable.Service.{
  previewed, DatasetRepository, view_table_source_relations, or_unavailable, or_violation,
  validate_source_sql, create_names, create_arguments, create_checked, saved, create, delete,
  preview,
}
use live_data_architecture.ViewTable.Service.Guard.{
  MayBeSaved, create_guarded, delete_guarded, preview_guarded,
}

abbrev plain : TextMethods
plain = record { strip = λ s. s; lower = λ s. s }

abbrev new_table : String → String → String → AnalyticsViewTable
new_table name description sql = record {
  name = name;
  description = description;
  source_sql = sql;
  columns = [];
}

-- An answer that shows the text and the limit that it was asked with.
abbrev counted : String → ℕ → AnalyticsRows
counted sql k = record { columns = sql ∷ []; rows = ((sql, JsonValue.integer false k) ∷ []) ∷ [] }

abbrev tables : DatasetRepository
tables = record {
  State = List AnalyticsViewTable;
  list_view_table_datasets = λ s. (ok (map dataset_from_view_table s), s);
  preview_view_table_sql = λ sql k s. (ok (counted sql k), s);
  create_or_replace_view_table = λ n d sql s. (ok (new_table n d sql), new_table n d sql ∷ s);
  delete_view_table = λ n s. (ok tt, []);
}

abbrev policy : AnalyticsSqlPolicy
policy = record { allowed_relations = "event_type_counts" ∷ []; max_row_limit = 500 }

my_view-normal : normalized_view_table_name plain "my_view" ≡ ok "my_view"
unfolding normalized_view_table_name matches_name_pattern
my_view-normal = refl

-- A name that holds a quote is refused.
quote_refused :
    normalized_view_table_name plain "my\"view" ≡ err ViewTableError.invalid_view_table_name
unfolding normalized_view_table_name matches_name_pattern
quote_refused = refl

-- A name of the catalog, and the table of events, are reserved.
events_reserved : is_reserved "events" ≡ true
unfolding is_reserved allowed_dataset_names
events_reserved = refl

my_view_saved : create trees plain tables policy "my_view" "mine" counts_sql [] ≡ (
  ok (dataset_from_view_table (new_table "my_view" "mine" counts_sql)),
  new_table "my_view" "mine" counts_sql ∷ [],
)
unfolding create create_checked create_arguments create_names saved normalized_view_table_name
    matches_name_pattern normalized_view_table_description ensure_name_is_not_reserved is_reserved
    allowed_dataset_names validate_source_sql or_violation or_unavailable
    view_table_source_relations service_dataset_names list_datasets datasets validate
    ensure_query_length parse_one_statement ensure_select_only ensure_bounded_select_shape
    extract_referenced_relations ensure_relations_are_allowlisted effective_relations
    normalized_function_name add_name table_fault
my_view_saved = refl

free :
    All
      (λ d. is_reserved d.name ≡ false)
      (dataset_from_view_table (new_table "my_view" "mine" counts_sql) ∷ [])
unfolding is_reserved allowed_dataset_names dataset_from_view_table
free = (refl, tt)

built_in : contains allowed_dataset_names "event_type_counts" ≡ true
unfolding allowed_dataset_names datasets
built_in = refl

built_in_not_shadowed_example :
    dataset_by_name
      (list_datasets
        (some (ok (dataset_from_view_table (new_table "my_view" "mine" counts_sql) ∷ []))))
      "event_type_counts"
    ≡ dataset_by_name datasets "event_type_counts"
built_in_not_shadowed_example =
    built_in_not_shadowed (dataset_from_view_table (new_table "my_view" "mine" counts_sql) ∷ [])
      "event_type_counts" free built_in

create_guarded_example :
    ((e : ViewTableError) × ((create trees plain tables policy "my_view" "mine" counts_sql []
          ≡ (err e, []))
        ⊎ (create trees plain tables policy "my_view" "mine" counts_sql [] ≡ (err e, []))))
    ⊎ ((n : String) × (d : String) × (text : String) × MayBeSaved trees plain tables policy
          "my_view" "mine" counts_sql [] n d text
        × (create trees plain tables policy "my_view" "mine" counts_sql []
            ≡ (saved trees plain tables policy (ok (new_table n d text)), new_table n d text ∷ [])))
create_guarded_example = create_guarded trees plain tables policy "my_view" "mine" counts_sql []

delete_guarded_example :
    ((e : ViewTableError) × (delete trees plain tables policy "my_view" [] ≡ (err e, [])))
    ⊎ ((n : String) × (n ≡ "my_view")
        × IsSafeName n
        × (is_reserved n ≡ false)
        × (delete trees plain tables policy "my_view" [] ≡ (or_unavailable (ok tt), [])))
delete_guarded_example = delete_guarded trees plain tables policy "my_view" []

preview_guarded_example :
    ((e : ViewTableError) × (preview trees plain tables policy counts_sql 700 [] ≡ (err e, [])))
    ⊎ ((q : Tree) × (k : ℕ) × IsSafeQuery trees
          (view_table_source_relations trees plain tables policy []).0
          counts_sql
          q
        × (k ≤ 100)
        × (k ≤ 500)
        × (preview trees plain tables policy counts_sql 700 []
            ≡ (previewed trees plain tables policy (ok (counted (trees.text_of q) k)), [])))
preview_guarded_example = preview_guarded trees plain tables policy counts_sql 700 []
