-- ===== src/Repository/Examples.antt =====
-- The repository over the store, and its texts.
use live_data_architecture.Base.{String, ◌≡◌, ◌⊎◌, refl, true, false, none, some, List, [], ◌∷◌}
use live_data_architecture.Base.Results.{ok, err}
use live_data_architecture.Catalog.{ColumnKind}
use live_data_architecture.Explore.{ExploreQuery, ExploreSortDirection}
use live_data_architecture.Repository.Sql.{quoted_identifier}
use live_data_architecture.Repository.Quoting.{quoted_identifier-injective}
use live_data_architecture.Repository.Rows.{
  MetadataRow, column_kind_from_postgres_type, view_tables_of_rows,
}
use live_data_architecture.Repository.Grouping.{table_named, described, view_tables_of_rows_named}
use live_data_architecture.Repository.Store.{Store, plain_scalars, store_database}
use live_data_architecture.Repository.Methods.{
  RepositoryError, create_or_replace_view_table, delete_view_table,
}
use live_data_architecture.Repository.Saving.{
  Sets, SavedOrNot, create_or_replace_saves, delete_view_table_removes,
}

abbrev same_text : String → String
same_text s = s

quoted : quoted_identifier "a\"b" ≡ "\"a\"\"b\""
unfolding quoted_identifier
quoted = refl

quoted_identifier-injective_example :
    ◌≡◌ {A = String} "a\"b" "a\"b" × ◌≡◌ {A = String} " WITH GRANT OPTION" " WITH GRANT OPTION"
quoted_identifier-injective_example =
    quoted_identifier-injective "a\"b" "a\"b" " WITH GRANT OPTION" " WITH GRANT OPTION" refl refl
      refl

-- PostgreSQL's information schema has this name for the type `time`.
time_is_no_time :
    column_kind_from_postgres_type same_text "time without time zone" ≡ ColumnKind.dimension
unfolding column_kind_from_postgres_type
time_is_no_time = refl

abbrev row : String → String → MetadataRow
row name column = record {
  name = name;
  description = "mine";
  source_sql = "SELECT 1";
  column_name = some column;
  data_type = some "numeric";
}

abbrev rows : List MetadataRow
rows = row "a" "x" ∷ row "b" "y" ∷ row "a" "z" ∷ []

view_tables_of_rows_named_example :
    table_named same_text "a" (view_tables_of_rows same_text rows) ≡ described same_text "a" rows
view_tables_of_rows_named_example = view_tables_of_rows_named same_text rows "a"

abbrev start : Store
start = record { entries = ("old", ("kept", "SELECT 0")) ∷ []; is_read_only = false }

abbrev query : ExploreQuery
query = record {
  dataset_name = "event_type_counts";
  column_refs = record { dataset_name = "event_type_counts"; column_name = "event_type" } ∷ [];
  joins = [];
  order_by = none;
  order_direction = ExploreSortDirection.asc;
  row_limit = 10;
}

create_or_replace_saves_example :
    SavedOrNot plain_scalars store_database same_text true "mine" "my own" "SELECT 1" start (
      create_or_replace_view_table plain_scalars store_database same_text true "mine" "my own"
        "SELECT 1" start)
create_or_replace_saves_example =
    create_or_replace_saves plain_scalars store_database same_text true "mine" "my own" "SELECT 1"
      start

delete_view_table_removes_example :
    ((s' : Store) × (delete_view_table plain_scalars store_database same_text true "old" start
        ≡ (err RepositoryError.execution_error, s'))
      × (s'.entries ≡ start.entries))
    ⊎ ((s' : Store) × (delete_view_table plain_scalars store_database same_text true "old" start
          ≡ (ok tt, s'))
        × Sets plain_scalars store_database same_text true start.entries s'.entries "old" none)
delete_view_table_removes_example =
    delete_view_table_removes plain_scalars store_database same_text true "old" start
