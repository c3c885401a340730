-- ===== src/Repository/Methods.antt =====
-- The methods of `PostgresAnalyticsQueryRepository`.
use live_data_architecture.Base.{
  ℕ, String, Bool, true, false, Option, none, some, List, [], ◌∷◌, map,
}
use live_data_architecture.Base.Results.{Result, ok, err}
use live_data_architecture.Catalog.{
  AnalyticsDataset, AnalyticsViewTable, DatabaseError, dataset_from_view_table,
}
use live_data_architecture.Charts.{AnalyticsRows}
use live_data_architecture.Explore.{ExploreQuery}
use live_data_architecture.Explore.Select.{SelectStatement, build_explore_select_statement}
use live_data_architecture.Base.Action.{Action, pure, ◌>>=◌}
use live_data_architecture.Repository.Sql.{
  build_limited_select_sql, build_create_view_table_sql, build_drop_view_table_sql,
  build_grant_view_table_sql, build_analytics_runtime_guard_sql,
}
use live_data_architecture.Repository.Rows.{Scalars, row_mapping_to_json, view_tables_of_rows}
use live_data_architecture.Repository.Metadata.{
  build_upsert_view_table_metadata_statement, build_delete_view_table_metadata_statement,
  build_view_table_metadata_select_statement,
}
use live_data_architecture.Repository.Database.{SqlError, Session, Statement, ResultSet, Database}

-- `AnalyticsQueryExecutionError`, and what a lookup in a dictionary or a tuple raises.
pub data RepositoryError : Type 0 where
  execution_error key_error index_error : RepositoryError

module _ (S : Scalars) (D : Database S) (lower : String → String) (has_management : Bool) where
  open D use {State, execute, select_metadata, current_user, begin}

  -- `management_session_factory or session_factory`
  abbrev pub management : Session
  management = elim has_management [ true ↦ Session.manager | false ↦ Session.reader ]

  abbrev pub wrapped {ℓ} :
      {A : Type ℓ} → Result SqlError A × State → Result RepositoryError A × State
  wrapped (ok a, s) = (ok a, s)
  wrapped (err e, s) = (err RepositoryError.execution_error, s)

  -- `except SQLAlchemyError as exc: raise AnalyticsQueryExecutionError from exc`
  abbrev pub or_execution_error {ℓ} :
      {A : Type ℓ} → Action State SqlError A → Action State RepositoryError A
  or_execution_error call s = wrapped (call s)

  unfoldable pub run_guards : Session → List String → Action State SqlError (Unit {0})
  run_guards session [] = pure tt
  run_guards session (guard ∷ guards) = do
    answer ← execute session (Statement.text guard none)
    run_guards session guards

  abbrev pub analytics_rows : ResultSet S → AnalyticsRows
  analytics_rows result = record {
    columns = result.keys;
    rows = map (row_mapping_to_json S) result.mappings;
  }

  abbrev pub guarded : Session → Statement → Action State SqlError AnalyticsRows
  guarded session statement = do
    done ← run_guards session build_analytics_runtime_guard_sql
    result ← execute session statement
    pure (analytics_rows result)

  -- `_execute_statement`
  unfoldable pub execute_statement : Session → Statement → Action State SqlError AnalyticsRows
  execute_statement session statement = begin session (guarded session statement)

  unfoldable pub execute_select : String → ℕ → Action State RepositoryError AnalyticsRows
  unfolding execute_statement
  execute_select sql row_limit = or_execution_error (
      execute_statement Session.reader
        (Statement.text (build_limited_select_sql sql) (some row_limit)))

  abbrev pub execute_core : Option SelectStatement → Action State RepositoryError AnalyticsRows
  execute_core none s = (err RepositoryError.key_error, s)
  execute_core (some statement) s =
      or_execution_error (execute_statement Session.reader (Statement.core_select statement)) s

  unfoldable pub execute_explore_query : ExploreQuery → Action State RepositoryError AnalyticsRows
  unfolding execute_statement
  execute_explore_query query = execute_core (build_explore_select_statement query)

  unfoldable pub preview_view_table_sql : String → ℕ → Action State RepositoryError AnalyticsRows
  unfolding execute_statement
  preview_view_table_sql source_sql row_limit = or_execution_error (
      execute_statement management
        (Statement.text (build_limited_select_sql source_sql) (some row_limit)))

  unfoldable pub load_view_tables : Option String → Action State SqlError (List AnalyticsViewTable)
  load_view_tables name = do
    rows ← select_metadata management (build_view_table_metadata_select_statement name)
    pure (view_tables_of_rows lower rows)

  abbrev pub database_answer {ℓ} :
      {A : Type ℓ} → Result SqlError A × State → Result DatabaseError A × State
  database_answer (ok a, s) = (ok a, s)
  database_answer (err e, s) = (err DatabaseError.execution_error, s)

  -- The same `except` in the method that raises nothing else.
  unfoldable pub list_view_tables : Action State DatabaseError (List AnalyticsViewTable)
  unfolding load_view_tables
  list_view_tables s = database_answer (load_view_tables none s)

  unfoldable pub list_view_table_datasets : Action State DatabaseError (List AnalyticsDataset)
  unfolding list_view_tables
  list_view_table_datasets = do
    view_tables ← list_view_tables
    pure (map dataset_from_view_table view_tables)

  -- The block of `create_or_replace_view_table` inside its transaction.
  abbrev pub save_view_table :
      String → String → String → String → Action State SqlError (List AnalyticsViewTable)
  save_view_table name description source_sql reader_role_name = do
    created ← execute management (Statement.text (build_create_view_table_sql name source_sql) none)
    granted ←
        execute management (Statement.text (build_grant_view_table_sql name reader_role_name) none)
    upserted ← execute management (
        Statement.upsert_metadata
          (build_upsert_view_table_metadata_statement name description source_sql))
    load_view_tables (some name)

  -- `view_tables[0]`
  abbrev pub first_view_table :
      List AnalyticsViewTable → Action State RepositoryError AnalyticsViewTable
  first_view_table [] s = (err RepositoryError.index_error, s)
  first_view_table (table ∷ tables) s = (ok table, s)

  unfoldable pub create_or_replace_view_table :
      String → String → String → Action State RepositoryError AnalyticsViewTable
  unfolding load_view_tables
  create_or_replace_view_table name description source_sql = do
    reader_role_name ← or_execution_error (current_user Session.reader)
    view_tables ←
        or_execution_error
          (begin management (save_view_table name description source_sql reader_role_name))
    first_view_table view_tables

  abbrev pub drop_view_table : String → Action State SqlError (Unit {0})
  drop_view_table name = do
    dropped ← execute management (Statement.text (build_drop_view_table_sql name) none)
    deleted ←
        execute management
          (Statement.delete_metadata (build_delete_view_table_metadata_statement name))
    pure tt

  unfoldable pub delete_view_table : String → Action State RepositoryError (Unit {0})
  delete_view_table name = or_execution_error (begin management (drop_view_table name))
