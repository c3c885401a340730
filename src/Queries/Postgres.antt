-- ===== src/Queries/Postgres.antt =====
-- The query services over the repository of Repository.Methods.
use live_data_architecture.Base.{ℕ, String, ◌≡◌, refl, ap, ◌∙◌, Bool, Option, none, List, [], map}
use live_data_architecture.Base.Results.{Result, ok, err}
use live_data_architecture.Catalog.{dataset_from_view_table}
use live_data_architecture.Charts.{AnalyticsRows}
use live_data_architecture.Explore.{
  ExploreQuery, ExploreColumnRef, ExploreJoin, ExploreSortDirection, ExploreError,
}
use live_data_architecture.Base.Action.{pure, after}
use live_data_architecture.Repository.Rows.{Scalars, MetadataRow, view_tables_of_rows}
use live_data_architecture.Repository.Database.{SqlError, Database}
use live_data_architecture.Repository.Methods.{
  RepositoryError, management, database_answer, load_view_tables, list_view_tables,
  list_view_table_datasets, execute_select, execute_explore_query,
}
use live_data_architecture.Repository.Metadata.{build_view_table_metadata_select_statement}
use live_data_architecture.Repository.ReadOnly.{queries_change_nothing}
use live_data_architecture.SqlPolicy.{AnalyticsSqlPolicy, PolicyError, ValidatedSqlQuery}
use live_data_architecture.SqlPolicy.Parser.{SqlGlot}
use live_data_architecture.Queries.{
  QueryRepository, AuditRecord, CatalogService, World, catalog_answer, allowed_relations,
  available_datasets, executed, execute_validated, execute_sql, explored, execute_built,
  execute_explore,
}

no_query : ExploreQuery
no_query = record {
  dataset_name = "";
  column_refs = [];
  joins = [];
  order_by = none;
  order_direction = ExploreSortDirection.asc;
  row_limit = 0;
}

module _ (S : Scalars) (D : Database S) (lower : String → String) (has_management : Bool) where
  open D use {State, data_of}

  abbrev pub postgres_repository : QueryRepository
  postgres_repository = record {
    State = State;
    list_view_table_datasets = list_view_table_datasets S D lower has_management;
    execute_select = execute_select S D lower has_management;
    execute_explore_query = execute_explore_query S D lower has_management;
  }

  selected_data :
      (x : Result SqlError (List MetadataRow) × State)
      → (after
          (database_answer S D lower has_management
            (after x (λ rows. pure (view_tables_of_rows lower rows))))
          (λ tables. pure (map dataset_from_view_table tables))).1
        ≡ x.1
  selected_data (err e, s) = refl
  selected_data (ok rows, s) = refl

  listed_data :
      (s : State) → data_of (list_view_table_datasets S D lower has_management s).1 ≡ data_of s
  unfolding list_view_table_datasets list_view_tables load_view_tables
  listed_data s =
      let session = management S D lower has_management in
      let all = build_view_table_metadata_select_statement none in
      ap data_of (selected_data (D.select_metadata session all s)) ∙ D.select-data session all s

  catalog_data :
      (service : CatalogService) (s : State)
      → data_of (catalog_answer postgres_repository lower service s).1 ≡ data_of s
  catalog_data CatalogService.no_service s = refl
  catalog_data CatalogService.built_in_service s = refl
  catalog_data CatalogService.dynamic_service s = listed_data s

  module _ (service : CatalogService) where
    explored_state :
        (x : Result RepositoryError AnalyticsRows × State)
        → (explored postgres_repository lower service x).1 ≡ x.1
    explored_state (err e, s) = refl
    explored_state (ok rows, s) = refl

    built_data :
        (b : Result ExploreError ExploreQuery) (s : State)
        → data_of (execute_built postgres_repository lower service b s).1 ≡ data_of s
    unfolding execute_built
    built_data (err e) s = refl
    built_data (ok q) s =
        ap data_of (explored_state (execute_explore_query S D lower has_management q s))
        ∙ (queries_change_nothing S D lower has_management "" 0 q s).1

    module _ (G : SqlGlot) (policy : AnalyticsSqlPolicy)
        (analytics_sql_hash : String → String) where
      executed_state :
          (hash : String) (log : List AuditRecord)
          (x : Result RepositoryError AnalyticsRows × State)
          → (executed postgres_repository lower service G policy analytics_sql_hash hash log
              x).1.repository
            ≡ x.1
      executed_state hash log (err e, s) = refl
      executed_state hash log (ok rows, s) = refl

      validated_data :
          (hash : String) (v : Result PolicyError ValidatedSqlQuery)
          (w : World postgres_repository lower)
          → data_of
              (execute_validated postgres_repository lower service G policy analytics_sql_hash hash
                v w).1.repository
            ≡ data_of w.repository
      unfolding execute_validated
      validated_data hash (err PolicyError.token_error) w = refl
      validated_data hash (err (PolicyError.rejected reason)) w = refl
      validated_data hash (ok v) w =
          ap data_of (
            executed_state hash _
              (execute_select S D lower has_management v.sql v.row_limit w.repository))
          ∙ (queries_change_nothing S D lower has_management v.sql v.row_limit no_query
              w.repository).0

      -- Whatever text is sent to `SqlQueryService.execute` over the PostgreSQL repository, and whatever
      -- request to `ExploreQueryService.execute`, the data are afterwards as they were.
      pub services_change_nothing :
          (sql name : String) (limit : ℕ) (w : World postgres_repository lower)
          (refs : List ExploreColumnRef) (joins : List ExploreJoin)
          (order : Option ExploreColumnRef) (direction : ExploreSortDirection) (s : State)
          → (data_of
                (execute_sql postgres_repository lower service G policy analytics_sql_hash sql limit
                  w).1.repository
              ≡ data_of w.repository)
            × (data_of
                  (execute_explore postgres_repository lower service name refs joins order direction
                    limit s).1
                ≡ data_of s)
      unfolding execute_sql execute_explore allowed_relations available_datasets
      services_change_nothing sql name limit w refs joins order direction s = (
        validated_data _ _ _ ∙ catalog_data service w.repository,
        built_data _ _ ∙ catalog_data service s,
      )
