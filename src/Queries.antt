-- ===== src/Queries.antt =====
-- The services that run queries: backend/app/event_analytics/application/sql_query_service.py, and
-- `execute` of application/explore_query_service.py. The log is part of the state; SHA-256 and the
-- repository are parameters.
pub mod Guard
pub mod Postgres
mod Examples
use Prim.Native.String
use Prim.Native.String.{compare}
use Prim.Native.Nat.{Ordering}
use live_data_architecture.Base.{
  ℕ, String, Bool, true, false, Option, none, some, List, [], ◌∷◌, ◌++◌, length,
}
use live_data_architecture.Base.Results.{Result, ok, err}
use live_data_architecture.Catalog.{
  AnalyticsDataset, DatabaseError, list_datasets, service_dataset_names, datasets,
}
use live_data_architecture.Charts.{AnalyticsRows, AnalyticsQueryResult, query_result}
use live_data_architecture.Explore.{
  ExploreQuery, ExploreColumnRef, ExploreJoin, ExploreSortDirection, ExploreError,
  build_explore_query,
}
use live_data_architecture.Base.Action.{Action}
use live_data_architecture.Repository.Methods.{RepositoryError}
use live_data_architecture.SqlPolicy.{
  AnalyticsSqlPolicy, PolicyError, RejectionReason, ValidatedSqlQuery, validate,
}
use live_data_architecture.SqlPolicy.Parser.{SqlGlot}

-- `AnalyticsQueryRepository`, with the method of `AnalyticsDatasetRepository` that the catalog
-- service calls.
pub record QueryRepository : Type 1 where
  pub State : Type 0
  pub list_view_table_datasets : Action State DatabaseError (List AnalyticsDataset)
  pub execute_select : String → ℕ → Action State RepositoryError AnalyticsRows
  pub execute_explore_query : ExploreQuery → Action State RepositoryError AnalyticsRows

-- The records of the audit log, without their wording.
pub data AuditRecord : Type 0 where
  rejected : String → RejectionReason → AuditRecord
  accepted : String → String → ℕ → AuditRecord
  completed : String → ℕ → AuditRecord

-- What a query raises: the policy's reason, the parser's error that the policy does not catch, the
-- request's reason, that the database is unavailable, or what the repository raises besides its own
-- error.
pub data QueryError : Type 0 where
  sql_policy : RejectionReason → QueryError
  token_error : QueryError
  explore_validation : ExploreError → QueryError
  execution_unavailable : QueryError
  unexpected : RepositoryError → QueryError

-- No catalog service, one without a repository, one with.
pub data CatalogService : Type 0 where
  no_service built_in_service dynamic_service : CatalogService

-- `sorted`, by code points
abbrev pub insert_sorted : String → List String → List String
insert_sorted x [] = x ∷ []
insert_sorted x (y ∷ ys) = elim (compare x y) [
  | Ordering.gt ↦ y ∷ insert_sorted x ys
  | _ ↦ x ∷ y ∷ ys
]

abbrev pub sorted : List String → List String
sorted [] = []
sorted (x ∷ xs) = insert_sorted x (sorted xs)

-- `",".join`
abbrev pub comma_joined : List String → String
comma_joined [] = ""
comma_joined (x ∷ []) = x
comma_joined (x ∷ y ∷ ys) = String.◌++◌ x (String.◌++◌ "," (comma_joined (y ∷ ys)))

unfoldable pub or_unavailable : RepositoryError → QueryError
or_unavailable RepositoryError.execution_error = QueryError.execution_unavailable
or_unavailable RepositoryError.key_error = QueryError.unexpected RepositoryError.key_error
or_unavailable RepositoryError.index_error = QueryError.unexpected RepositoryError.index_error

module _ (R : QueryRepository) (lower : String → String) where
  open R use {State, list_view_table_datasets, execute_select, execute_explore_query}

  pub record World : Type 0 where
    pub repository : State
    pub log : List AuditRecord

  -- What the catalog service's repository answers, if there is one.
  abbrev pub catalog_answer :
      CatalogService → State → Option (Result DatabaseError (List AnalyticsDataset)) × State
  catalog_answer CatalogService.dynamic_service s =
      let (answer, s') = list_view_table_datasets s in (some answer, s')
  catalog_answer _ s = (none, s)

  module _ (service : CatalogService) where
    -- `_allowed_relations`
    unfoldable pub allowed_relations : State → Option (List String) × State
    allowed_relations s =
        let (answer, s') = catalog_answer service s in
        (
          elim service [
            | CatalogService.no_service ↦ none
            | _ ↦ some (service_dataset_names answer)
          ],
          s',
        )

    -- `_list_datasets`
    unfoldable pub available_datasets : State → List AnalyticsDataset × State
    available_datasets s =
        let (answer, s') = catalog_answer service s in
        (elim service [ CatalogService.no_service ↦ datasets | _ ↦ list_datasets answer ], s')

    module _ (G : SqlGlot) (policy : AnalyticsSqlPolicy)
        (analytics_sql_hash : String → String) where
      -- What is left once the statement ran.
      abbrev pub executed :
          String
          → List AuditRecord
          → Result RepositoryError AnalyticsRows × State
          → Result QueryError AnalyticsQueryResult × World
      executed hash log (err e, s) = (err (or_unavailable e), record { repository = s; log = log })
      executed hash log (ok rows, s) = (
        ok (query_result lower rows),
        record { repository = s; log = log ++ AuditRecord.completed hash (length rows.rows) ∷ [] },
      )

      -- What is left once the policy answered.
      unfoldable pub execute_validated :
          String
          → Result PolicyError ValidatedSqlQuery
          → Action World QueryError AnalyticsQueryResult
      execute_validated hash (err PolicyError.token_error) w = (err QueryError.token_error, w)
      execute_validated hash (err (PolicyError.rejected reason)) w = (
        err (QueryError.sql_policy reason),
        record w { log = w.log ++ AuditRecord.rejected hash reason ∷ [] },
      )
      execute_validated hash (ok validated) w =
          executed hash
            (w.log
              ++ AuditRecord.accepted hash (comma_joined (sorted validated.referenced_relations))
                  validated.row_limit
                ∷ [])
            (execute_select validated.sql validated.row_limit w.repository)

      -- `SqlQueryService.execute`
      unfoldable pub execute_sql : String → ℕ → Action World QueryError AnalyticsQueryResult
      unfolding execute_validated allowed_relations
      execute_sql sql row_limit w =
          let (allowed, s) = allowed_relations w.repository in
          execute_validated (analytics_sql_hash sql) (validate G policy sql row_limit allowed)
            (record w { repository = s })

    abbrev pub explored :
        Result RepositoryError AnalyticsRows × State
        → Result QueryError AnalyticsQueryResult × State
    explored (err e, s) = (err (or_unavailable e), s)
    explored (ok rows, s) = (ok (query_result lower rows), s)

    unfoldable pub execute_built :
        Result ExploreError ExploreQuery → Action State QueryError AnalyticsQueryResult
    execute_built (err e) s = (err (QueryError.explore_validation e), s)
    execute_built (ok query) s = explored (execute_explore_query query s)

    -- `ExploreQueryService.execute`
    unfoldable pub execute_explore :
        String
        → List ExploreColumnRef
        → List ExploreJoin
        → Option ExploreColumnRef
        → ExploreSortDirection
        → ℕ
        → Action State QueryError AnalyticsQueryResult
    unfolding execute_built available_datasets
    execute_explore name refs joins order direction limit s =
        let (available, s') = available_datasets s in
        execute_built (build_explore_query name available refs joins order direction limit) s'
