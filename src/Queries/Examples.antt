-- ===== src/Queries/Examples.antt =====
-- The services over the store of Repository.Store and the small parser of SqlPolicy.
use live_data_architecture.Base.{ℕ, ◌≤◌, String, ◌≡◌, ◌⊎◌, true, none, [], ◌∷◌}
use live_data_architecture.Base.Results.{err}
use live_data_architecture.Explore.{ExploreColumnRef, ExploreSortDirection, ExploreError}
use live_data_architecture.Explore.Validity.{IsValidRequest, query_of}
use live_data_architecture.Repository.Store.{Store, plain_scalars, store_database}
use live_data_architecture.SqlPolicy.{AnalyticsSqlPolicy, RejectionReason, effective_relations}
use live_data_architecture.SqlPolicy.Parser.{ParseFailure}
use live_data_architecture.SqlPolicy.Trees.{Tree, counts_sql, shadowed_sql, trees}
use live_data_architecture.SqlPolicy.Acceptance.{IsSafeQuery}
use live_data_architecture.Queries.{
  QueryRepository, AuditRecord, QueryError, CatalogService, World, allowed_relations,
  available_datasets, executed, execute_sql, explored, execute_explore,
}
use live_data_architecture.Queries.Guard.{execute_sql_guarded, execute_explore_guarded}
use live_data_architecture.Queries.Postgres.{postgres_repository, services_change_nothing}

abbrev same_text : String → String
same_text s = s

abbrev repository : QueryRepository
repository = postgres_repository plain_scalars store_database same_text true

abbrev policy : AnalyticsSqlPolicy
policy = record { allowed_relations = "event_type_counts" ∷ []; max_row_limit = 500 }

abbrev store : Store
store = record { entries = ("mine", ("my own", "SELECT 1")) ∷ []; is_read_only = true }

abbrev world : World repository same_text
world = record { repository = store; log = [] }

abbrev event_type : ExploreColumnRef
event_type = record { dataset_name = "event_type_counts"; column_name = "event_type" }

execute_sql_guarded_example :
    let (allowed, s) = allowed_relations repository same_text CatalogService.no_service store in
    let answer =
      execute_sql repository same_text CatalogService.no_service trees policy same_text counts_sql
        900 world in
    ((reason : RejectionReason) × (answer ≡ (
      err (QueryError.sql_policy reason),
      record { repository = s; log = AuditRecord.rejected counts_sql reason ∷ [] },
    )))
    ⊎ (((trees.parse counts_sql ≡ err ParseFailure.token_error)
          × (answer ≡ (err QueryError.token_error, record world { repository = s })))
        ⊎ ((q : Tree) × (names : String) × (k : ℕ) × IsSafeQuery trees
              (effective_relations allowed policy)
              counts_sql
              q
            × (k ≤ 900)
            × (k ≤ 500)
            × (answer
                ≡ executed repository same_text CatalogService.no_service trees policy same_text
                    counts_sql
                    (AuditRecord.accepted counts_sql names k ∷ [])
                    (repository.execute_select (trees.text_of q) k s))))
execute_sql_guarded_example =
    execute_sql_guarded repository same_text CatalogService.no_service trees policy same_text
      counts_sql 900 world

execute_explore_guarded_example :
    let (available, s) =
      available_datasets repository same_text CatalogService.dynamic_service store in
    let answer =
      execute_explore repository same_text CatalogService.dynamic_service "event_type_counts"
        (event_type ∷ [])
        []
        none
        ExploreSortDirection.asc
        10
        store in
    ((e : ExploreError) × (answer ≡ (err (QueryError.explore_validation e), s)))
    ⊎ (IsValidRequest available "event_type_counts" (event_type ∷ []) [] none
        × (answer
            ≡ explored repository same_text CatalogService.dynamic_service (
                repository.execute_explore_query
                  (query_of available "event_type_counts"
                    (event_type ∷ [])
                    []
                    none
                    ExploreSortDirection.asc
                    10
                    "event_type_counts")
                  s)))
execute_explore_guarded_example =
    execute_explore_guarded repository same_text CatalogService.dynamic_service "event_type_counts"
      (event_type ∷ []) [] none ExploreSortDirection.asc 10 store

services_change_nothing_example :
    ((execute_sql repository same_text CatalogService.dynamic_service trees policy same_text
        shadowed_sql 10 world).1.repository.entries
      ≡ store.entries)
    × ((execute_explore repository same_text CatalogService.dynamic_service "event_type_counts"
          (event_type ∷ [])
          []
          none
          ExploreSortDirection.asc
          10
          store).1.entries
        ≡ store.entries)
services_change_nothing_example =
    services_change_nothing plain_scalars store_database same_text true
      CatalogService.dynamic_service trees policy same_text shadowed_sql "event_type_counts" 10
      world (event_type ∷ []) [] none ExploreSortDirection.asc store
