-- ===== src/Queries/Guard.antt =====
-- What reaches the repository through the query services, and what the audit log then holds.
use live_data_architecture.Base.{
  ℕ, ◌≤◌, String, ◌≡◌, ◌⊎◌, inl, inr, refl, ap, Option, List, [], ◌∷◌, ◌++◌, arith,
}
use live_data_architecture.Base.Results.{err, Result-cases}
use live_data_architecture.Explore.{
  ExploreColumnRef, ExploreJoin, ExploreSortDirection, ExploreError, build_explore_query,
}
use live_data_architecture.Explore.Validity.{IsValidRequest, query_of, build_explore_query_sound}
use live_data_architecture.SqlPolicy.{
  AnalyticsSqlPolicy, PolicyError, RejectionReason, effective_relations, validate,
}
use live_data_architecture.SqlPolicy.Parser.{SqlGlot, ParseFailure}
use live_data_architecture.SqlPolicy.Acceptance.{IsSafeQuery, validate_sound, validate-token_error}
use live_data_architecture.Queries.{
  QueryRepository, AuditRecord, QueryError, CatalogService, World, sorted, comma_joined,
  allowed_relations, available_datasets, executed, execute_validated, execute_sql, explored,
  execute_built, execute_explore,
}

module _ (R : QueryRepository) (lower : String → String) (service : CatalogService) where
  module _ (G : SqlGlot) (policy : AnalyticsSqlPolicy) (analytics_sql_hash : String → String) where
    -- A text is either rejected, with one record of the rejection, and is not run; or the parser
    -- fails on it with its token error, which is raised as it is, without a record and without
    -- running the text; or what is run, in one call after one record of the acceptance, is the
    -- parser's text of a bounded SELECT, with a row limit that is at most the requested and at most
    -- the policy's. Each of its tables either has, whatever its schema, the name of a CTE of the
    -- statement, or is unqualified and one of the relations in force. The records hold the hash of
    -- the text.
    pub execute_sql_guarded :
        (sql : String) (limit : ℕ) (w : World R lower)
        → let (allowed, s) = allowed_relations R lower service w.repository in
          let hash = analytics_sql_hash sql in
          let answer = execute_sql R lower service G policy analytics_sql_hash sql limit w in
          ((reason : RejectionReason) × (answer ≡ (
            err (QueryError.sql_policy reason),
            record { repository = s; log = w.log ++ AuditRecord.rejected hash reason ∷ [] },
          )))
          ⊎ (((G.parse sql ≡ err ParseFailure.token_error)
                × (answer ≡ (err QueryError.token_error, record w { repository = s })))
              ⊎ ((q : G.Node) × (names : String) × (k : ℕ) × IsSafeQuery G
                    (effective_relations allowed policy)
                    sql
                    q
                  × (k ≤ limit)
                  × (k ≤ policy.max_row_limit)
                  × (answer
                      ≡ executed R lower service G policy analytics_sql_hash hash
                          (w.log ++ AuditRecord.accepted hash names k ∷ [])
                          (R.execute_select (G.text_of q) k s))))
    unfolding execute_sql execute_validated
    execute_sql_guarded sql limit w =
        let (allowed, s) = allowed_relations R lower service w.repository in
        elim (Result-cases (validate G policy sql limit allowed)) [
          | inl (PolicyError.rejected reason, h) ↦ inl (reason, rw h refl)
          | inl (PolicyError.token_error, h) ↦
              inr (inl (validate-token_error G policy sql limit allowed h, rw h refl))
          | inr (v, h) ↦
              let (q, safe, of) = validate_sound G policy sql limit allowed v h in
              inr (
                inr (
                  q,
                  comma_joined (sorted v.referenced_relations),
                  v.row_limit,
                  safe,
                  rw of.row_limit (omega arith),
                  rw of.row_limit (omega arith),
                  rw h (
                      ap
                        (λ text.
                          executed R lower service G policy analytics_sql_hash
                            (analytics_sql_hash sql)
                            (w.log
                              ++ AuditRecord.accepted (analytics_sql_hash sql)
                                  (comma_joined (sorted v.referenced_relations)) v.row_limit
                                ∷ [])
                            (R.execute_select text v.row_limit s))
                        of.sql),
                ))
        ]

  -- An Explore request is either refused without a query, or it is valid for the datasets that are
  -- available, and what is run is its query.
  pub execute_explore_guarded :
      (name : String) (refs : List ExploreColumnRef) (joins : List ExploreJoin)
      (order : Option ExploreColumnRef) (direction : ExploreSortDirection) (limit : ℕ) (s : R.State)
      → let (available, s') = available_datasets R lower service s in
        let answer = execute_explore R lower service name refs joins order direction limit s in
        ((e : ExploreError) × (answer ≡ (err (QueryError.explore_validation e), s')))
        ⊎ (IsValidRequest available name refs joins order
            × (answer
                ≡ explored R lower service (
                    R.execute_explore_query
                      (query_of available name refs joins order direction limit name)
                      s')))
  unfolding execute_explore execute_built
  execute_explore_guarded name refs joins order direction limit s =
      let (available, s') = available_datasets R lower service s in
      elim (Result-cases (build_explore_query name available refs joins order direction limit)) [
        | inl (e, h) ↦ inl (e, rw h refl)
        | inr (q, h) ↦
            let (valid, same) =
              build_explore_query_sound available name refs joins order direction limit q h in
            inr
              (valid, rw h (ap (λ x. explored R lower service (R.execute_explore_query x s')) same))
      ]
