-- ===== src/ViewTable/Service.antt =====
-- The methods of `ViewTableService`, over a repository with a state of its own.
pub mod Guard
use live_data_architecture.Base.{ℕ, String, List, [], ◌∷◌, ◌++◌, some, min}
use live_data_architecture.Base.Results.{Result, ok, err, ◌>>=◌, ◌>>◌}
use live_data_architecture.Catalog.{
  AnalyticsDataset, AnalyticsViewTable, DatabaseError, dataset_from_view_table,
  service_dataset_names,
}
use live_data_architecture.Charts.{AnalyticsRows, AnalyticsQueryResult, query_result}
use live_data_architecture.SqlPolicy.{PolicyError, AnalyticsSqlPolicy, ValidatedSqlQuery, validate}
use live_data_architecture.SqlPolicy.Parser.{SqlGlot}
use live_data_architecture.ViewTable.{
  TextMethods, ViewTableError, max_view_table_row_limit, view_table_source_relation_names,
  normalized_view_table_name, normalized_view_table_description, ensure_name_is_not_reserved,
}

-- `AnalyticsDatasetRepository`: a database that answers or raises its execution error. Each call may
-- change its state.
pub record DatasetRepository : Type 1 where
  pub State : Type 0
  pub list_view_table_datasets : State → Result DatabaseError (List AnalyticsDataset) × State
  pub preview_view_table_sql : String → ℕ → State → Result DatabaseError AnalyticsRows × State
  pub create_or_replace_view_table :
      String → String → String → State → Result DatabaseError AnalyticsViewTable × State
  pub delete_view_table : String → State → Result DatabaseError (Unit {0}) × State

-- `raise ...ExecutionUnavailableError from exc`
unfoldable pub or_unavailable {ℓ} : {A : Type ℓ} → Result DatabaseError A → Result ViewTableError A
or_unavailable (ok a) = ok a
or_unavailable (err e) = err ViewTableError.execution_unavailable

-- `raise EventAnalyticsViewTableValidationError(exc.reason) from exc`; the parser's own error goes
-- through.
unfoldable pub or_violation :
    Result PolicyError ValidatedSqlQuery → Result ViewTableError ValidatedSqlQuery
or_violation (ok v) = ok v
or_violation (err (PolicyError.rejected reason)) = err (ViewTableError.sql_policy reason)
or_violation (err PolicyError.token_error) = err ViewTableError.token_error

module _ (G : SqlGlot) (T : TextMethods) (R : DatasetRepository) (policy : AnalyticsSqlPolicy) where
  open R use {
    State, list_view_table_datasets, preview_view_table_sql, create_or_replace_view_table,
    delete_view_table,
  }

  -- `_view_table_source_relations`
  unfoldable pub view_table_source_relations : State → List String × State
  view_table_source_relations s =
      let (answer, s') = list_view_table_datasets s in
      (service_dataset_names (some answer) ++ view_table_source_relation_names, s')

  -- `_validate_source_sql`
  unfoldable pub validate_source_sql :
      String → ℕ → State → Result ViewTableError ValidatedSqlQuery × State
  validate_source_sql source_sql requested_row_limit s =
      let (relations, s') = view_table_source_relations s in
      (
        or_violation (
            validate G policy source_sql (min requested_row_limit max_view_table_row_limit)
              (some relations)),
        s',
      )

  unfoldable pub previewed :
      Result DatabaseError AnalyticsRows → Result ViewTableError AnalyticsQueryResult
  previewed answer = do rows ← or_unavailable answer; ok (query_result T.lower rows)

  unfoldable pub preview_checked :
      Result ViewTableError ValidatedSqlQuery
      → State
      → Result ViewTableError AnalyticsQueryResult × State
  unfolding previewed
  preview_checked (err e) s = (err e, s)
  preview_checked (ok validated) s =
      let (answer, s') = preview_view_table_sql validated.sql validated.row_limit s in
      (previewed answer, s')

  unfoldable pub preview : String → ℕ → State → Result ViewTableError AnalyticsQueryResult × State
  unfolding preview_checked
  preview source_sql row_limit s =
      let (validated, s') = validate_source_sql source_sql row_limit s in
      preview_checked validated s'

  -- The checks of `create` before it calls the repository.
  unfoldable pub create_names : String → String → Result ViewTableError (String × String)
  create_names name description = do
    normalized_name ← normalized_view_table_name T name
    normalized_description ← normalized_view_table_description T description
    ensure_name_is_not_reserved normalized_name
    ok (normalized_name, normalized_description)

  abbrev pub with_source :
      String × String
      → Result ViewTableError ValidatedSqlQuery
      → Result ViewTableError (String × String × String)
  with_source names (err e) = err e
  with_source (name, description) (ok validated) = ok (name, description, validated.sql)

  abbrev pub with_names :
      Result ViewTableError (String × String)
      → String
      → State
      → Result ViewTableError (String × String × String) × State
  with_names (err e) source_sql s = (err e, s)
  with_names (ok names) source_sql s =
      let (validated, s') = validate_source_sql source_sql 1 s in (with_source names validated, s')

  -- The arguments of the call that saves.
  unfoldable pub create_arguments :
      String → String → String → State → Result ViewTableError (String × String × String) × State
  create_arguments name description source_sql s =
      with_names (create_names name description) source_sql s

  unfoldable pub saved :
      Result DatabaseError AnalyticsViewTable → Result ViewTableError AnalyticsDataset
  saved answer = do table ← or_unavailable answer; ok (dataset_from_view_table table)

  unfoldable pub create_checked :
      Result ViewTableError (String × String × String)
      → State
      → Result ViewTableError AnalyticsDataset × State
  create_checked (err e) s = (err e, s)
  create_checked (ok (name, description, sql)) s =
      let (answer, s') = create_or_replace_view_table name description sql s in (saved answer, s')

  unfoldable pub create :
      String → String → String → State → Result ViewTableError AnalyticsDataset × State
  unfolding create_checked
  create name description source_sql s =
      let (arguments, s') = create_arguments name description source_sql s in
      create_checked arguments s'

  -- The checks of `delete`.
  unfoldable pub delete_argument : String → Result ViewTableError String
  delete_argument name = do
    normalized_name ← normalized_view_table_name T name
    ensure_name_is_not_reserved normalized_name
    ok normalized_name

  unfoldable pub delete_checked :
      Result ViewTableError String → State → Result ViewTableError (Unit {0}) × State
  delete_checked (err e) s = (err e, s)
  delete_checked (ok name) s =
      let (answer, s') = delete_view_table name s in (or_unavailable answer, s')

  unfoldable pub delete : String → State → Result ViewTableError (Unit {0}) × State
  unfolding delete_checked
  delete name s = delete_checked (delete_argument name) s
