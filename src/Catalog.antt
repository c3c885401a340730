-- ===== src/Catalog.antt =====
-- The datasets that may be queried: backend/app/event_analytics/domain/analytics_catalog.py,
-- backend/app/event_analytics/application/analytics_catalog.py and analytics_catalog_service.py.
-- The preset queries are left out.
use live_data_architecture.Base.{String, Option, none, some, List, [], ◌∷◌, ◌++◌, map}
use live_data_architecture.Base.Results.{Result, ok, err}

pub data ColumnKind : Type 0 where
  dimension metric temporal : ColumnKind

pub data DatasetOrigin : Type 0 where
  builtin view_table : DatasetOrigin

pub record AnalyticsDatasetColumn : Type 0 where
  pub name : String
  pub label : String
  pub kind : ColumnKind

pub record AnalyticsDataset : Type 0 where
  pub name : String
  pub label : String
  pub description : String
  pub columns : List AnalyticsDatasetColumn
  pub origin : DatasetOrigin

pub record AnalyticsViewTable : Type 0 where
  pub name : String
  pub description : String
  pub source_sql : String
  pub columns : List AnalyticsDatasetColumn

abbrev column : String → String → ColumnKind → AnalyticsDatasetColumn
column name label kind = record { name = name; label = label; kind = kind }

abbrev built_in : String → String → String → List AnalyticsDatasetColumn → AnalyticsDataset
built_in name label description columns = record {
  name = name;
  label = label;
  description = description;
  columns = columns;
  origin = DatasetOrigin.builtin;
}

-- `DATASETS`, which `get_datasets` returns
unfoldable pub datasets : List AnalyticsDataset
datasets =
    built_in "event_type_counts" "Event type counts" "이벤트 타입별 발생 횟수를 집계한 generated view입니다." (
      column "event_type" "Event type" ColumnKind.dimension
      ∷ column "event_count" "Event count" ColumnKind.metric
      ∷ [])
    ∷ built_in "user_event_counts" "User event counts" "유저별 총 이벤트 수를 집계한 generated view입니다." (
        column "user_id" "User" ColumnKind.dimension
        ∷ column "event_count" "Event count" ColumnKind.metric
        ∷ [])
    ∷ built_in "hourly_event_counts" "Hourly event counts"
        "시간대와 이벤트 타입별 이벤트 추이를 집계한 generated view입니다."
        (column "event_hour" "Event hour" ColumnKind.temporal
          ∷ column "event_type" "Event type" ColumnKind.dimension
          ∷ column "event_count" "Event count" ColumnKind.metric
          ∷ [])
    ∷ built_in "error_event_ratio" "Error event ratio" "checkout_error 비율을 계산한 generated view입니다." (
        column "error_events" "Error events" ColumnKind.metric
        ∷ column "total_events" "Total events" ColumnKind.metric
        ∷ column "error_ratio" "Error ratio" ColumnKind.metric
        ∷ [])
    ∷ built_in "commerce_funnel_counts" "Commerce funnel counts"
        "조회부터 결제 오류까지 커머스 funnel 단계를 집계한 generated view입니다."
        (column "sort_order" "Sort order" ColumnKind.metric
          ∷ column "funnel_step" "Funnel step" ColumnKind.dimension
          ∷ column "event_type" "Event type" ColumnKind.dimension
          ∷ column "event_count" "Event count" ColumnKind.metric
          ∷ [])
    ∷ built_in "product_event_counts" "Product event counts"
        "상품별 클릭/장바구니/구매 이벤트를 집계한 generated view입니다."
        (column "product_id" "Product" ColumnKind.dimension
          ∷ column "event_type" "Event type" ColumnKind.dimension
          ∷ column "event_count" "Event count" ColumnKind.metric
          ∷ [])
    ∷ []

abbrev pub dataset_names : List AnalyticsDataset → List String
dataset_names = map (λ d. d.name)

-- `ALLOWED_DATASET_NAMES`
unfoldable pub allowed_dataset_names : List String
unfolding datasets
allowed_dataset_names = dataset_names datasets

unfoldable pub dataset_from_view_table : AnalyticsViewTable → AnalyticsDataset
dataset_from_view_table t = record {
  name = t.name;
  label = t.name;
  description = t.description;
  columns = t.columns;
  origin = DatasetOrigin.view_table;
}

-- `EventAnalyticsDatabaseExecutionError`
pub data DatabaseError : Type 0 where
  execution_error : DatabaseError

-- `AnalyticsCatalogService.list_datasets`, over what the repository answered, if there is one. A
-- database error leaves the built-in datasets.
unfoldable pub list_datasets :
    Option (Result DatabaseError (List AnalyticsDataset)) → List AnalyticsDataset
list_datasets none = datasets
list_datasets (some (ok dynamic)) = datasets ++ dynamic
list_datasets (some (err e)) = datasets

-- `AnalyticsCatalogService.list_view_tables`
unfoldable pub list_view_tables :
    Option (Result DatabaseError (List AnalyticsViewTable)) → List AnalyticsViewTable
list_view_tables none = []
list_view_tables (some (ok tables)) = tables
list_view_tables (some (err e)) = []

-- `AnalyticsCatalogService.allowed_dataset_names`
unfoldable pub service_dataset_names :
    Option (Result DatabaseError (List AnalyticsDataset)) → List String
unfolding list_datasets
service_dataset_names answer = dataset_names (list_datasets answer)
