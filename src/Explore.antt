-- ===== src/Explore.antt =====
-- backend/app/event_analytics/application/explore_query_service.py: structured queries over the
-- catalog, with the records of backend/app/event_analytics/domain/explore_query.py. An error is
-- its reason.
mod Examples
pub mod Parts
pub mod Validity
pub mod Select
use live_data_architecture.Base.{
  ℕ, String, Bool, true, false, not, ◌&&◌, ◌||◌, Option, none, some, List, [], ◌∷◌, map, min, ltb,
  eqb, ◌==◌, if◌then◌else◌, length, contains,
}
use live_data_architecture.Base.Results.{Result, ok, err, raise_if, ◌>>=◌, ◌>>◌}
use live_data_architecture.Catalog.{AnalyticsDataset}

abbrev pub max_explore_query_row_limit : ℕ
max_explore_query_row_limit = 500

abbrev pub max_explore_join_count : ℕ
max_explore_join_count = 1

pub data ExploreSortDirection : Type 0 where
  asc desc : ExploreSortDirection

pub data ExploreJoinType : Type 0 where
  inner left : ExploreJoinType

pub record ExploreColumnRef : Type 0 where
  pub dataset_name : String
  pub column_name : String

pub record ExploreJoin : Type 0 where
  pub dataset_name : String
  pub left_column : String
  pub right_column : String
  pub join_type : ExploreJoinType

pub record ExploreQuery : Type 0 where
  pub dataset_name : String
  pub column_refs : List ExploreColumnRef
  pub joins : List ExploreJoin
  pub order_by : Option ExploreColumnRef
  pub order_direction : ExploreSortDirection
  pub row_limit : ℕ

-- The reasons, and the `KeyError` of `dataset_by_name[...]`.
pub data ExploreError : Type 0 where
  unknown_dataset too_many_joins unknown_join_dataset self_join_not_supported : ExploreError
  duplicate_join_dataset unknown_join_left_column unknown_join_right_column : ExploreError
  missing_columns duplicate_columns unknown_column_dataset unknown_column : ExploreError
  unknown_order_column key_error : ExploreError

-- `{dataset.name: dataset for dataset in datasets}.get(name)`: a later dataset replaces an earlier one.
unfoldable pub dataset_by_name : List AnalyticsDataset → String → Option AnalyticsDataset
dataset_by_name [] name = none
dataset_by_name (d ∷ ds) name = elim (dataset_by_name ds name) [
  | some later ↦ some later
  | none ↦ if d.name == name then some d else none
]

-- `_dataset_column_names`
abbrev pub dataset_column_names : AnalyticsDataset → List String
dataset_column_names d = map (λ c. c.name) d.columns

abbrev pub or_raise {ℓ} : {A : Type ℓ} → Option A → ExploreError → Result ExploreError A
or_raise none e = err e
or_raise (some a) e = ok a

-- The loop of `_ensure_join_shape_is_allowed`; `seen` are the datasets joined before.
unfoldable pub check_joins :
    List AnalyticsDataset
    → AnalyticsDataset
    → List String
    → List ExploreJoin
    → Result ExploreError (Unit {0})
check_joins datasets base seen [] = ok tt
check_joins datasets base seen (join ∷ joins) = do
  join_dataset ←
      or_raise (dataset_by_name datasets join.dataset_name) ExploreError.unknown_join_dataset
  raise_if (join.dataset_name == base.name) ExploreError.self_join_not_supported
  raise_if (contains seen join.dataset_name) ExploreError.duplicate_join_dataset
  raise_if (not (contains (dataset_column_names base) join.left_column))
      ExploreError.unknown_join_left_column
  raise_if (not (contains (dataset_column_names join_dataset) join.right_column))
      ExploreError.unknown_join_right_column
  check_joins datasets base (join.dataset_name ∷ seen) joins

-- `_ensure_join_shape_is_allowed`
unfoldable pub ensure_join_shape_is_allowed :
    List ExploreJoin → AnalyticsDataset → List AnalyticsDataset → Result ExploreError (Unit {0})
unfolding check_joins
ensure_join_shape_is_allowed joins base datasets = do
  raise_if (ltb max_explore_join_count (length joins)) ExploreError.too_many_joins
  check_joins datasets base [] joins

abbrev pub same_ref : ExploreColumnRef → ExploreColumnRef → Bool
same_ref a b = a.dataset_name == b.dataset_name && a.column_name == b.column_name

abbrev pub contains_ref : List ExploreColumnRef → ExploreColumnRef → Bool
contains_ref [] r = false
contains_ref (x ∷ xs) r = same_ref x r || contains_ref xs r

-- The set of the selected keys.
unfoldable pub distinct_refs : List ExploreColumnRef → List ExploreColumnRef
distinct_refs [] = []
distinct_refs (r ∷ rs) =
    let rest = distinct_refs rs in if contains_ref rest r then rest else r ∷ rest

-- `_ensure_column_ref_is_selectable`
unfoldable pub ensure_column_ref_is_selectable :
    ExploreColumnRef → List String → List AnalyticsDataset → Result ExploreError (Unit {0})
ensure_column_ref_is_selectable ref selectable datasets = do
  raise_if (not (contains selectable ref.dataset_name)) ExploreError.unknown_column_dataset
  dataset ← or_raise (dataset_by_name datasets ref.dataset_name) ExploreError.key_error
  raise_if (not (contains (dataset_column_names dataset) ref.column_name))
      ExploreError.unknown_column

unfoldable pub check_refs :
    List ExploreColumnRef → List String → List AnalyticsDataset → Result ExploreError (Unit {0})
check_refs [] selectable datasets = ok tt
check_refs (r ∷ rs) selectable datasets = do
  ensure_column_ref_is_selectable r selectable datasets
  check_refs rs selectable datasets

abbrev is_none_selected : List ExploreColumnRef → Bool
is_none_selected [] = true
is_none_selected (r ∷ rs) = false

-- `_ensure_selected_columns_are_allowed`
unfoldable pub ensure_selected_columns_are_allowed :
    List ExploreColumnRef → List String → List AnalyticsDataset → Result ExploreError (Unit {0})
ensure_selected_columns_are_allowed selected selectable datasets = do
  raise_if (is_none_selected selected) ExploreError.missing_columns
  raise_if (not (eqb (length selected) (length (distinct_refs selected))))
      ExploreError.duplicate_columns
  check_refs selected selectable datasets

-- The `except` clause catches the validation errors, and not a `KeyError`.
unfoldable pub as_order_error : Result ExploreError (Unit {0}) → Result ExploreError (Unit {0})
as_order_error (ok u) = ok u
as_order_error (err ExploreError.key_error) = err ExploreError.key_error
as_order_error (err _) = err ExploreError.unknown_order_column

-- `_ensure_order_column_is_allowed`
unfoldable pub ensure_order_column_is_allowed :
    Option ExploreColumnRef → List String → List AnalyticsDataset → Result ExploreError (Unit {0})
unfolding as_order_error
ensure_order_column_is_allowed none selectable datasets = ok tt
ensure_order_column_is_allowed (some ref) selectable datasets =
    as_order_error (ensure_column_ref_is_selectable ref selectable datasets)

abbrev pub join_names : List ExploreJoin → List String
join_names = map (λ j. j.dataset_name)

unfoldable pub build_explore_query :
    String
    → List AnalyticsDataset
    → List ExploreColumnRef
    → List ExploreJoin
    → Option ExploreColumnRef
    → ExploreSortDirection
    → ℕ
    → Result ExploreError ExploreQuery
build_explore_query dataset_name datasets column_refs joins order_by order_direction row_limit = do
  dataset ← or_raise (dataset_by_name datasets dataset_name) ExploreError.unknown_dataset
  ensure_join_shape_is_allowed joins dataset datasets
  let selectable = dataset.name ∷ join_names joins
  ensure_selected_columns_are_allowed column_refs selectable datasets
  ensure_order_column_is_allowed order_by selectable datasets
  ok (record {
    dataset_name = dataset.name;
    column_refs = column_refs;
    joins = joins;
    order_by = order_by;
    order_direction = order_direction;
    row_limit = min row_limit max_explore_query_row_limit;
  })
