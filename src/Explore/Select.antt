-- ===== src/Explore/Select.antt =====
-- `build_explore_select_statement` of
-- backend/app/event_analytics/infrastructure/repositories/postgres_analytics_query_repository.py.
-- A statement is what the code hands to SQLAlchemy: the projected columns with their labels, the
-- joins, the ordering and the limit. `none` is the `KeyError` of a dataset or a column that the
-- tables lack.
pub mod Scope
pub mod Tables
pub mod Total
use live_data_architecture.Base.Options.{◌>>=◌}
use live_data_architecture.Base.{
  ℕ, String, Bool, true, false, Option, none, some, List, [], ◌∷◌, ◌++◌, ◌==◌, if◌then◌else◌,
  contains,
}
use live_data_architecture.Explore.{
  ExploreSortDirection, ExploreJoinType, ExploreColumnRef, ExploreJoin, ExploreQuery,
}

-- `dict[str, list[str]]`, in insertion order
abbrev pub ColumnMap : Type 0
ColumnMap = List (String × List String)

unfoldable pub columns_of : ColumnMap → String → Option (List String)
columns_of [] d = none
columns_of ((k, cs) ∷ m) d = if k == d then some cs else columns_of m d

abbrev pub append_once : List String → String → List String
append_once cs c = if contains cs c then cs else cs ++ c ∷ []

-- `append_unique_column`: `setdefault`, then the append if the column is new
unfoldable pub append_unique_column : ColumnMap → ExploreColumnRef → ColumnMap
append_unique_column [] r = (r.dataset_name, r.column_name ∷ []) ∷ []
append_unique_column ((k, cs) ∷ m) r =
    let rest = append_unique_column m r in
    if k == r.dataset_name then (k, append_once cs r.column_name) ∷ m else (k, cs) ∷ rest

unfoldable pub append_refs : ColumnMap → List ExploreColumnRef → ColumnMap
append_refs m [] = m
append_refs m (r ∷ rs) = append_refs (append_unique_column m r) rs

abbrev pub order_refs : Option ExploreColumnRef → List ExploreColumnRef
order_refs none = []
order_refs (some r) = r ∷ []

-- The two columns of each join, the base's first.
abbrev pub join_refs : String → List ExploreJoin → List ExploreColumnRef
join_refs base [] = []
join_refs base (j ∷ joins) =
    record { dataset_name = base; column_name = j.left_column }
    ∷ record { dataset_name = j.dataset_name; column_name = j.right_column }
    ∷ join_refs base joins

-- `_required_columns_by_dataset`
unfoldable pub required_columns_by_dataset : ExploreQuery → ColumnMap
unfolding append_refs
required_columns_by_dataset q =
    append_refs
      (append_refs (append_refs ((q.dataset_name, []) ∷ []) q.column_refs) (order_refs q.order_by))
      (join_refs q.dataset_name q.joins)

pub record Projection : Type 0 where
  pub column : ExploreColumnRef
  pub label : Option String

pub record JoinClause : Type 0 where
  pub left : ExploreColumnRef
  pub right : ExploreColumnRef
  pub is_outer : Bool

pub record SelectStatement : Type 0 where
  pub projections : List Projection
  pub base : String
  pub joins : List JoinClause
  pub order : Option (ExploreColumnRef × ExploreSortDirection)
  pub limit : ℕ

-- `dataset_tables[dataset].c[column]`
unfoldable pub table_column : ColumnMap → String → String → Option ExploreColumnRef
unfolding columns_of
table_column m d c = do
  cs ← columns_of m d
  if contains cs c then some (record { dataset_name = d; column_name = c }) else none

unfoldable pub output_column_name : ExploreColumnRef → String
output_column_name r =
    Prim.Native.String.◌++◌ r.dataset_name (Prim.Native.String.◌++◌ "_" r.column_name)

unfoldable pub selected_column_expression : ColumnMap → Bool → ExploreColumnRef → Option Projection
unfolding output_column_name
selected_column_expression m use_qualified_label r = do
  column ← table_column m r.dataset_name r.column_name
  some (record {
    column = column;
    label = if use_qualified_label then some (output_column_name r) else none;
  })

unfoldable pub projections_of : ColumnMap → Bool → List ExploreColumnRef → Option (List Projection)
projections_of m qualified [] = some []
projections_of m qualified (r ∷ rs) = do
  p ← selected_column_expression m qualified r
  ps ← projections_of m qualified rs
  some (p ∷ ps)

abbrev is_left : ExploreJoinType → Bool
is_left ExploreJoinType.left = true
is_left ExploreJoinType.inner = false

-- The joins, each of the base table with `dataset_tables[join.dataset_name]`.
unfoldable pub join_clauses : ColumnMap → String → List ExploreJoin → Option (List JoinClause)
join_clauses m base [] = some []
join_clauses m base (j ∷ joins) = do
  l ← table_column m base j.left_column
  r ← table_column m j.dataset_name j.right_column
  clauses ← join_clauses m base joins
  some (record { left = l; right = r; is_outer = is_left j.join_type } ∷ clauses)

unfoldable pub order_clause :
    ColumnMap
    → Option ExploreColumnRef
    → ExploreSortDirection
    → Option (Option (ExploreColumnRef × ExploreSortDirection))
order_clause m none direction = some none
order_clause m (some r) direction = do
  c ← table_column m r.dataset_name r.column_name
  some (some (c, direction))

abbrev is_joined : List ExploreJoin → Bool
is_joined [] = false
is_joined (j ∷ joins) = true

unfoldable pub build_explore_select_statement : ExploreQuery → Option SelectStatement
build_explore_select_statement q = do
  let tables = required_columns_by_dataset q
  base_columns ← columns_of tables q.dataset_name
  clauses ← join_clauses tables q.dataset_name q.joins
  projections ← projections_of tables (is_joined q.joins) q.column_refs
  order ← order_clause tables q.order_by q.order_direction
  some (record {
    projections = projections;
    base = q.dataset_name;
    joins = clauses;
    order = order;
    limit = q.row_limit;
  })
