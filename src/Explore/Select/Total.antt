-- ===== src/Explore/Select/Total.antt =====
-- Building the statement of a query never meets a missing table or column, and the statement is the
-- one that was asked for.
use live_data_architecture.Base.{
  String, ◌≡◌, refl, Bool, true, Option, none, some, List, [], ◌∷◌, map, arith, eq_refl,
  has_value-eq, if◌then◌else◌,
}
use live_data_architecture.Explore.{
  ExploreSortDirection, ExploreColumnRef, ExploreJoin, ExploreQuery, contains_ref,
}
use live_data_architecture.Explore.Select.{
  ColumnMap, columns_of, order_refs, join_refs, required_columns_by_dataset, Projection, JoinClause,
  SelectStatement, output_column_name, selected_column_expression, projections_of, is_left,
  join_clauses, order_clause, is_joined, build_explore_select_statement,
}
use live_data_architecture.Explore.Select.Tables.{
  has, has-required_columns, table_column_of-has, columns_of-required_columns,
}

-- The columns as they are asked for: with a label if there is a join.
abbrev pub project : Bool → ExploreColumnRef → Projection
project qualified r = record {
  column = r;
  label = if qualified then some (output_column_name r) else none;
}

abbrev pub clause_of : String → ExploreJoin → JoinClause
clause_of base j = record {
  left = record { dataset_name = base; column_name = j.left_column };
  right = record { dataset_name = j.dataset_name; column_name = j.right_column };
  is_outer = is_left j.join_type;
}

abbrev pub order_of :
    Option ExploreColumnRef
    → ExploreSortDirection
    → Option (ExploreColumnRef × ExploreSortDirection)
order_of none direction = none
order_of (some r) direction = some (r, direction)

abbrev pub statement_of : ExploreQuery → SelectStatement
statement_of q = record {
  projections = map (project (is_joined q.joins)) q.column_refs;
  base = q.dataset_name;
  joins = map (clause_of q.dataset_name) q.joins;
  order = order_of q.order_by q.order_direction;
  limit = q.row_limit;
}

module _ (m : ColumnMap) where
  -- The map has every column of the list.
  abbrev HasAll : List ExploreColumnRef → Type 0
  HasAll rs = (x : ExploreColumnRef) → contains_ref rs x ≡ true → has m x ≡ true

  HasAll-head :
      (r : ExploreColumnRef) (rs : List ExploreColumnRef) → HasAll (r ∷ rs) → has m r ≡ true
  HasAll-head r rs h = h r (ground (arith, eq_refl r.dataset_name, eq_refl r.column_name))

  HasAll-tail : (r : ExploreColumnRef) (rs : List ExploreColumnRef) → HasAll (r ∷ rs) → HasAll rs
  HasAll-tail r rs h x k = h x (ground arith)

  projections_of_lem :
      (qualified : Bool) (rs : List ExploreColumnRef)
      → HasAll rs
      → projections_of m qualified rs ≡ some (map (project qualified) rs)
  unfolding projections_of selected_column_expression
  projections_of_lem qualified [] h = refl
  projections_of_lem qualified (r ∷ rs) h = rw (
    table_column_of-has m r (HasAll-head r rs h),
    projections_of_lem qualified rs (HasAll-tail r rs h),
  )

  join_clauses_lem :
      (base : String) (joins : List ExploreJoin)
      → HasAll (join_refs base joins)
      → join_clauses m base joins ≡ some (map (clause_of base) joins)
  unfolding join_clauses
  join_clauses_lem base [] h = refl
  join_clauses_lem base (j ∷ joins) h =
      let c = clause_of base j in
      let others = join_refs base joins in
      let rest = HasAll-tail c.left (c.right ∷ others) h in
      rw (
        table_column_of-has m c.left (HasAll-head c.left (c.right ∷ others) h),
        table_column_of-has m c.right (HasAll-head c.right others rest),
        join_clauses_lem base joins (HasAll-tail c.right others rest),
      )

  order_clause_lem :
      (order : Option ExploreColumnRef) (direction : ExploreSortDirection)
      → HasAll (order_refs order)
      → order_clause m order direction ≡ some (order_of order direction)
  unfolding order_clause
  order_clause_lem none direction h = refl
  order_clause_lem (some r) direction h = rw (table_column_of-has m r (HasAll-head r [] h))

-- For every query the builder succeeds, and the statement selects the asked columns of the base
-- dataset in order, labelled if there is a join, with the asked joins, ordering and limit.
pub build_explore_select_statement_total :
    (q : ExploreQuery) → build_explore_select_statement q ≡ some (statement_of q)
unfolding build_explore_select_statement
build_explore_select_statement_total q =
    let m = required_columns_by_dataset q in
    let (cs, base) = has_value-eq (columns_of m q.dataset_name) (columns_of-required_columns q) in
    rw (
      base,
      join_clauses_lem m q.dataset_name q.joins (λ x k. ground (arith, has-required_columns q x)),
      projections_of_lem m (is_joined q.joins) q.column_refs
          (λ x k. ground (arith, has-required_columns q x)),
      order_clause_lem m q.order_by q.order_direction
          (λ x k. ground (arith, has-required_columns q x)),
    )
