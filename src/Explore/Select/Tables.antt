-- ===== src/Explore/Select/Tables.antt =====
-- The tables that a statement declares hold exactly the columns that the query names.
use live_data_architecture.Base.{
  String, ◌≡◌, Bool, true, false, ◌||◌, Option, none, some, List, [], ◌∷◌, arith, ◌==◌, eq_iff,
  eq_refl, has_value, contains, contains-append,
}
use live_data_architecture.Explore.{ExploreColumnRef, ExploreQuery, same_ref, contains_ref}
use live_data_architecture.Explore.Select.{
  ColumnMap, columns_of, append_once, append_unique_column, append_refs, order_refs, join_refs,
  required_columns_by_dataset, table_column,
}

-- The map has the column under the dataset.
abbrev pub holds : Option (List String) → String → Bool
holds none c = false
holds (some cs) c = contains cs c

abbrev pub has : ColumnMap → ExploreColumnRef → Bool
has m r = holds (columns_of m r.dataset_name) r.column_name

append_once_lem :
    (cs : List String) (c x : String) → contains (append_once cs c) x ≡ (c == x || contains cs x)
append_once_lem cs c x = ground (arith, contains-append cs (c ∷ []) x, eq_iff c x)

has-append_unique_column :
    (m : ColumnMap) (r x : ExploreColumnRef)
    → has (append_unique_column m r) x ≡ (same_ref r x || has m x)
unfolding append_unique_column columns_of
has-append_unique_column [] r x = ground arith
has-append_unique_column ((k, cs) ∷ m) r x = ground (
  arith,
  has-append_unique_column m r x,
  append_once_lem cs r.column_name x.column_name,
  eq_iff k r.dataset_name,
  eq_iff k x.dataset_name,
  eq_iff r.dataset_name x.dataset_name,
)

pub has-append_refs :
    (m : ColumnMap) (rs : List ExploreColumnRef) (x : ExploreColumnRef)
    → has (append_refs m rs) x ≡ (has m x || contains_ref rs x)
unfolding append_refs
has-append_refs m [] x = ground arith
has-append_refs m (r ∷ rs) x =
    ground (arith, has-append_refs (append_unique_column m r) rs x, has-append_unique_column m r x)

-- The tables of a query have a column exactly if it is selected, ordered by or joined on.
pub has-required_columns :
    (q : ExploreQuery) (x : ExploreColumnRef)
    → has (required_columns_by_dataset q) x ≡ (
        contains_ref q.column_refs x
        || (contains_ref (order_refs q.order_by) x
            || contains_ref (join_refs q.dataset_name q.joins) x))
unfolding required_columns_by_dataset columns_of
has-required_columns q x =
    let m₀ : ColumnMap = (q.dataset_name, []) ∷ [] in
    let m₁ = append_refs m₀ q.column_refs in
    let m₂ = append_refs m₁ (order_refs q.order_by) in
    ground (
      arith,
      has-append_refs m₂ (join_refs q.dataset_name q.joins) x,
      has-append_refs m₁ (order_refs q.order_by) x,
      has-append_refs m₀ q.column_refs x,
    )

pub table_column_of-has :
    (m : ColumnMap) (r : ExploreColumnRef)
    → has m r ≡ true
    → table_column m r.dataset_name r.column_name ≡ some r
unfolding table_column
table_column_of-has m r h = ground arith

columns_of-append_unique_column :
    (m : ColumnMap) (r : ExploreColumnRef) (d : String)
    → has_value (columns_of m d) ≡ true
    → has_value (columns_of (append_unique_column m r) d) ≡ true
unfolding append_unique_column columns_of
columns_of-append_unique_column [] r d h = cc
columns_of-append_unique_column ((k, cs) ∷ m) r d h =
    ground (arith, columns_of-append_unique_column m r d)

columns_of-append_refs :
    (m : ColumnMap) (rs : List ExploreColumnRef) (d : String)
    → has_value (columns_of m d) ≡ true
    → has_value (columns_of (append_refs m rs) d) ≡ true
unfolding append_refs
columns_of-append_refs m [] d h = h
columns_of-append_refs m (r ∷ rs) d h =
    columns_of-append_refs (append_unique_column m r) rs d (columns_of-append_unique_column m r d h)

-- The base dataset always has a table.
pub columns_of-required_columns :
    (q : ExploreQuery)
    → has_value (columns_of (required_columns_by_dataset q) q.dataset_name) ≡ true
unfolding required_columns_by_dataset
columns_of-required_columns q =
    columns_of-append_refs _ (join_refs q.dataset_name q.joins) q.dataset_name (
      columns_of-append_refs _ (order_refs q.order_by) q.dataset_name (
        columns_of-append_refs ((q.dataset_name, []) ∷ []) q.column_refs q.dataset_name
          (unfold columns_of in ground (arith, eq_refl q.dataset_name))))
