-- ===== src/Explore/Select/Scope.antt =====
-- What a statement may touch.
use live_data_architecture.Base.{
  ℕ, String, ◌≡◌, true, Option, none, some, List, [], ◌∷◌, arith, eq_iff, All, inl, inr, Bool-cases,
}
use live_data_architecture.Base.Results.{ok}
use live_data_architecture.Catalog.{AnalyticsDataset}
use live_data_architecture.Explore.{
  ExploreSortDirection, ExploreColumnRef, ExploreJoin, ExploreQuery, same_ref, contains_ref,
  dataset_by_name, join_names, build_explore_query,
}
use live_data_architecture.Explore.Parts.{HasColumn, IsSelectable, IsJoin, IsOrder}
use live_data_architecture.Explore.Validity.{query_of, build_explore_query_sound}
use live_data_architecture.Explore.Select.{order_refs, join_refs, required_columns_by_dataset}
use live_data_architecture.Explore.Select.Tables.{has, has-required_columns}

module _ (datasets : List AnalyticsDataset) where
  -- The catalog has the column of a reference.
  abbrev pub Known : ExploreColumnRef → Type 0
  Known r = HasColumn datasets r.dataset_name r.column_name

  same_ref-Known : (a b : ExploreColumnRef) → same_ref a b ≡ true → Known a → Known b
  same_ref-Known a b h k =
      ground (arith, eq_iff a.dataset_name b.dataset_name, eq_iff a.column_name b.column_name)

  refs-Known :
      (rs : List ExploreColumnRef) (x : ExploreColumnRef)
      → All Known rs
      → contains_ref rs x ≡ true
      → Known x
  refs-Known [] x h k = cc
  refs-Known (r ∷ rs) x h k = elim (Bool-cases (same_ref r x)) [
    | inl s ↦ same_ref-Known r x s h.0
    | inr s ↦ refs-Known rs x h.1 (ground arith)
  ]

  selectable-Known :
      (scope : List String) (rs : List ExploreColumnRef)
      → All (IsSelectable datasets scope) rs
      → All Known rs
  selectable-Known scope [] h = tt
  selectable-Known scope (r ∷ rs) h = (h.0.1, selectable-Known scope rs h.1)

  order-Known :
      (scope : List String) (order : Option ExploreColumnRef)
      → IsOrder datasets scope order
      → All Known (order_refs order)
  order-Known scope none h = tt
  order-Known scope (some r) h = (h.1, tt)

  joins-Known :
      (name : String) (base : AnalyticsDataset) (joins : List ExploreJoin)
      → dataset_by_name datasets name ≡ some base
      → All (IsJoin datasets base) joins
      → All Known (join_refs name joins)
  joins-Known name base [] e h = tt
  joins-Known name base (j ∷ joins) e h =
      ((base, e, h.0.1), (h.0.2, joins-Known name base joins e h.1))

-- Of a query that `build_explore_query` returned, every column of every table of the statement is a
-- column of that dataset in the catalog.
pub statement_in_catalog :
    (datasets : List AnalyticsDataset) (name : String) (refs : List ExploreColumnRef)
    (joins : List ExploreJoin) (order : Option ExploreColumnRef) (direction : ExploreSortDirection)
    (limit : ℕ) (q : ExploreQuery) (x : ExploreColumnRef)
    → build_explore_query name datasets refs joins order direction limit ≡ ok q
    → has (required_columns_by_dataset q) x ≡ true
    → HasColumn datasets x.dataset_name x.column_name
statement_in_catalog datasets name refs joins order direction limit q x built h =
    let (v, same) =
      build_explore_query_sound datasets name refs joins order direction limit q built in
    let scope = name ∷ join_names joins in
    let asked = query_of datasets name refs joins order direction limit name in
    let found : has (required_columns_by_dataset asked) x ≡ true = rw same at h in
    elim (Bool-cases (contains_ref refs x)) [
      | inl s ↦ refs-Known datasets refs x (selectable-Known datasets scope refs v.selectable) s
      | inr s ↦ elim (Bool-cases (contains_ref (order_refs order) x)) [
        | inl o ↦
            refs-Known datasets (order_refs order) x (order-Known datasets scope order v.orderable)
              o
        | inr o ↦
            refs-Known datasets (join_refs name joins) x
              (joins-Known datasets name v.base joins v.found v.joinable)
              (ground (arith, has-required_columns asked x))
      ]
    ]
