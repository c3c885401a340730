-- ===== src/Explore/Parts.antt =====
-- What the checks of an Explore request let through, one by one.
use live_data_architecture.Base.{
  ◌≤◌, String, ◌≡◌, ◌≢◌, ◌↔◌, refl, ap, true, false, not, Option, none, some, List, [], ◌∷◌, arith,
  eq_iff, eqb, length, contains, All,
}
use live_data_architecture.Base.Results.{Result, ok, err, >>-eq-ok}
use live_data_architecture.Catalog.{AnalyticsDataset}
use live_data_architecture.Explore.{
  ExploreColumnRef, ExploreJoin, ExploreError, dataset_by_name, dataset_column_names, check_joins,
  same_ref, contains_ref, distinct_refs, ensure_column_ref_is_selectable, check_refs,
  as_order_error, ensure_order_column_is_allowed,
}

pub dataset_by_name_name :
    (datasets : List AnalyticsDataset) (name : String) (d : AnalyticsDataset)
    → dataset_by_name datasets name ≡ some d
    → d.name ≡ name
unfolding dataset_by_name
dataset_by_name_name [] name d h = cc
dataset_by_name_name (x ∷ xs) name d h =
    ground (arith, eq_iff x.name name, dataset_by_name_name xs name d)

-- No key is selected twice.
abbrev pub NodupRefs : List ExploreColumnRef → Type 0
NodupRefs [] = Unit
NodupRefs (r ∷ rs) = (contains_ref rs r ≡ false) × NodupRefs rs

same_ref-eq : (a b : ExploreColumnRef) → same_ref a b ≡ true → a ≡ b
same_ref-eq a b h =
    ground (arith, eq_iff a.dataset_name b.dataset_name, eq_iff a.column_name b.column_name)

contains_ref-distinct_refs :
    (rs : List ExploreColumnRef) (r : ExploreColumnRef)
    → contains_ref (distinct_refs rs) r ≡ contains_ref rs r
unfolding distinct_refs
contains_ref-distinct_refs [] r = refl
contains_ref-distinct_refs (x ∷ rs) r = ground (
  arith,
  contains_ref-distinct_refs rs r,
  λ (h : same_ref x r ≡ true). ap (contains_ref (distinct_refs rs)) (same_ref-eq x r h),
)

length-distinct_refs : (rs : List ExploreColumnRef) → length (distinct_refs rs) ≤ length rs
unfolding distinct_refs
length-distinct_refs [] = omega arith
length-distinct_refs (r ∷ rs) = ground (arith, length-distinct_refs rs)

pub distinct_refs_iff :
    (rs : List ExploreColumnRef)
    → (not (eqb (length rs) (length (distinct_refs rs))) ≡ false) ↔ NodupRefs rs
unfolding distinct_refs
distinct_refs_iff [] = (λ h. tt, λ h. refl)
distinct_refs_iff (r ∷ rs) =
    ground (arith, distinct_refs_iff rs, length-distinct_refs rs, contains_ref-distinct_refs rs r)

module _ (datasets : List AnalyticsDataset) where
  -- The catalog has the dataset, with the column.
  abbrev pub HasColumn : String → String → Type 0
  HasColumn dataset column =
      (d : AnalyticsDataset) × (dataset_by_name datasets dataset ≡ some d)
      × (contains (dataset_column_names d) column ≡ true)

  -- The column belongs to one of the datasets of the request.
  abbrev pub IsSelectable : List String → ExploreColumnRef → Type 0
  IsSelectable scope r =
      (contains scope r.dataset_name ≡ true) × (HasColumn r.dataset_name r.column_name)

  pub ensure_ref_sound :
      (scope : List String) (r : ExploreColumnRef)
      → ensure_column_ref_is_selectable r scope datasets ≡ ok tt
      → IsSelectable scope r
  unfolding ensure_column_ref_is_selectable
  ensure_ref_sound scope r h = ground arith

  pub ensure_ref_complete :
      (scope : List String) (r : ExploreColumnRef)
      → IsSelectable scope r
      → ensure_column_ref_is_selectable r scope datasets ≡ ok tt
  unfolding ensure_column_ref_is_selectable
  ensure_ref_complete scope r h = ground arith

  pub check_refs_sound :
      (scope : List String) (rs : List ExploreColumnRef)
      → check_refs rs scope datasets ≡ ok tt
      → All (IsSelectable scope) rs
  unfolding check_refs
  check_refs_sound scope [] h = tt
  check_refs_sound scope (r ∷ rs) h =
      let (first, rest) = >>-eq-ok (ensure_column_ref_is_selectable r scope datasets) _ h in
      (ensure_ref_sound scope r first, check_refs_sound scope rs rest)

  pub check_refs_complete :
      (scope : List String) (rs : List ExploreColumnRef)
      → All (IsSelectable scope) rs
      → check_refs rs scope datasets ≡ ok tt
  unfolding check_refs
  check_refs_complete scope [] h = refl
  check_refs_complete scope (r ∷ rs) h =
      rw (ensure_ref_complete scope r h.0) (check_refs_complete scope rs h.1)

  -- A join reaches another dataset of the catalog by a column of each side.
  abbrev pub IsJoin : AnalyticsDataset → ExploreJoin → Type 0
  IsJoin base j =
      (j.dataset_name ≢ base.name)
      × (contains (dataset_column_names base) j.left_column ≡ true)
      × (HasColumn j.dataset_name j.right_column)

  check_joins_first :
      (base : AnalyticsDataset) (seen : List String) (j : ExploreJoin) (joins : List ExploreJoin)
      → check_joins datasets base seen (j ∷ joins) ≡ ok tt
      → IsJoin base j × (check_joins datasets base (j.dataset_name ∷ seen) joins ≡ ok tt)
  unfolding check_joins
  check_joins_first base seen j joins h = ground (arith, eq_iff j.dataset_name base.name)

  pub check_joins_sound :
      (base : AnalyticsDataset) (seen : List String) (joins : List ExploreJoin)
      → check_joins datasets base seen joins ≡ ok tt
      → All (IsJoin base) joins
  check_joins_sound base seen [] h = tt
  check_joins_sound base seen (j ∷ joins) h =
      let (first, rest) = check_joins_first base seen j joins h in
      (first, check_joins_sound base (j.dataset_name ∷ seen) joins rest)

  pub check_join_complete :
      (base : AnalyticsDataset) (j : ExploreJoin)
      → IsJoin base j
      → check_joins datasets base [] (j ∷ []) ≡ ok tt
  unfolding check_joins
  check_join_complete base j h = ground (arith, eq_iff j.dataset_name base.name)

  -- No ordering column, or one of the datasets of the request.
  abbrev pub IsOrder : List String → Option ExploreColumnRef → Type 0
  IsOrder scope none = Unit
  IsOrder scope (some r) = IsSelectable scope r

  as_order_error-ok : (m : Result ExploreError (Unit {0})) → as_order_error m ≡ ok tt → m ≡ ok tt
  unfolding as_order_error
  as_order_error-ok (ok tt) h = refl
  as_order_error-ok (err ExploreError.key_error) h = cc
  as_order_error-ok (err _) h = cc

  pub ensure-IsOrder_sound :
      (scope : List String) (order : Option ExploreColumnRef)
      → ensure_order_column_is_allowed order scope datasets ≡ ok tt
      → IsOrder scope order
  unfolding ensure_order_column_is_allowed
  ensure-IsOrder_sound scope none h = tt
  ensure-IsOrder_sound scope (some r) h = ensure_ref_sound scope r (as_order_error-ok _ h)

  pub ensure_order_complete :
      (scope : List String) (order : Option ExploreColumnRef)
      → IsOrder scope order
      → ensure_order_column_is_allowed order scope datasets ≡ ok tt
  unfolding ensure_order_column_is_allowed
  ensure_order_complete scope none h = refl
  ensure_order_complete scope (some r) h = rw (ensure_ref_complete scope r h)
