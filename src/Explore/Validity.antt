-- ===== src/Explore/Validity.antt =====
-- Which Explore requests become queries, as a description apart from the code, and that these are
-- exactly the ones.
use live_data_architecture.Base.{
  ℕ, ◌≤◌, String, ◌≡◌, refl, sym, ap, ◌∙◌, false, Option, none, some, List, [], ◌∷◌, arith, min,
  length, All, ltb,
}
use live_data_architecture.Base.Results.{
  Result, ok, ◌>>=◌, ◌>>◌, raise_if, >>-eq-ok, >>=-eq-ok, ok-injective, raise_if-eq-ok,
}
use live_data_architecture.Catalog.{AnalyticsDataset}
use live_data_architecture.Explore.{
  ExploreColumnRef, ExploreJoin, ExploreError, ExploreQuery, ExploreSortDirection,
  max_explore_query_row_limit, max_explore_join_count, dataset_by_name, or_raise, check_joins,
  ensure_join_shape_is_allowed, ensure_selected_columns_are_allowed, ensure_order_column_is_allowed,
  join_names, build_explore_query,
}
use live_data_architecture.Explore.Parts.{
  dataset_by_name_name, NodupRefs, distinct_refs_iff, IsSelectable, check_refs_sound,
  check_refs_complete, IsJoin, check_joins_sound, check_join_complete, IsOrder,
  ensure-IsOrder_sound, ensure_order_complete,
}

abbrev pub IsSome : List ExploreColumnRef → Type 0
IsSome [] = ⊥
IsSome (r ∷ rs) = Unit

-- The base dataset is in the catalog; there is at most one join, and it is a join from the base;
-- some columns are selected, none twice, and each, like the ordering column if there is one,
-- belongs to the base or to the joined dataset.
pub record IsValidRequest (datasets : List AnalyticsDataset) (name : String)
    (refs : List ExploreColumnRef) (joins : List ExploreJoin) (order : Option ExploreColumnRef)
    : Type 0 where
  pub base : AnalyticsDataset
  pub found : dataset_by_name datasets name ≡ some base
  pub few_joins : length joins ≤ max_explore_join_count
  pub joinable : All (IsJoin datasets base) joins
  pub selected : IsSome refs
  pub distinct : NodupRefs refs
  pub selectable : All (IsSelectable datasets (name ∷ join_names joins)) refs
  pub orderable : IsOrder datasets (name ∷ join_names joins) order

few_of : (n : ℕ) → ltb max_explore_join_count n ≡ false → n ≤ max_explore_join_count
few_of n h = ground arith

joins_sound :
    (joins : List ExploreJoin) (base : AnalyticsDataset) (datasets : List AnalyticsDataset)
    → ensure_join_shape_is_allowed joins base datasets ≡ ok tt
    → (length joins ≤ max_explore_join_count) × All (IsJoin datasets base) joins
unfolding ensure_join_shape_is_allowed
joins_sound joins base datasets h =
    let many = ltb max_explore_join_count (length joins) in
    let (few, checked) = >>-eq-ok (raise_if many ExploreError.too_many_joins) _ h in
    (
      few_of (length joins) (raise_if-eq-ok _ _ few),
      check_joins_sound datasets base [] joins checked,
    )

joins_complete :
    (joins : List ExploreJoin) (base : AnalyticsDataset) (datasets : List AnalyticsDataset)
    → length joins ≤ max_explore_join_count
    → All (IsJoin datasets base) joins
    → ensure_join_shape_is_allowed joins base datasets ≡ ok tt
unfolding ensure_join_shape_is_allowed
joins_complete [] base datasets few h = unfold check_joins in refl
joins_complete (j ∷ []) base datasets few h = check_join_complete datasets base j h.0
joins_complete (j ∷ k ∷ joins) base datasets few h = absurd (omega arith)

module _ (datasets : List AnalyticsDataset) (scope : List String) where
  selected_sound :
      (refs : List ExploreColumnRef)
      → ensure_selected_columns_are_allowed refs scope datasets ≡ ok tt
      → IsSome refs × NodupRefs refs × All (IsSelectable datasets scope) refs
  unfolding ensure_selected_columns_are_allowed
  selected_sound [] h = cc
  selected_sound (r ∷ refs) h =
      let (unique, checked) = >>-eq-ok (raise_if _ ExploreError.duplicate_columns) _ h in
      (
        tt,
        (distinct_refs_iff (r ∷ refs)).0 (raise_if-eq-ok _ _ unique),
        check_refs_sound datasets scope (r ∷ refs) checked,
      )

  selected_complete :
      (refs : List ExploreColumnRef)
      → IsSome refs
      → NodupRefs refs
      → All (IsSelectable datasets scope) refs
      → ensure_selected_columns_are_allowed refs scope datasets ≡ ok tt
  unfolding ensure_selected_columns_are_allowed
  selected_complete [] s d h = absurd s
  selected_complete (r ∷ refs) s d h =
      rw ((distinct_refs_iff (r ∷ refs)).1 d) (check_refs_complete datasets scope (r ∷ refs) h)

-- What the four steps of `build_explore_query` returned, when all of them passed.
passed :
    {E A V : Type 0} (m₁ : Result E A) (m₂ m₃ m₄ : A → Result E (Unit {0})) (out : A → V) {v : V}
    → (do a ← m₁; m₂ a; m₃ a; m₄ a; ok (out a)) ≡ ok v
    → (a : A) × (m₁ ≡ ok a) × (m₂ a ≡ ok tt) × (m₃ a ≡ ok tt) × (m₄ a ≡ ok tt) × (out a ≡ v)
passed m₁ m₂ m₃ m₄ out h =
    let (a, p₁, h₁) = >>=-eq-ok m₁ _ h in
    let (p₂, h₂) = >>-eq-ok (m₂ a) _ h₁ in
    let (p₃, h₃) = >>-eq-ok (m₃ a) _ h₂ in
    let (p₄, h₄) = >>-eq-ok (m₄ a) (ok (out a)) h₃ in (a, p₁, p₂, p₃, p₄, ok-injective h₄)

passing :
    {E A V : Type 0} (m₁ : Result E A) (m₂ m₃ m₄ : A → Result E (Unit {0})) (out : A → V) (a : A)
    → m₁ ≡ ok a
    → m₂ a ≡ ok tt
    → m₃ a ≡ ok tt
    → m₄ a ≡ ok tt
    → (do a ← m₁; m₂ a; m₃ a; m₄ a; ok (out a)) ≡ ok (out a)
passing m₁ m₂ m₃ m₄ out a p₁ p₂ p₃ p₄ = rw (p₁, p₂, p₃, p₄)

or_raise-eq-ok :
    {A : Type 0} (o : Option A) (e : ExploreError) (a : A) → or_raise o e ≡ ok a → o ≡ some a
or_raise-eq-ok none e a h = cc
or_raise-eq-ok (some b) e a h = cc

module _ (datasets : List AnalyticsDataset) (name : String) (refs : List ExploreColumnRef)
    (joins : List ExploreJoin) (order : Option ExploreColumnRef) (direction : ExploreSortDirection)
    (limit : ℕ) where
  -- The query of a request: what was asked for, with the limit capped.
  abbrev pub query_of : String → ExploreQuery
  query_of base_name = record {
    dataset_name = base_name;
    column_refs = refs;
    joins = joins;
    order_by = order;
    order_direction = direction;
    row_limit = min limit max_explore_query_row_limit;
  }

  -- `build_explore_query` returns only queries of valid requests, and the query is what was asked
  -- for, with the limit cut to 500.
  pub build_explore_query_sound :
      (q : ExploreQuery)
      → build_explore_query name datasets refs joins order direction limit ≡ ok q
      → IsValidRequest datasets name refs joins order × (q ≡ query_of name)
  unfolding build_explore_query
  build_explore_query_sound q h =
      let (base, found, p₂, p₃, p₄, e) =
        passed (or_raise (dataset_by_name datasets name) ExploreError.unknown_dataset)
          (λ d. ensure_join_shape_is_allowed joins d datasets)
          (λ d. ensure_selected_columns_are_allowed refs (d.name ∷ join_names joins) datasets)
          (λ d. ensure_order_column_is_allowed order (d.name ∷ join_names joins) datasets)
          (λ d. query_of d.name) h in
      let found' = or_raise-eq-ok (dataset_by_name datasets name) _ base found in
      let same = dataset_by_name_name datasets name base found' in
      let (few, joinable) = joins_sound joins base datasets p₂ in
      let (selected, distinct, selectable) =
        selected_sound datasets (name ∷ join_names joins) refs (rw same at p₃) in
      (
        record {
          base = base;
          found = found';
          few_joins = few;
          joinable = joinable;
          selected = selected;
          distinct = distinct;
          selectable = selectable;
          orderable = ensure-IsOrder_sound datasets (name ∷ join_names joins) order (rw same at p₄);
        },
        sym e ∙ ap query_of same,
      )

  -- Every valid request becomes a query.
  pub build_explore_query_complete :
      IsValidRequest datasets name refs joins order
      → build_explore_query name datasets refs joins order direction limit ≡ ok (query_of name)
  unfolding build_explore_query
  build_explore_query_complete v =
      let same = dataset_by_name_name datasets name v.base v.found in
      let scope = λ (n : String). n ∷ join_names joins in
      passing (or_raise (dataset_by_name datasets name) ExploreError.unknown_dataset)
        (λ d. ensure_join_shape_is_allowed joins d datasets)
        (λ d. ensure_selected_columns_are_allowed refs (d.name ∷ join_names joins) datasets)
        (λ d. ensure_order_column_is_allowed order (d.name ∷ join_names joins) datasets)
        (λ d. query_of d.name) v.base (rw v.found refl)
        (joins_complete joins v.base datasets v.few_joins v.joinable)
        (ap (λ n. ensure_selected_columns_are_allowed refs (scope n) datasets) same
          ∙ selected_complete datasets (name ∷ join_names joins) refs v.selected v.distinct
              v.selectable)
        (ap (λ n. ensure_order_column_is_allowed order (scope n) datasets) same
          ∙ ensure_order_complete datasets (name ∷ join_names joins) order v.orderable)
      ∙ ap (λ n. ok (query_of n)) same
