-- ===== src/Explore/Examples.antt =====
-- Requests over the built-in catalog and one view table, `event`.
use live_data_architecture.Base.{◌≡◌, refl, true, some, List, [], ◌∷◌, ◌++◌}
use live_data_architecture.Base.Results.{ok, err}
use live_data_architecture.Catalog.{AnalyticsDataset, ColumnKind, DatasetOrigin, datasets}
use live_data_architecture.Explore.{
  ExploreSortDirection, ExploreJoinType, ExploreColumnRef, ExploreJoin, ExploreError, ExploreQuery,
  dataset_by_name, ensure_join_shape_is_allowed, ensure_selected_columns_are_allowed, distinct_refs,
  check_refs, ensure_column_ref_is_selectable, ensure_order_column_is_allowed, build_explore_query,
}
use live_data_architecture.Explore.Parts.{HasColumn}
use live_data_architecture.Explore.Validity.{
  IsValidRequest, query_of, build_explore_query_sound, build_explore_query_complete,
}
use live_data_architecture.Explore.Select.{
  required_columns_by_dataset, output_column_name, columns_of, append_unique_column,
  build_explore_select_statement,
}
use live_data_architecture.Explore.Select.Tables.{has}
use live_data_architecture.Explore.Select.Total.{statement_of, build_explore_select_statement_total}
use live_data_architecture.Explore.Select.Scope.{statement_in_catalog}

abbrev event_view : AnalyticsDataset
event_view = record {
  name = "event";
  label = "event";
  description = "";
  columns =
      record {
        name = "type_counts_event_type";
        label = "type_counts_event_type";
        kind = ColumnKind.dimension;
      }
      ∷ [];
  origin = DatasetOrigin.view_table;
}

catalog : List AnalyticsDataset
unfolding datasets
catalog = datasets ++ event_view ∷ []

abbrev event_type : ExploreColumnRef
event_type = record { dataset_name = "event_type_counts"; column_name = "event_type" }

abbrev view_type : ExploreColumnRef
view_type = record { dataset_name = "event"; column_name = "type_counts_event_type" }

abbrev refs : List ExploreColumnRef
refs = event_type ∷ view_type ∷ []

abbrev joins : List ExploreJoin
joins =
    record {
      dataset_name = "event";
      left_column = "event_type";
      right_column = "type_counts_event_type";
      join_type = ExploreJoinType.left;
    }
    ∷ []

abbrev query : ExploreQuery
query =
    query_of catalog "event_type_counts" refs joins (some event_type) ExploreSortDirection.desc 900
      "event_type_counts"

built :
    build_explore_query "event_type_counts" catalog refs joins
      (some event_type)
      ExploreSortDirection.desc
      900
    ≡ ok query
unfolding build_explore_query catalog dataset_by_name ensure_join_shape_is_allowed
    ensure_selected_columns_are_allowed distinct_refs check_refs ensure_column_ref_is_selectable
    ensure_order_column_is_allowed
built = refl

-- The two columns of this accepted query have one label.
same_label : output_column_name event_type ≡ output_column_name view_type
unfolding output_column_name
same_label = refl

unknown_order :
    build_explore_query "event_type_counts" catalog refs joins
      (some (record { dataset_name = "event"; column_name = "amount" }))
      ExploreSortDirection.asc
      10
    ≡ err ExploreError.unknown_order_column
unfolding build_explore_query catalog dataset_by_name ensure_join_shape_is_allowed
    ensure_selected_columns_are_allowed distinct_refs check_refs ensure_column_ref_is_selectable
    ensure_order_column_is_allowed
unknown_order = refl

valid : IsValidRequest catalog "event_type_counts" refs joins (some event_type)
valid =
    (build_explore_query_sound catalog "event_type_counts" refs joins (some event_type)
      ExploreSortDirection.desc 900 query built).0

build_explore_query_sound_example :
    IsValidRequest catalog "event_type_counts" refs joins (some event_type)
    × (query
        ≡ query_of catalog "event_type_counts" refs joins
            (some event_type)
            ExploreSortDirection.desc
            900
            "event_type_counts")
build_explore_query_sound_example =
    build_explore_query_sound catalog "event_type_counts" refs joins (some event_type)
      ExploreSortDirection.desc 900 query built

build_explore_query_complete_example :
    build_explore_query "event_type_counts" catalog refs joins
      (some event_type)
      ExploreSortDirection.desc
      900
    ≡ ok query
build_explore_query_complete_example =
    build_explore_query_complete catalog "event_type_counts" refs joins (some event_type)
      ExploreSortDirection.desc 900 valid

build_explore_select_statement_total_example :
    build_explore_select_statement query ≡ some (statement_of query)
build_explore_select_statement_total_example = build_explore_select_statement_total query

view_type-has : has (required_columns_by_dataset query) view_type ≡ true
unfolding required_columns_by_dataset columns_of append_unique_column
view_type-has = refl

statement_in_catalog_example : HasColumn catalog "event" "type_counts_event_type"
statement_in_catalog_example =
    statement_in_catalog catalog "event_type_counts" refs joins (some event_type)
      ExploreSortDirection.desc 900 query view_type built view_type-has

-- Two columns of one join can have the same label.
one_label :
    output_column_name (record { dataset_name = "event"; column_name = "type_counts_event_type" })
    ≡ output_column_name (record { dataset_name = "event_type_counts"; column_name = "event_type" })
unfolding output_column_name
one_label = refl
