-- ===== src/Repository/Metadata.antt =====
-- The statements that `build_upsert_view_table_metadata_statement`,
-- `build_delete_view_table_metadata_statement` and `build_view_table_metadata_select_statement` hand
-- to SQLAlchemy, as data.
use live_data_architecture.Base.{String, Bool, true, Option, none, some, List, [], ◌∷◌}

-- The columns of `AnalyticsViewTableRecord` that the statements name.
pub data MetadataColumn : Type 0 where
  name_column description_column source_sql_column updated_at_column : MetadataColumn

-- `statement.excluded`, which is the row that was to be inserted, and `func.now()`
pub data SetValue : Type 0 where
  excluded : MetadataColumn → SetValue
  now : SetValue

-- INSERT ... VALUES ... ON CONFLICT (...) DO UPDATE SET ...
pub record Upsert : Type 0 where
  pub values : List (MetadataColumn × String)
  pub index_elements : List MetadataColumn
  pub set : List (MetadataColumn × SetValue)

-- DELETE, with the column and the text of its WHERE
pub record Delete : Type 0 where
  pub where_equal : Option (MetadataColumn × String)

-- A column of the joined tables, those of the information schema by name.
pub data JoinedColumn : Type 0 where
  view_table_column : MetadataColumn → JoinedColumn
  information_schema_column : String → JoinedColumn

pub data JoinCondition : Type 0 where
  equals_text : JoinedColumn → String → JoinCondition
  equals_column : JoinedColumn → JoinedColumn → JoinCondition

-- The metadata query: the selected columns with their labels, the join of the information schema's
-- columns, the order, and the column and the text of the WHERE.
pub record MetadataSelect : Type 0 where
  pub columns : List (String × JoinedColumn)
  pub is_outer : Bool
  pub on : List JoinCondition
  pub order_by : List JoinedColumn
  pub where_equal : Option (MetadataColumn × String)

unfoldable pub build_upsert_view_table_metadata_statement : String → String → String → Upsert
build_upsert_view_table_metadata_statement name description source_sql = record {
  values =
      (MetadataColumn.name_column, name)
      ∷ (MetadataColumn.description_column, description)
      ∷ (MetadataColumn.source_sql_column, source_sql)
      ∷ [];
  index_elements = MetadataColumn.name_column ∷ [];
  set =
      (MetadataColumn.description_column, SetValue.excluded MetadataColumn.description_column)
      ∷ (MetadataColumn.source_sql_column, SetValue.excluded MetadataColumn.source_sql_column)
      ∷ (MetadataColumn.updated_at_column, SetValue.now)
      ∷ [];
}

unfoldable pub build_delete_view_table_metadata_statement : String → Delete
build_delete_view_table_metadata_statement name = record {
  where_equal = some (MetadataColumn.name_column, name);
}

-- The query before its WHERE
abbrev pub metadata_statement : MetadataSelect
metadata_statement = record {
  columns =
      ("name", JoinedColumn.view_table_column MetadataColumn.name_column)
      ∷ ("description", JoinedColumn.view_table_column MetadataColumn.description_column)
      ∷ ("source_sql", JoinedColumn.view_table_column MetadataColumn.source_sql_column)
      ∷ ("column_name", JoinedColumn.information_schema_column "column_name")
      ∷ ("data_type", JoinedColumn.information_schema_column "data_type")
      ∷ ("ordinal_position", JoinedColumn.information_schema_column "ordinal_position")
      ∷ [];
  is_outer = true;
  on =
      JoinCondition.equals_text (JoinedColumn.information_schema_column "table_schema") "public"
      ∷ JoinCondition.equals_column (JoinedColumn.information_schema_column "table_name")
          (JoinedColumn.view_table_column MetadataColumn.name_column)
      ∷ [];
  order_by =
      JoinedColumn.view_table_column MetadataColumn.name_column
      ∷ JoinedColumn.information_schema_column "ordinal_position"
      ∷ [];
  where_equal = none;
}

unfoldable pub build_view_table_metadata_select_statement : Option String → MetadataSelect
build_view_table_metadata_select_statement none = metadata_statement
build_view_table_metadata_select_statement (some name) = record metadata_statement {
  where_equal = some (MetadataColumn.name_column, name);
}
