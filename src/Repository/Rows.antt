-- ===== src/Repository/Rows.antt =====
-- What the repository makes of the rows of PostgreSQL: JSON values, and view tables with columns.
use live_data_architecture.Base.{
  ℕ, String, Bool, Option, none, some, List, [], ◌∷◌, ◌++◌, map, ◌||◌, ◌==◌, if◌then◌else◌,
  contains,
}
use live_data_architecture.Catalog.{ColumnKind, AnalyticsDatasetColumn, AnalyticsViewTable}
use live_data_architecture.Charts.{JsonValue, occurs_in}

-- The types of other libraries among the values of a row, and `float` and `isoformat` on them.
pub record Scalars : Type 1 where
  pub Decimal : Type 0
  pub Datetime : Type 0
  pub Date : Type 0
  pub float_of : Decimal → String
  pub datetime_isoformat : Datetime → String
  pub date_isoformat : Date → String

pub data DatabaseScalar (S : Scalars) : Type 0 where
  text : String → DatabaseScalar S
  integer : Bool → ℕ → DatabaseScalar S
  float : String → DatabaseScalar S
  boolean : Bool → DatabaseScalar S
  null : DatabaseScalar S
  decimal : S.Decimal → DatabaseScalar S
  datetime : S.Datetime → DatabaseScalar S
  date : S.Date → DatabaseScalar S

-- The last line of the source, `str(value)`, is for values of no type that the annotation lists.
unfoldable pub json_safe_value : (S : Scalars) → DatabaseScalar S → JsonValue
json_safe_value S null = JsonValue.null
json_safe_value S (text s) = JsonValue.text s
json_safe_value S (integer negative size) = JsonValue.integer negative size
json_safe_value S (float digits) = JsonValue.float digits
json_safe_value S (boolean b) = JsonValue.boolean b
json_safe_value S (decimal d) = JsonValue.float (S.float_of d)
json_safe_value S (datetime t) = JsonValue.text (S.datetime_isoformat t)
json_safe_value S (date t) = JsonValue.text (S.date_isoformat t)

unfoldable pub row_mapping_to_json :
    (S : Scalars) → List (String × DatabaseScalar S) → List (String × JsonValue)
unfolding json_safe_value
row_mapping_to_json S row = map (λ (key, value). (key, json_safe_value S value)) row

abbrev metric_types : List String
metric_types = "bigint" ∷ "double precision" ∷ "integer" ∷ "numeric" ∷ "real" ∷ "smallint" ∷ []

unfoldable pub column_kind_from_postgres_type : (String → String) → String → ColumnKind
column_kind_from_postgres_type lower data_type =
    let normalized_type = lower data_type in
    if contains metric_types normalized_type
    then ColumnKind.metric
    else if occurs_in "timestamp" normalized_type || contains ("date" ∷ "time" ∷ []) normalized_type
    then ColumnKind.temporal
    else ColumnKind.dimension

-- A row of the metadata query: a view table with one of its columns, or with none.
pub record MetadataRow : Type 0 where
  pub name : String
  pub description : String
  pub source_sql : String
  pub column_name : Option String
  pub data_type : Option String

pub record ViewTableAccumulator : Type 0 where
  pub description : String
  pub source_sql : String
  pub columns : List AnalyticsDatasetColumn

-- A dictionary in the order of insertion.
abbrev pub GroupedViewTables : Type 0
GroupedViewTables = List (String × ViewTableAccumulator)

-- `str` of a text or of None
abbrev pub str : Option String → String
str none = "None"
str (some s) = s

module _ (lower : String → String) where
  unfoldable pub row_columns : MetadataRow → List AnalyticsDatasetColumn
  unfolding column_kind_from_postgres_type
  row_columns row = elim row.column_name [
    | none ↦ []
    | some column ↦
        record {
          name = column;
          label = column;
          kind = column_kind_from_postgres_type lower (str row.data_type);
        }
        ∷ []
  ]

  -- `setdefault`, and the append to the columns of what it returns
  unfoldable pub add_row : GroupedViewTables → MetadataRow → GroupedViewTables
  unfolding row_columns
  add_row [] row =
      (
        row.name,
        record {
          description = row.description;
          source_sql = row.source_sql;
          columns = row_columns row;
        },
      )
      ∷ []
  add_row ((name, table) ∷ tables) row =
      let later = add_row tables row in
      if name == row.name
      then (name, record table { columns = table.columns ++ row_columns row }) ∷ tables
      else (name, table) ∷ later

  unfoldable pub add_rows : GroupedViewTables → List MetadataRow → GroupedViewTables
  unfolding add_row
  add_rows tables [] = tables
  add_rows tables (row ∷ rows) = add_rows (add_row tables row) rows

  abbrev pub view_table_of : String × ViewTableAccumulator → AnalyticsViewTable
  view_table_of (name, table) = record {
    name = name;
    description = table.description;
    source_sql = table.source_sql;
    columns = table.columns;
  }

  -- `load_view_tables`, of the rows that its query returned
  unfoldable pub view_tables_of_rows : List MetadataRow → List AnalyticsViewTable
  unfolding add_rows
  view_tables_of_rows rows = map view_table_of (add_rows [] rows)
