-- ===== src/Repository/Saving/Texts.antt =====
-- The view table that the rows of one name give.
use live_data_architecture.Base.{
  some-injective, String, ◌≡◌, refl, sym, ap, ◌∙◌, subst, true, Option, some, List, [], ◌∷◌, ◌++◌,
  map, All, contains, eq_iff,
}
use live_data_architecture.Catalog.{AnalyticsDatasetColumn, AnalyticsViewTable}
use live_data_architecture.Repository.Rows.{
  MetadataRow, ViewTableAccumulator, row_columns, add_row, add_rows, view_table_of,
  view_tables_of_rows,
}

module _ (lower : String → String) where
  -- Rows of the one name that is there already only add columns.
  add_rows-one :
      (name : String) (table : ViewTableAccumulator) (rows : List MetadataRow)
      → All (λ row. row.name ≡ name) rows
      → (columns : List AnalyticsDatasetColumn) × (add_rows lower ((name, table) ∷ []) rows
          ≡ (name, record table { columns = columns }) ∷ [])
  unfolding add_rows add_row
  add_rows-one name table [] h = (table.columns, refl)
  add_rows-one name table (row ∷ rows) h =
      let next : ViewTableAccumulator = record table {
        columns = table.columns ++ row_columns lower row;
      } in
      let (columns, same) = add_rows-one name next rows h.1 in
      (columns, rw ((eq_iff name row.name).1 (sym h.0)) same)

  -- A table with these texts.
  pub record HasTexts (n d q : String) (table : AnalyticsViewTable) : Type 0 where
    pub name : table.name ≡ n
    pub description : table.description ≡ d
    pub source_sql : table.source_sql ≡ q

  pub rows-HasTexts :
      (metadata : String → Option (String × String)) (name description source_sql : String)
      (rows : List MetadataRow)
      → metadata name ≡ some (description, source_sql)
      → All (λ row. row.name ≡ name) rows
      → All (λ row. metadata row.name ≡ some (row.description, row.source_sql)) rows
      → contains (map (λ row. row.name) rows) name ≡ true
      → (table : AnalyticsViewTable) × (view_tables_of_rows lower rows ≡ table ∷ [])
        × HasTexts name description source_sql table
  unfolding view_tables_of_rows add_rows add_row
  rows-HasTexts metadata name description source_sql [] m named texts found = cc
  rows-HasTexts metadata name description source_sql (row ∷ rows) m named texts found =
      let acc : ViewTableAccumulator = record {
        description = row.description;
        source_sql = row.source_sql;
        columns = row_columns lower row;
      } in
      let (columns, grouped) =
        add_rows-one row.name acc rows
          (subst (λ n. All (λ (r : MetadataRow). r.name ≡ n) rows) (sym named.0) named.1) in
      let same = some-injective (sym texts.0 ∙ ap metadata named.0 ∙ m) in
      (
        record {
          name = row.name;
          description = row.description;
          source_sql = row.source_sql;
          columns = columns;
        },
        ap (map (view_table_of lower)) grouped,
        record {
          name = named.0;
          description = ap (λ (t : String × String). t.0) same;
          source_sql = ap (λ (t : String × String). t.1) same;
        },
      )
