-- ===== src/Repository/Grouping.antt =====
-- The grouping of metadata rows against a description of each view table by itself.
use mathlib.Core.List.{append_assoc, append-nil}
use live_data_architecture.Base.{
  String, ◌≡◌, refl, sym, ap, ◌∙◌, true, false, Option, none, some, List, [], ◌∷◌, ◌++◌, map, arith,
  ◌==◌, eq_iff, if◌then◌else◌, Bool-cases, inl, inr,
}
use live_data_architecture.Catalog.{AnalyticsDatasetColumn, AnalyticsViewTable}
use live_data_architecture.Repository.Rows.{
  MetadataRow, ViewTableAccumulator, GroupedViewTables, row_columns, add_row, add_rows,
  view_table_of, view_tables_of_rows,
}

module _ (lower : String → String) where
  -- The columns of the rows of one name, in order.
  pub columns_named : String → List MetadataRow → List AnalyticsDatasetColumn
  columns_named name [] = []
  columns_named name (row ∷ rows) =
      let rest = columns_named name rows in
      if row.name == name then row_columns lower row ++ rest else rest

  abbrev first_named : String → List MetadataRow → Option MetadataRow
  first_named name [] = none
  first_named name (row ∷ rows) =
      let rest = first_named name rows in if row.name == name then some row else rest

  -- The view table of one name: the texts of its first row, and the columns of all its rows.
  pub described : String → List MetadataRow → Option AnalyticsViewTable
  described name rows = elim (first_named name rows) [
    | none ↦ none
    | some row ↦ some (record {
      name = name;
      description = row.description;
      source_sql = row.source_sql;
      columns = columns_named name rows;
    })
  ]

  abbrev pub table_named : String → List AnalyticsViewTable → Option AnalyticsViewTable
  table_named name [] = none
  table_named name (table ∷ tables) =
      let rest = table_named name tables in if table.name == name then some table else rest

  lookup : String → GroupedViewTables → Option ViewTableAccumulator
  lookup name [] = none
  lookup name ((n, table) ∷ tables) =
      let rest = lookup name tables in if n == name then some table else rest

  -- A table with the columns of further rows of its name.
  abbrev extended :
      String → List MetadataRow → Option ViewTableAccumulator → Option ViewTableAccumulator
  extended name rows none = elim (first_named name rows) [
    | none ↦ none
    | some row ↦ some (record {
      description = row.description;
      source_sql = row.source_sql;
      columns = columns_named name rows;
    })
  ]
  extended name rows (some table) =
      some (record table { columns = table.columns ++ columns_named name rows })

  with_columns-nil :
      (table : ViewTableAccumulator) → record table { columns = table.columns ++ [] } ≡ table
  with_columns-nil table =
      ap (λ (c : List AnalyticsDatasetColumn). record table { columns = c })
        (append-nil table.columns)

  extended-nil :
      (name : String) (table : Option ViewTableAccumulator) → extended name [] table ≡ table
  unfolding columns_named
  extended-nil name none = refl
  extended-nil name (some table) = ap some (with_columns-nil table)

  -- A row of another name adds nothing.
  extended-other :
      (name : String) (row : MetadataRow) (table : Option ViewTableAccumulator)
      → (row.name == name) ≡ false
      → extended name (row ∷ []) table ≡ table
  unfolding columns_named
  extended-other name row none h = ground arith
  extended-other name row (some table) h = rw h (ap some (with_columns-nil table))

  extended-same :
      (name : String) (row : MetadataRow) (table : ViewTableAccumulator)
      → (row.name == name) ≡ true
      → extended name (row ∷ []) (some table)
        ≡ some (record table { columns = table.columns ++ row_columns lower row })
  unfolding columns_named
  extended-same name row table h = rw (h, append-nil) refl

  lookup-cons :
      (name n : String) (table : ViewTableAccumulator) (tables : GroupedViewTables)
      → lookup name ((n, table) ∷ tables) ≡ (if n == name then some table else lookup name tables)
  unfolding lookup
  lookup-cons name n table tables = refl

  lookup-add_row :
      (tables : GroupedViewTables) (row : MetadataRow) (name : String)
      → lookup name (add_row lower tables row) ≡ extended name (row ∷ []) (lookup name tables)
  unfolding add_row lookup columns_named
  lookup-add_row [] row name = ground arith
  lookup-add_row ((n, table) ∷ tables) row name = elim (Bool-cases (n == row.name)) [
    | inl t ↦ rw t (elim (Bool-cases (row.name == name)) [
      | inl u ↦
          let found : (n == name) ≡ true = ap (λ x. x == name) ((eq_iff n row.name).0 t) ∙ u in
          rw found (sym (extended-same name row table u))
      | inr g ↦
          let missed : (n == name) ≡ false = ap (λ x. x == name) ((eq_iff n row.name).0 t) ∙ g in
          rw missed (sym (extended-other name row (lookup name tables) g))
    ])
    | inr f ↦ rw f (elim (Bool-cases (n == name)) [
      | inl u ↦
          let other : (row.name == name) ≡ false =
            ground (arith, eq_iff n name, eq_iff row.name name, eq_iff n row.name) in
          rw u (sym (extended-other name row (some table) other))
      | inr g ↦ rw g (lookup-add_row tables row name)
    ])
  ]

  columns_lem :
      (name : String) (row : MetadataRow) (rows : List MetadataRow)
      → columns_named name (row ∷ []) ++ columns_named name rows ≡ columns_named name (row ∷ rows)
  unfolding columns_named
  columns_lem name row rows = elim (Bool-cases (row.name == name)) [
    | inl t ↦ rw (t, append-nil) refl
    | inr f ↦ rw f refl
  ]

  extended-cons :
      (name : String) (row : MetadataRow) (rows : List MetadataRow)
      (table : Option ViewTableAccumulator)
      → extended name rows (extended name (row ∷ []) table) ≡ extended name (row ∷ rows) table
  unfolding columns_named
  extended-cons name row rows none = ground (arith, columns_lem name row rows)
  extended-cons name row rows (some table) =
      ap (λ (c : List AnalyticsDatasetColumn). some (record table { columns = c }))
        (append_assoc table.columns _ _ ∙ ap (λ c. table.columns ++ c) (columns_lem name row rows))

  lookup-add_rows :
      (tables : GroupedViewTables) (rows : List MetadataRow) (name : String)
      → lookup name (add_rows lower tables rows) ≡ extended name rows (lookup name tables)
  unfolding add_rows
  lookup-add_rows tables [] name = sym (extended-nil name (lookup name tables))
  lookup-add_rows tables (row ∷ rows) name =
      lookup-add_rows (add_row lower tables row) rows name
      ∙ ap (extended name rows) (lookup-add_row tables row name)
      ∙ extended-cons name row rows (lookup name tables)

  abbrev as_view_table : String → Option ViewTableAccumulator → Option AnalyticsViewTable
  as_view_table name none = none
  as_view_table name (some table) = some (view_table_of lower (name, table))

  extended-described :
      (rows : List MetadataRow) (name : String)
      → as_view_table name (extended name rows none) ≡ described name rows
  unfolding described
  extended-described rows name = ground arith

  table_named-map :
      (tables : GroupedViewTables) (name : String)
      → table_named name (map (view_table_of lower) tables)
        ≡ as_view_table name (lookup name tables)
  unfolding lookup
  table_named-map [] name = refl
  table_named-map ((n, table) ∷ tables) name = elim (Bool-cases (n == name)) [
    | inl t ↦ rw t (ap (λ x. some (view_table_of lower (x, table))) ((eq_iff n name).0 t))
    | inr f ↦ rw f (table_named-map tables name)
  ]

  -- The view tables of a list of rows are, name by name, those that the rows describe: the texts are
  -- those of the first row of the name, and the columns those of all its rows in order.
  pub view_tables_of_rows_named :
      (rows : List MetadataRow) (name : String)
      → table_named name (view_tables_of_rows lower rows) ≡ described name rows
  unfolding view_tables_of_rows lookup
  view_tables_of_rows_named rows name =
      table_named-map (add_rows lower [] rows) name
      ∙ ap (as_view_table name) (lookup-add_rows [] rows name)
      ∙ extended-described rows name
