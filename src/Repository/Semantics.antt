-- ===== src/Repository/Semantics.antt =====
-- What PostgreSQL documents of an INSERT that updates on conflict, and of the labels of a SELECT.
use live_data_architecture.Base.{
  String, ◌≡◌, Bool, true, false, Option, none, some, List, [], ◌∷◌, ◌==◌, if◌then◌else◌,
}
use live_data_architecture.Repository.Metadata.{
  MetadataColumn, SetValue, Upsert, JoinedColumn, MetadataSelect,
}

-- Whether two columns are the same.
abbrev pub same_column : MetadataColumn → MetadataColumn → Bool
same_column MetadataColumn.name_column MetadataColumn.name_column = true
same_column MetadataColumn.description_column MetadataColumn.description_column = true
same_column MetadataColumn.source_sql_column MetadataColumn.source_sql_column = true
same_column MetadataColumn.updated_at_column MetadataColumn.updated_at_column = true
same_column _ _ = false

-- The entry of a column.
abbrev pub entry_of {ℓ} : {A : Type ℓ} → MetadataColumn → List (MetadataColumn × A) → Option A
entry_of c [] = none
entry_of c ((d, a) ∷ entries) =
    let rest = entry_of c entries in if same_column d c then some a else rest

-- The column that has a label.
abbrev pub labelled : String → List (String × JoinedColumn) → Option JoinedColumn
labelled label [] = none
labelled label ((l, c) ∷ columns) =
    let rest = labelled label columns in if l == label then some c else rest

-- A text is the inserted one, where one was given; else it is the column's default.
abbrev pub IsInserted : Option String → String → Type 0
IsInserted none new = Unit
IsInserted (some value) new = new ≡ value

-- What a column holds after the update of a row that was there: what SET assigns to it, and what it
-- held before if SET does not name it.
abbrev pub IsUpdated : List (MetadataColumn × String) → Option SetValue → String → String → Type 0
IsUpdated values none old new = new ≡ old
IsUpdated values (some (SetValue.excluded c)) old new = IsInserted (entry_of c values) new
IsUpdated values (some SetValue.now) old new = Unit

-- The texts of the row of a name after an upsert, from those before.
abbrev pub IsUpserted : Upsert → Option (String × String) → String × String → Type 0
IsUpserted u none (description, source_sql) =
    IsInserted (entry_of MetadataColumn.description_column u.values) description
    × IsInserted (entry_of MetadataColumn.source_sql_column u.values) source_sql
IsUpserted u (some (old_description, old_sql)) (description, source_sql) =
    IsUpdated u.values (entry_of MetadataColumn.description_column u.set) old_description
      description
    × IsUpdated u.values (entry_of MetadataColumn.source_sql_column u.set) old_sql source_sql

-- The conflict is on the name, the name of the row is given, and SET leaves it.
pub record UpsertsName (u : Upsert) (name : String) : Type 0 where
  pub conflict : u.index_elements ≡ MetadataColumn.name_column ∷ []
  pub given : entry_of MetadataColumn.name_column u.values ≡ some name
  pub kept : entry_of MetadataColumn.name_column u.set ≡ none

-- The labels of a metadata row stand for the columns of these names.
pub record LabelsTexts (q : MetadataSelect) : Type 0 where
  pub name :
      labelled "name" q.columns ≡ some (JoinedColumn.view_table_column MetadataColumn.name_column)
  pub description :
      labelled "description" q.columns
      ≡ some (JoinedColumn.view_table_column MetadataColumn.description_column)
  pub source_sql :
      labelled "source_sql" q.columns
      ≡ some (JoinedColumn.view_table_column MetadataColumn.source_sql_column)
