-- ===== src/Repository/Database.antt =====
-- PostgreSQL behind SQLAlchemy's sessions: the statements that the repository executes, and what
-- their documentation says of them. `data` is what is committed or visible in the transaction,
-- `metadata` the rows of the table `analytics_view_tables`, a description and a text to each name.
use live_data_architecture.Base.{
  ℕ, String, ◌≡◌, ◌≢◌, ◌⊎◌, Bool, true, Option, none, some, List, map, All, contains,
}
use live_data_architecture.Base.Results.{ok, err}
use live_data_architecture.Explore.Select.{SelectStatement}
use live_data_architecture.Base.Action.{Action}
use live_data_architecture.Repository.Sql.{
  read_only_sql, build_create_view_table_sql, build_grant_view_table_sql, build_drop_view_table_sql,
}
use live_data_architecture.Repository.Rows.{Scalars, DatabaseScalar, MetadataRow}
use live_data_architecture.Repository.Metadata.{MetadataColumn, Upsert, Delete, MetadataSelect}
use live_data_architecture.Repository.Semantics.{IsUpserted, UpsertsName, LabelsTexts}
use Prim.Native.String

-- `SQLAlchemyError`
pub data SqlError : Type 0 where
  sqlalchemy_error : SqlError

-- The two session factories.
pub data Session : Type 0 where
  reader manager : Session

-- A text with its parameter `row_limit`, a SELECT of SQLAlchemy Core, and the changes of the
-- metadata.
pub data Statement : Type 0 where
  text : String → Option ℕ → Statement
  core_select : SelectStatement → Statement
  upsert_metadata : Upsert → Statement
  delete_metadata : Delete → Statement

pub record ResultSet (S : Scalars) : Type 0 where
  pub keys : List String
  pub mappings : List (List (String × DatabaseScalar S))

pub record Database (S : Scalars) : Type 1 where
  pub State : Type 0
  pub Data : Type 0
  pub data_of : State → Data
  pub metadata : Data → String → Option (String × String)
  -- The running transaction is read-only.
  pub read_only : State → Bool
  pub execute : Session → Statement → Action State SqlError (ResultSet S)
  -- A query of the metadata, with what its rows have under the labels that the repository reads.
  pub select_metadata : Session → MetadataSelect → Action State SqlError (List MetadataRow)
  -- `SELECT current_user` with `scalar_one`
  pub current_user : Session → Action State SqlError String
  -- `session.begin()` around a block: a failure rolls back, whether of the block or of the commit.
  pub begin : {A : Type 0} → Session → Action State SqlError A → Action State SqlError A
  pub begin-err :
      {A : Type 0} (session : Session) (m : Action State SqlError A) (s s' : State) (e : SqlError)
      → begin session m s ≡ (err e, s')
      → data_of s' ≡ data_of s
  pub begin-ok :
      {A : Type 0} (session : Session) (m : Action State SqlError A) (s s' : State) (a : A)
      → begin session m s ≡ (ok a, s')
      → (s₀ : State) × (s₁ : State) × (data_of s₀ ≡ data_of s)
        × (m s₀ ≡ (ok a, s₁))
        × (data_of s' ≡ data_of s₁)
  pub read_only-set :
      (session : Session) (s s' : State) (r : ResultSet S)
      → execute session (Statement.text read_only_sql none) s ≡ (ok r, s')
      → (read_only s' ≡ true) × (data_of s' ≡ data_of s)
  pub read_only-set_local :
      (session : Session) (setting : String) (s s' : State) (r : ResultSet S)
      → read_only s ≡ true
      → execute session (Statement.text (String.◌++◌ "SET LOCAL " setting) none) s ≡ (ok r, s')
      → read_only s' ≡ true
  pub read_only-keeps :
      (session : Session) (statement : Statement) (s s' : State) (r : ResultSet S)
      → read_only s ≡ true
      → execute session statement s ≡ (ok r, s')
      → data_of s' ≡ data_of s
  pub create_view-metadata :
      (session : Session) (name source_sql : String) (s s' : State) (r : ResultSet S)
      → execute session (Statement.text (build_create_view_table_sql name source_sql) none) s
        ≡ (ok r, s')
      → metadata (data_of s') ≡ metadata (data_of s)
  pub grant-metadata :
      (session : Session) (name role : String) (s s' : State) (r : ResultSet S)
      → execute session (Statement.text (build_grant_view_table_sql name role) none) s ≡ (ok r, s')
      → metadata (data_of s') ≡ metadata (data_of s)
  pub drop_view-metadata :
      (session : Session) (name : String) (s s' : State) (r : ResultSet S)
      → execute session (Statement.text (build_drop_view_table_sql name) none) s ≡ (ok r, s')
      → metadata (data_of s') ≡ metadata (data_of s)
  pub upsert-metadata :
      (session : Session) (u : Upsert) (name : String) (s s' : State) (r : ResultSet S)
      → execute session (Statement.upsert_metadata u) s ≡ (ok r, s')
      → UpsertsName u name
      → ((texts : String × String) × (metadata (data_of s') name ≡ some texts)
          × IsUpserted u (metadata (data_of s) name) texts)
        × ((other : String)
            → other ≢ name
            → metadata (data_of s') other ≡ metadata (data_of s) other)
  pub delete-metadata :
      (session : Session) (d : Delete) (name : String) (s s' : State) (r : ResultSet S)
      → execute session (Statement.delete_metadata d) s ≡ (ok r, s')
      → d.where_equal ≡ some (MetadataColumn.name_column, name)
      → (metadata (data_of s') name ≡ none)
        × ((other : String)
            → other ≢ name
            → metadata (data_of s') other ≡ metadata (data_of s) other)
  pub select-data :
      (session : Session) (q : MetadataSelect) (s : State)
      → data_of (select_metadata session q s).1 ≡ data_of s
  pub select-rows :
      (session : Session) (q : MetadataSelect) (s s' : State) (rows : List MetadataRow)
      → select_metadata session q s ≡ (ok rows, s')
      → LabelsTexts q
      → All (λ row. metadata (data_of s) row.name ≡ some (row.description, row.source_sql)) rows
  pub select-named :
      (session : Session) (q : MetadataSelect) (name : String) (s s' : State)
      (rows : List MetadataRow)
      → select_metadata session q s ≡ (ok rows, s')
      → LabelsTexts q
      → q.where_equal ≡ some (MetadataColumn.name_column, name)
      → All (λ row. row.name ≡ name) rows
  -- Where the join is an outer one, a view table without columns has a row too.
  pub select-finds :
      (session : Session) (q : MetadataSelect) (s s' : State) (rows : List MetadataRow) (n : String)
      (texts : String × String)
      → select_metadata session q s ≡ (ok rows, s')
      → LabelsTexts q
      → q.is_outer ≡ true
      → (q.where_equal ≡ none) ⊎ (q.where_equal ≡ some (MetadataColumn.name_column, n))
      → metadata (data_of s) n ≡ some texts
      → contains (map (λ row. row.name) rows) n ≡ true
  pub current_user-data :
      (session : Session) (s : State) → data_of (current_user session s).1 ≡ data_of s
