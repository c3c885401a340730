-- ===== src/Repository/Saving.antt =====
-- Saving and deleting a view table: all or nothing, and what was saved is read back.

pub mod Texts
use live_data_architecture.Base.{
  some-injective, String, ◌≡◌, ◌≢◌, ◌⊎◌, inl, inr, refl, sym, ap, ◌∙◌, subst, Bool, true, Option,
  none, some, List, [], ◌∷◌, ◌++◌, map, All, contains, eq_iff,
}
use live_data_architecture.Base.Results.{Result, ok, err, ok-injective}
use live_data_architecture.Catalog.{AnalyticsDatasetColumn, AnalyticsViewTable}
use live_data_architecture.Base.Action.{after, ◌>>=◌, after-eq-ok}
use live_data_architecture.Repository.Sql.{
  build_create_view_table_sql, build_grant_view_table_sql, build_drop_view_table_sql,
}
use live_data_architecture.Repository.Rows.{
  Scalars, MetadataRow, ViewTableAccumulator, row_columns, add_row, add_rows, view_table_of,
  view_tables_of_rows,
}
use live_data_architecture.Repository.Metadata.{
  build_upsert_view_table_metadata_statement, build_delete_view_table_metadata_statement,
  build_view_table_metadata_select_statement,
}
use live_data_architecture.Repository.Semantics.{IsUpserted, UpsertsName, LabelsTexts}
use live_data_architecture.Repository.Database.{SqlError, Session, Statement, Database}
use live_data_architecture.Repository.Methods.{
  RepositoryError, management, wrapped, or_execution_error, load_view_tables, save_view_table,
  first_view_table, create_or_replace_view_table, drop_view_table, delete_view_table,
}
use live_data_architecture.Repository.Saving.Texts.{HasTexts, rows-HasTexts}

upsert-UpsertsName :
    (name description source_sql : String)
    → UpsertsName (build_upsert_view_table_metadata_statement name description source_sql) name
unfolding build_upsert_view_table_metadata_statement
upsert-UpsertsName name description source_sql = record {
  conflict = refl;
  given = refl;
  kept = refl;
}

-- The upsert leaves the texts that it was given, whether the name was there or not.
upserted_texts :
    (name description source_sql : String) (before : Option (String × String))
    (texts : String × String)
    → IsUpserted
        (build_upsert_view_table_metadata_statement name description source_sql)
        before
        texts
    → texts ≡ (description, source_sql)
unfolding build_upsert_view_table_metadata_statement
upserted_texts name description source_sql none (d, q) (hd, hq) = cc
upserted_texts name description source_sql (some (old, old_sql)) (d, q) (hd, hq) = cc

select-LabelsTexts :
    (name : String) → LabelsTexts (build_view_table_metadata_select_statement (some name))
unfolding build_view_table_metadata_select_statement
select-LabelsTexts name = record { name = refl; description = refl; source_sql = refl }

module _ (S : Scalars) (D : Database S) (lower : String → String) (has_management : Bool) where
  open D use {State, Data, data_of, metadata}

  -- The metadata of `after` are those of `before`, but for one name.
  pub record Sets (before after : Data) (name : String) (texts : Option (String × String))
      : Type 0 where
    pub here : metadata after name ≡ texts
    pub elsewhere : (other : String) → other ≢ name → metadata after other ≡ metadata before other

  saved_lem :
      (name description source_sql role : String) (s s' : State) (tables : List AnalyticsViewTable)
      → save_view_table S D lower has_management name description source_sql role s
        ≡ (ok tables, s')
      → (table : AnalyticsViewTable) × (tables ≡ table ∷ [])
        × HasTexts lower name description source_sql table
        × Sets (data_of s) (data_of s') name (some (description, source_sql))
  unfolding load_view_tables build_view_table_metadata_select_statement
  saved_lem name description source_sql role s s' tables e =
      let session = management S D lower has_management in
      let (r₁, s₁, created, e₁) =
        after-eq-ok
          (D.execute session (Statement.text (build_create_view_table_sql name source_sql) none) s)
          _ e in
      let (r₂, s₂, granted, e₂) =
        after-eq-ok
          (D.execute session (Statement.text (build_grant_view_table_sql name role) none) s₁) _
          e₁ in
      let (r₃, s₃, upserted, e₃) =
        after-eq-ok
          (D.execute session
            (Statement.upsert_metadata
              (build_upsert_view_table_metadata_statement name description source_sql))
            s₂)
          _ e₂ in
      let q = build_view_table_metadata_select_statement (some name) in
      let (rows, s₄, selected, e₄) = after-eq-ok (D.select_metadata session q s₃) _ e₃ in
      let final : s₄ ≡ s' =
        ap (λ (x : Result SqlError (List AnalyticsViewTable) × State). x.1) e₄ in
      let listed : view_tables_of_rows lower rows ≡ tables =
        ok-injective (ap (λ (x : Result SqlError (List AnalyticsViewTable) × State). x.0) e₄) in
      let unchanged : metadata (data_of s₂) ≡ metadata (data_of s) =
        D.grant-metadata session name role s₁ s₂ r₂ granted
        ∙ D.create_view-metadata session name source_sql s s₁ r₁ created in
      let ((texts_after, found, inserted), others) =
        D.upsert-metadata session _ name s₂ s₃ r₃ upserted
          (upsert-UpsertsName name description source_sql) in
      let here =
        found ∙ ap some (upserted_texts name description source_sql _ texts_after inserted) in
      let at_end : data_of s' ≡ data_of s₃ =
        ap data_of (sym final)
        ∙ ap (λ (x : Result SqlError (List MetadataRow) × State). data_of x.1) (sym selected)
        ∙ D.select-data session q s₃ in
      let (table, one, texts) =
        rows-HasTexts lower (metadata (data_of s₃)) name description source_sql rows here
          (D.select-named session q name s₃ s₄ rows selected (select-LabelsTexts name) refl)
          (D.select-rows session q s₃ s₄ rows selected (select-LabelsTexts name))
          (D.select-finds session q s₃ s₄ rows name (description, source_sql) selected
            (select-LabelsTexts name) refl (inr refl) here) in
      (
        table,
        sym listed ∙ one,
        texts,
        record {
          here = ap (λ d. metadata d name) at_end ∙ here;
          elsewhere = λ other n.
              ap (λ d. metadata d other) at_end ∙ others other n ∙ ap (λ m. m other) unchanged;
        },
      )

  -- Either nothing was saved and the error is the database's, or the answer is a table with these
  -- texts, and they are the metadata of that name alone.
  abbrev pub SavedOrNot :
      String → String → String → State → Result RepositoryError AnalyticsViewTable × State → Type 0
  SavedOrNot name description source_sql s x =
      ((s' : State) × (x ≡ (err RepositoryError.execution_error, s')) × (data_of s' ≡ data_of s))
      ⊎ ((table : AnalyticsViewTable) × (s' : State) × (x ≡ (ok table, s'))
          × HasTexts lower name description source_sql table
          × Sets (data_of s) (data_of s') name (some (description, source_sql)))

  begun_save :
      (name description source_sql role : String) (s s₁ : State)
      (x : Result SqlError (List AnalyticsViewTable) × State)
      → data_of s₁ ≡ data_of s
      → D.begin
          (management S D lower has_management)
          (save_view_table S D lower has_management name description source_sql role)
          s₁
        ≡ x
      → SavedOrNot name description source_sql s
          (after (wrapped S D lower has_management x) (first_view_table S D lower has_management))
  begun_save name description source_sql role s s₁ (err e, s₂) same h =
      inl (s₂, refl, D.begin-err _ _ s₁ s₂ e h ∙ same)
  begun_save name description source_sql role s s₁ (ok tables, s₂) same h =
      let (t₀, t₁, start, run, end) = D.begin-ok _ _ s₁ s₂ tables h in
      let (table, one, texts, sets) = saved_lem name description source_sql role t₀ t₁ tables run in
      inr (
        table,
        s₂,
        ap
            (λ ts.
              after (wrapped S D lower has_management (ok ts, s₂))
                (first_view_table S D lower has_management))
            one,
        texts,
        record {
          here = ap (λ d. metadata d name) end ∙ sets.here;
          elsewhere = λ other n.
              ap (λ d. metadata d other) end
              ∙ sets.elsewhere other n
              ∙ ap (λ d. metadata d other) (start ∙ same);
        },
      )

  role_read :
      (name description source_sql : String) (s : State) (x : Result SqlError String × State)
      → data_of x.1 ≡ data_of s
      → SavedOrNot name description source_sql s (
          after (wrapped S D lower has_management x) (λ role.
            or_execution_error S D lower has_management (
              D.begin
                (management S D lower has_management)
                (save_view_table S D lower has_management name description source_sql role))
            >>= first_view_table S D lower has_management))
  role_read name description source_sql s (err e, s₁) same = inl (s₁, refl, same)
  role_read name description source_sql s (ok role, s₁) same =
      begun_save name description source_sql role s s₁ _ same refl

  -- `create_or_replace_view_table` either raises the execution error and leaves the data as it was,
  -- or returns a view table with the name, the description and the text that it was given, which are
  -- then the metadata of that name, with the metadata of other names as they were. So it does not
  -- find the list of loaded tables empty.
  pub create_or_replace_saves :
      (name description source_sql : String) (s : State)
      → SavedOrNot name description source_sql s
          (create_or_replace_view_table S D lower has_management name description source_sql s)
  unfolding create_or_replace_view_table
  create_or_replace_saves name description source_sql s =
      role_read name description source_sql s (D.current_user Session.reader s)
        (D.current_user-data Session.reader s)

  dropped_lem :
      (name : String) (s s' : State)
      → drop_view_table S D lower has_management name s ≡ (ok tt, s')
      → Sets (data_of s) (data_of s') name none
  unfolding build_delete_view_table_metadata_statement
  dropped_lem name s s' e =
      let session = management S D lower has_management in
      let (r₁, s₁, dropped, e₁) =
        after-eq-ok (D.execute session (Statement.text (build_drop_view_table_sql name) none) s) _
          e in
      let (r₂, s₂, deleted, e₂) =
        after-eq-ok
          (D.execute session
            (Statement.delete_metadata (build_delete_view_table_metadata_statement name)) s₁)
          _ e₁ in
      let final : s₂ ≡ s' = ap (λ (x : Result SqlError (Unit {0}) × State). x.1) e₂ in
      let unchanged = D.drop_view-metadata session name s s₁ r₁ dropped in
      let (here, others) = D.delete-metadata session _ name s₁ s₂ r₂ deleted refl in
      subst (λ t. Sets (data_of s) (data_of t) name none) final
        (record {
          here = here;
          elsewhere = λ other n. others other n ∙ ap (λ m. m other) unchanged;
        })

  begun_drop :
      (name : String) (s : State) (x : Result SqlError (Unit {0}) × State)
      → D.begin
          (management S D lower has_management)
          (drop_view_table S D lower has_management name)
          s
        ≡ x
      → ((s' : State) × (wrapped S D lower has_management x
            ≡ (err RepositoryError.execution_error, s'))
          × (data_of s' ≡ data_of s))
        ⊎ ((s' : State) × (wrapped S D lower has_management x ≡ (ok tt, s'))
            × Sets (data_of s) (data_of s') name none)
  begun_drop name s (err e, s₁) h = inl (s₁, refl, D.begin-err _ _ s s₁ e h)
  begun_drop name s (ok tt, s₁) h =
      let (t₀, t₁, start, run, end) = D.begin-ok _ _ s s₁ tt h in
      let sets = dropped_lem name t₀ t₁ run in
      inr (
        s₁,
        refl,
        record {
          here = ap (λ d. metadata d name) end ∙ sets.here;
          elsewhere = λ other n.
              ap (λ d. metadata d other) end
              ∙ sets.elsewhere other n
              ∙ ap (λ d. metadata d other) start;
        },
      )

  -- `delete_view_table` either raises the execution error and leaves the data as it was, or removes
  -- the metadata of that name and of no other.
  pub delete_view_table_removes :
      (name : String) (s : State)
      → ((s' : State) × (delete_view_table S D lower has_management name s
            ≡ (err RepositoryError.execution_error, s'))
          × (data_of s' ≡ data_of s))
        ⊎ ((s' : State) × (delete_view_table S D lower has_management name s ≡ (ok tt, s'))
            × Sets (data_of s) (data_of s') name none)
  unfolding delete_view_table
  delete_view_table_removes name s = begun_drop name s _ refl
