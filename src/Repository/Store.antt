-- ===== src/Repository/Store.antt =====
-- A database of view table metadata that keeps what it is told: the laws hold of it.
mod Rows
pub use live_data_architecture.Repository.Store.Rows.{plain_scalars, Entries, Store}
use live_data_architecture.Base.{
  some-injective, String, ◌≡◌, ◌≢◌, ◌⊎◌, inl, inr, refl, sym, ap, ◌∙◌, subst, Bool, true, false,
  ◌||◌, Option, none, some, List, [], ◌∷◌, ◌++◌, map, arith, All, All-append, contains,
  contains-append, ◌==◌, eq_iff, eq_refl, if◌then◌else◌, Bool-cases,
}
use live_data_architecture.Base.Results.{err-not-ok, Result, ok, err, ok-injective}
use live_data_architecture.Repository.Sql.{read_only_sql}
use live_data_architecture.Repository.Rows.{Scalars, MetadataRow}
use live_data_architecture.Repository.Metadata.{MetadataColumn, Upsert, Delete}
use live_data_architecture.Repository.Semantics.{entry_of}
use live_data_architecture.Repository.Database.{SqlError, Statement, ResultSet, Database}
use live_data_architecture.Repository.Store.Rows.{
  find_entry, without, without-none, differ_lem, without-other, empty_result, change, run, row_of,
  rows_of, select, upserted_texts, upsert_at, delete_where, upserted_texts-IsUpserted, settle,
  fresh, AreTrue, row_of-AreTrue, rows_of-AreTrue, names, row_of-finds, names-append,
  contains-names, rows_of-finds,
}

ok-not-err : {A : Type 0} {e : SqlError} {a : A} → ◌≡◌ {A = Result SqlError A} (ok a) (err e) → ⊥
ok-not-err h = cc

abbrev Kept : Store → Result SqlError (ResultSet plain_scalars) × Store → Type 0
Kept s (err e, t) = Unit
Kept s (ok r, t) = t.entries ≡ s.entries

change-refused : (s : Store) (entries : Entries) → s.is_read_only ≡ true → Kept s (change s entries)
change-refused s entries h = rw h tt

upsert_at-Kept :
    (u : Upsert) (s : Store) (n : Option String) → s.is_read_only ≡ true → Kept s (upsert_at u s n)
upsert_at-Kept u s none h = tt
upsert_at-Kept u s (some n) h =
    change-refused s ((n, upserted_texts u (find_entry s.entries n)) ∷ s.entries) h

delete_where-Kept :
    (s : Store) (w : Option (MetadataColumn × String))
    → s.is_read_only ≡ true
    → Kept s (delete_where s w)
delete_where-Kept s none h = change-refused s [] h
delete_where-Kept s (some (MetadataColumn.name_column, n)) h =
    change-refused s (without s.entries n) h
delete_where-Kept s (some (MetadataColumn.description_column, n)) h = tt
delete_where-Kept s (some (MetadataColumn.source_sql_column, n)) h = tt
delete_where-Kept s (some (MetadataColumn.updated_at_column, n)) h = tt

pub run-Kept :
    (s : Store) (statement : Statement) → s.is_read_only ≡ true → Kept s (run statement s)
run-Kept s (Statement.text sql k) h = refl
run-Kept s (Statement.core_select q) h = refl
run-Kept s (Statement.upsert_metadata u) h =
    upsert_at-Kept u s (entry_of MetadataColumn.name_column u.values) h
run-Kept s (Statement.delete_metadata d) h = delete_where-Kept s d.where_equal h

abbrev ChangesTo : Entries → Result SqlError (ResultSet plain_scalars) × Store → Type 0
ChangesTo entries (err e, t) = Unit
ChangesTo entries (ok r, t) = t.entries ≡ entries

pub change-ChangesTo : (s : Store) (entries : Entries) → ChangesTo entries (change s entries)
change-ChangesTo s entries = elim (Bool-cases s.is_read_only) [
  | inl t ↦ rw t tt
  | inr f ↦ rw f refl
]

pub row_of-named :
    (n : String) (texts : Option (String × String))
    → All (λ (row : MetadataRow). row.name ≡ n) (row_of n texts)
row_of-named n none = tt
row_of-named n (some (d, q)) = (refl, tt)

pub select-AreTrue :
    (w : Option (MetadataColumn × String)) (s : Store) → AreTrue s.entries (select w s)
select-AreTrue none s = rows_of-AreTrue s.entries s.entries
select-AreTrue (some (MetadataColumn.name_column, n)) s =
    row_of-AreTrue s.entries n (find_entry s.entries n) refl
select-AreTrue (some (MetadataColumn.description_column, n)) s = tt
select-AreTrue (some (MetadataColumn.source_sql_column, n)) s = tt
select-AreTrue (some (MetadataColumn.updated_at_column, n)) s = tt

pub select-finds :
    (w : Option (MetadataColumn × String)) (s : Store) (n : String) (texts : String × String)
    → (w ≡ none) ⊎ (w ≡ some (MetadataColumn.name_column, n))
    → find_entry s.entries n ≡ some texts
    → contains (names (select w s)) n ≡ true
select-finds w s n texts (inl h) k =
    subst (λ v. contains (names (select v s)) n ≡ true) (sym h)
      (rows_of-finds s.entries s.entries n texts texts k k)
select-finds w s n texts (inr h) k =
    subst (λ v. contains (names (select v s)) n ≡ true) (sym h)
      (row_of-finds n (find_entry s.entries n) texts k)

-- The outcome of an upsert or a delete whose name is known.
pub upsert_at-ChangesTo :
    (u : Upsert) (s : Store) (n : String)
    → entry_of MetadataColumn.name_column u.values ≡ some n
    → ChangesTo
        ((n, upserted_texts u (find_entry s.entries n)) ∷ s.entries)
        (run (Statement.upsert_metadata u) s)
upsert_at-ChangesTo u s n h =
    subst
      (λ v.
        ChangesTo ((n, upserted_texts u (find_entry s.entries n)) ∷ s.entries) (upsert_at u s v))
      (sym h) (change-ChangesTo s _)

pub delete_where-ChangesTo :
    (d : Delete) (s : Store) (n : String)
    → d.where_equal ≡ some (MetadataColumn.name_column, n)
    → ChangesTo (without s.entries n) (run (Statement.delete_metadata d) s)
delete_where-ChangesTo d s n h =
    subst (λ v. ChangesTo (without s.entries n) (delete_where s v)) (sym h) (change-ChangesTo s _)

pub settled :
    {A : Type 0} (s : Store) (x : Result SqlError A × Store) (t : Store) (a : A)
    → settle s x ≡ (ok a, t)
    → (u : Store) × (x ≡ (ok a, u)) × (t.entries ≡ u.entries)
settled s (err e, u) t a h = absurd (err-not-ok (ap (λ x. x.0) h))
settled s (ok b, u) t a h = (
  u,
  ap (λ (x : Result SqlError _ × Store). (x.0, u)) h,
  sym (ap (λ (x : Result SqlError _ × Store). x.1.entries) h),
)

pub rolled_back :
    {A : Type 0} (s : Store) (x : Result SqlError A × Store) (t : Store) (e : SqlError)
    → settle s x ≡ (err e, t)
    → t ≡ s
rolled_back s (err e', u) t e h = sym (ap (λ (x : Result SqlError _ × Store). x.1) h)
rolled_back s (ok a, u) t e h = absurd (ok-not-err (ap (λ x. x.0) h))

pub answer_state :
    {A : Type 0} {x y : Result SqlError A} {s t : Store}
    → ◌≡◌ {A = Result SqlError A × Store} (x, s) (y, t)
    → s ≡ t
answer_state h = ap (λ x. x.1) h

pub answer_value :
    {A : Type 0} {a b : A} {s t : Store}
    → ◌≡◌ {A = Result SqlError A × Store} (ok a, s) (ok b, t)
    → a ≡ b
answer_value h = ok-injective (ap (λ x. x.0) h)

abbrev pub store_database : Database plain_scalars
store_database = record {
  State = Store;
  Data = Entries;
  data_of = λ s. s.entries;
  metadata = find_entry;
  read_only = λ s. s.is_read_only;
  execute = λ session statement s. run statement s;
  select_metadata = λ session q s. (ok (select q.where_equal s), s);
  current_user = λ session s. (ok "analytics_reader", s);
  begin = λ session m s. settle s (m (fresh s));
  begin-err = λ session m s s' e h. ap (λ t. t.entries) (rolled_back s (m (fresh s)) s' e h);
  begin-ok = λ session m s s' a h.
      let (u, same, kept) = settled s (m (fresh s)) s' a h in (fresh s, u, refl, same, kept);
  read_only-set = λ session s s' r h.
      subst (λ (t : Store). (t.is_read_only ≡ true) × (t.entries ≡ s.entries)) (answer_state h)
        (ground (arith, eq_refl read_only_sql), refl);
  read_only-set_local = λ session setting s s' r h k.
      subst (λ (t : Store). t.is_read_only ≡ true) (answer_state k) (rw h refl);
  read_only-keeps = λ session statement s s' r h k. subst (Kept s) k (run-Kept s statement h);
  create_view-metadata =
      λ session name q s s' r h. ap (λ (t : Store). find_entry t.entries) (sym (answer_state h));
  grant-metadata =
      λ session name role s s' r h. ap (λ (t : Store). find_entry t.entries) (sym (answer_state h));
  drop_view-metadata =
      λ session name s s' r h. ap (λ (t : Store). find_entry t.entries) (sym (answer_state h));
  upsert-metadata = λ session u n s s' r h v.
      let texts = upserted_texts u (find_entry s.entries n) in
      let k = subst (ChangesTo ((n, texts) ∷ s.entries)) h (upsert_at-ChangesTo u s n v.given) in
      (
        (
          texts,
          ap (λ l. find_entry l n) k ∙ rw (eq_refl n) refl,
          upserted_texts-IsUpserted u (find_entry s.entries n),
        ),
        λ other ne. ap (λ l. find_entry l other) k ∙ rw (differ_lem n n other (eq_refl n) ne) refl,
      );
  delete-metadata = λ session d n s s' r h v.
      let k = subst (ChangesTo (without s.entries n)) h (delete_where-ChangesTo d s n v) in
      (
        ap (λ l. find_entry l n) k ∙ without-none s.entries n,
        λ other ne. ap (λ l. find_entry l other) k ∙ without-other s.entries n other ne,
      );
  select-data = λ session q s. refl;
  select-rows = λ session q s s' rows h labels.
      subst (AreTrue s.entries) (answer_value h) (select-AreTrue q.where_equal s);
  select-named = λ session q name s s' rows h labels w.
      subst (All (λ (row : MetadataRow). row.name ≡ name)) (answer_value h) (
        subst (λ v. All (λ (row : MetadataRow). row.name ≡ name) (select v s)) (sym w)
          (row_of-named name (find_entry s.entries name)));
  select-finds = λ session q s s' rows n texts h labels outer k l.
      subst (λ l. contains (names l) n ≡ true) (answer_value h)
        (select-finds q.where_equal s n texts k l);
  current_user-data = λ session s. refl;
}
