-- ===== src/Repository/Store/Rows.antt =====
-- The entries of the database and the rows that the metadata query finds of them.
use live_data_architecture.Base.{
  String, ◌≡◌, ◌≢◌, inl, inr, refl, sym, ap, ◌∙◌, subst, Bool, true, false, ◌||◌, Option, none,
  some, List, [], ◌∷◌, ◌++◌, map, arith, All, All-append, contains, contains-append, ◌==◌, eq_iff,
  eq_refl, if◌then◌else◌, Bool-cases,
}
use live_data_architecture.Base.Results.{Result, ok, err}
use live_data_architecture.Repository.Sql.{read_only_sql}
use live_data_architecture.Repository.Rows.{Scalars, MetadataRow}
use live_data_architecture.Repository.Metadata.{MetadataColumn, SetValue, Upsert}
use live_data_architecture.Repository.Semantics.{entry_of, IsInserted, IsUpdated, IsUpserted}
use live_data_architecture.Repository.Database.{SqlError, Statement, ResultSet}

abbrev pub plain_scalars : Scalars
plain_scalars = record {
  Decimal = String;
  Datetime = String;
  Date = String;
  float_of = λ s. s;
  datetime_isoformat = λ s. s;
  date_isoformat = λ s. s;
}

abbrev pub Entries : Type 0
Entries = List (String × (String × String))

pub record Store : Type 0 where
  pub entries : Entries
  pub is_read_only : Bool

abbrev pub find_entry : Entries → String → Option (String × String)
find_entry [] n = none
find_entry ((m, texts) ∷ entries) n =
    let rest = find_entry entries n in if m == n then some texts else rest

abbrev pub without : Entries → String → Entries
without [] n = []
without ((m, texts) ∷ entries) n =
    let rest = without entries n in if m == n then rest else (m, texts) ∷ rest

pub without-none : (entries : Entries) (n : String) → find_entry (without entries n) n ≡ none
without-none [] n = refl
without-none ((m, texts) ∷ entries) n = ground (arith, without-none entries n)

pub differ_lem : (m n other : String) → (m == n) ≡ true → other ≢ n → (m == other) ≡ false
differ_lem m n other t h = elim (Bool-cases (m == other)) [
  | inl u ↦ absurd (h (sym ((eq_iff m other).0 u) ∙ (eq_iff m n).0 t))
  | inr f ↦ f
]

pub without-other :
    (entries : Entries) (n other : String)
    → other ≢ n
    → find_entry (without entries n) other ≡ find_entry entries other
without-other [] n other h = refl
without-other ((m, texts) ∷ entries) n other h = elim (Bool-cases (m == n)) [
  | inl t ↦
      let differs : (m == other) ≡ false = differ_lem m n other t h in
      rw (t, differs) (without-other entries n other h)
  | inr f ↦ rw f (ground (arith, without-other entries n other h))
]

abbrev pub empty_result : ResultSet plain_scalars
empty_result = record { keys = []; mappings = [] }

abbrev pub change : Store → Entries → Result SqlError (ResultSet plain_scalars) × Store
change s entries =
    if s.is_read_only
    then (err SqlError.sqlalchemy_error, s)
    else (ok empty_result, record s { entries = entries })

abbrev refuse : Store → Result SqlError (ResultSet plain_scalars) × Store
refuse s = (err SqlError.sqlalchemy_error, s)

-- A value that is not given is the empty text.
abbrev pub inserted_text : Option String → String
inserted_text none = ""
inserted_text (some value) = value

abbrev pub updated_text : List (MetadataColumn × String) → Option SetValue → String → String
updated_text values none old = old
updated_text values (some (SetValue.excluded c)) old = inserted_text (entry_of c values)
updated_text values (some SetValue.now) old = "2026-04-24"

abbrev pub upserted_texts : Upsert → Option (String × String) → String × String
upserted_texts u none = (
  inserted_text (entry_of MetadataColumn.description_column u.values),
  inserted_text (entry_of MetadataColumn.source_sql_column u.values),
)
upserted_texts u (some (description, source_sql)) = (
  updated_text u.values (entry_of MetadataColumn.description_column u.set) description,
  updated_text u.values (entry_of MetadataColumn.source_sql_column u.set) source_sql,
)

-- An insert without a name is refused.
abbrev pub upsert_at :
    Upsert → Store → Option String → Result SqlError (ResultSet plain_scalars) × Store
upsert_at u s none = refuse s
upsert_at u s (some n) = change s ((n, upserted_texts u (find_entry s.entries n)) ∷ s.entries)

-- Rows are deleted all or by name.
abbrev pub delete_where :
    Store → Option (MetadataColumn × String) → Result SqlError (ResultSet plain_scalars) × Store
delete_where s none = change s []
delete_where s (some (MetadataColumn.name_column, n)) = change s (without s.entries n)
delete_where s (some _) = refuse s

abbrev pub run : Statement → Store → Result SqlError (ResultSet plain_scalars) × Store
run (Statement.text sql k) s =
    (ok empty_result, record s { is_read_only = s.is_read_only || (sql == read_only_sql) })
run (Statement.core_select q) s = (ok empty_result, s)
run (Statement.upsert_metadata u) s = upsert_at u s (entry_of MetadataColumn.name_column u.values)
run (Statement.delete_metadata d) s = delete_where s d.where_equal

abbrev pub row_of : String → Option (String × String) → List MetadataRow
row_of n none = []
row_of n (some (d, q)) =
    record {
      name = n;
      description = d;
      source_sql = q;
      column_name = some "amount";
      data_type = some "numeric";
    }
    ∷ []

abbrev pub rows_of : Entries → Entries → List MetadataRow
rows_of all [] = []
rows_of all ((n, texts) ∷ entries) = row_of n (find_entry all n) ++ rows_of all entries

-- Rows are selected all or by name, as in an outer join.
abbrev pub select : Option (MetadataColumn × String) → Store → List MetadataRow
select none s = rows_of s.entries s.entries
select (some (MetadataColumn.name_column, n)) s = row_of n (find_entry s.entries n)
select (some _) s = []

abbrev pub settle : {A : Type 0} → Store → Result SqlError A × Store → Result SqlError A × Store
settle s (err e, t) = (err e, s)
settle s (ok a, t) = (ok a, record t { is_read_only = false })

abbrev pub fresh : Store → Store
fresh s = record s { is_read_only = false }

abbrev pub AreTrue : Entries → List MetadataRow → Type 0
AreTrue entries = All (λ row. find_entry entries row.name ≡ some (row.description, row.source_sql))

pub row_of-AreTrue :
    (entries : Entries) (n : String) (texts : Option (String × String))
    → find_entry entries n ≡ texts
    → AreTrue entries (row_of n texts)
row_of-AreTrue entries n none h = tt
row_of-AreTrue entries n (some (d, q)) h = (h, tt)

pub rows_of-AreTrue : (all entries : Entries) → AreTrue all (rows_of all entries)
rows_of-AreTrue all [] = tt
rows_of-AreTrue all ((n, texts) ∷ entries) =
    All-append
      (λ (row : MetadataRow). find_entry all row.name ≡ some (row.description, row.source_sql))
      (row_of n (find_entry all n)) (rows_of all entries)
      (row_of-AreTrue all n (find_entry all n) refl) (rows_of-AreTrue all entries)

abbrev pub names : List MetadataRow → List String
names = map (λ row. row.name)

pub row_of-finds :
    (n : String) (texts : Option (String × String)) (x : String × String)
    → texts ≡ some x
    → contains (names (row_of n texts)) n ≡ true
row_of-finds n none x h = cc
row_of-finds n (some (d, q)) x h = ground (arith, eq_refl n)

pub names-append : (xs ys : List MetadataRow) → names (xs ++ ys) ≡ names xs ++ names ys
names-append [] ys = refl
names-append (x ∷ xs) ys = ap (λ l. x.name ∷ l) (names-append xs ys)

pub contains-names :
    (xs ys : List MetadataRow) (n : String)
    → (contains (names xs) n || contains (names ys) n) ≡ true
    → contains (names (xs ++ ys)) n ≡ true
contains-names xs ys n h =
    ap (λ l. contains l n) (names-append xs ys) ∙ contains-append (names xs) (names ys) n ∙ h

pub rows_of-finds :
    (all entries : Entries) (n : String) (x y : String × String)
    → find_entry entries n ≡ some x
    → find_entry all n ≡ some y
    → contains (names (rows_of all entries)) n ≡ true
rows_of-finds all [] n x y h k = cc
rows_of-finds all ((m, texts) ∷ entries) n x y h k = elim (Bool-cases (m == n)) [
  | inl t ↦
      let here : contains (names (row_of m (find_entry all m))) n ≡ true =
        subst (λ i. contains (names (row_of i (find_entry all i))) n ≡ true)
          (sym ((eq_iff m n).0 t)) (row_of-finds n (find_entry all n) y k) in
      contains-names (row_of m (find_entry all m)) (rows_of all entries) n (rw here refl)
  | inr f ↦
      contains-names (row_of m (find_entry all m)) (rows_of all entries) n
        (ground (arith, rows_of-finds all entries n x y (rw f at h) k))
]

inserted_text-IsInserted : (value : Option String) → IsInserted value (inserted_text value)
inserted_text-IsInserted none = tt
inserted_text-IsInserted (some value) = refl

updated_text-IsUpdated :
    (values : List (MetadataColumn × String)) (set : Option SetValue) (old : String)
    → IsUpdated values set old (updated_text values set old)
updated_text-IsUpdated values none old = refl
updated_text-IsUpdated values (some (SetValue.excluded c)) old =
    inserted_text-IsInserted (entry_of c values)
updated_text-IsUpdated values (some SetValue.now) old = tt

pub upserted_texts-IsUpserted :
    (u : Upsert) (before : Option (String × String)) → IsUpserted u before (upserted_texts u before)
upserted_texts-IsUpserted u none = (inserted_text-IsInserted _, inserted_text-IsInserted _)
upserted_texts-IsUpserted u (some (description, source_sql)) =
    (updated_text-IsUpdated u.values _ description, updated_text-IsUpdated u.values _ source_sql)
