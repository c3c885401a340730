-- ===== src/Ingest/Examples/Table.antt =====
-- A table that keeps the ids of its rows.
use live_data_architecture.Base.{
  ℕ, suc, ◌+◌, ◌≤◌, String, ◌≡◌, refl, ap, subst, Bool, true, false, List, [], ◌∷◌, arith, length,
  All, contains, eq_refl,
}
use live_data_architecture.Base.Results.{Result, ok, ok-injective}
use live_data_architecture.Ingest.Store.{StoreError, EventRecord, EventTable}

abbrev pub add : Bool → String → List String × List String → List String × List String
add true id (ids, s) = (ids, s)
add false id (ids, s) = (id ∷ ids, id ∷ s)

abbrev pub insert : List (EventRecord ℕ ℕ) → List String → List String × List String
insert [] s = ([], s)
insert (row ∷ rows) s =
    let rest = insert rows s in add (contains rest.1 row.event_id) row.event_id rest

add-le :
    (b : Bool) (id : String) (x : List String × List String)
    → length (add b id x).0 ≤ suc (length x.0)
add-le true id x = omega arith
add-le false id x = omega arith

pub insert-le :
    (rows : List (EventRecord ℕ ℕ)) (s : List String) → length (insert rows s).0 ≤ length rows
insert-le [] s = omega arith
insert-le (row ∷ rows) s =
    let rest = insert rows s in
    omega (arith, insert-le rows s, add-le (contains rest.1 row.event_id) row.event_id rest)

add-counts :
    (b : Bool) (id : String) (x : List String × List String) (n : ℕ)
    → length x.1 ≡ n + length x.0
    → length (add b id x).1 ≡ n + length (add b id x).0
add-counts true id x n h = h
add-counts false id x n h = omega (arith, h)

pub insert-counts :
    (rows : List (EventRecord ℕ ℕ)) (s : List String)
    → length (insert rows s).1 ≡ length s + length (insert rows s).0
insert-counts [] s = omega arith
insert-counts (row ∷ rows) s =
    let rest = insert rows s in
    add-counts (contains rest.1 row.event_id) row.event_id rest (length s) (insert-counts rows s)

abbrev pub AreStored : List String → List (EventRecord ℕ ℕ) → Type 0
AreStored s = All (λ row. contains s row.event_id ≡ true)

stored_more :
    (rows : List (EventRecord ℕ ℕ)) (s : List String) (id : String)
    → AreStored s rows
    → AreStored (id ∷ s) rows
stored_more [] s id h = tt
stored_more (row ∷ rows) s id h = (ground (arith, h.0), stored_more rows s id h.1)

add-stores :
    (b : Bool) (row : EventRecord ℕ ℕ) (rows : List (EventRecord ℕ ℕ))
    (x : List String × List String)
    → contains x.1 row.event_id ≡ b
    → AreStored x.1 rows
    → AreStored (add b row.event_id x).1 (row ∷ rows)
add-stores true row rows x found h = (found, h)
add-stores false row rows x found h =
    (ground (arith, eq_refl row.event_id), stored_more rows x.1 row.event_id h)

pub insert-stores :
    (rows : List (EventRecord ℕ ℕ)) (s : List String) → AreStored (insert rows s).1 rows
insert-stores [] s = tt
insert-stores (row ∷ rows) s =
    let rest = insert rows s in
    add-stores (contains rest.1 row.event_id) row rows rest refl (insert-stores rows s)

add-keeps :
    (b : Bool) (new id : String) (x : List String × List String)
    → contains x.1 id ≡ true
    → contains (add b new x).1 id ≡ true
add-keeps true new id x h = h
add-keeps false new id x h = ground (arith, h)

pub insert-keeps :
    (rows : List (EventRecord ℕ ℕ)) (s : List String) (id : String)
    → contains s id ≡ true
    → contains (insert rows s).1 id ≡ true
insert-keeps [] s id h = h
insert-keeps (row ∷ rows) s id h =
    let rest = insert rows s in
    add-keeps (contains rest.1 row.event_id) row.event_id id rest (insert-keeps rows s id h)

pub counted_lem :
    (n : ℕ) (ids ids' s s' : List String)
    → ◌≡◌ {A = Result StoreError (List String) × List String} (ok ids, s) (ok ids', s')
    → length s ≡ n + length ids
    → length s' ≡ n + length ids'
counted_lem n ids ids' s s' h k =
    let same_ids : ids ≡ ids' =
      ok-injective (ap (λ (x : Result StoreError (List String) × List String). x.0) h) in
    let same_length : length s ≡ length s' =
      ap (λ (x : Result StoreError (List String) × List String). length x.1) h in
    omega (arith, k, same_length, ap length same_ids)

abbrev pub table : EventTable ℕ ℕ
table = record {
  State = List String;
  insert_ignoring_conflicts = λ rows s. (ok (insert rows s).0, (insert rows s).1);
  stored = λ s id. contains s id;
  row_count = λ s. length s;
  insert-keeps = λ rows s id h. insert-keeps rows s id h;
  insert-stores = λ rows s s' ids h.
      subst (λ x. AreStored x rows)
        (ap (λ (x : Result StoreError (List String) × List String). x.1) h) (insert-stores rows s);
  insert-le = λ rows s s' ids h.
      subst (λ l. length l ≤ length rows)
        (ok-injective (ap (λ (x : Result StoreError (List String) × List String). x.0) h))
        (insert-le rows s);
  insert-counts = λ rows s s' ids h.
      counted_lem (length s) (insert rows s).0 ids (insert rows s).1 s' h (insert-counts rows s);
}
