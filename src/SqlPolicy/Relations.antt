-- ===== src/SqlPolicy/Relations.antt =====
-- The relations that `_extract_referenced_relations` collects, and those it lets through.
use live_data_architecture.Base.{
  String, ◌≡◌, ◌⊎◌, inl, inr, refl, sym, ◌∙◌, Option-cases, Bool, true, false, not, ◌&&◌, ◌||◌,
  none, some, List, [], ◌∷◌, arith, ◌==◌, eq_iff, eq_refl, if◌then◌else◌, contains, any, all, All,
  Bool-cases,
}
use live_data_architecture.Base.Results.{ok, err}
use live_data_architecture.SqlPolicy.Parser.{SqlGlot}
use live_data_architecture.SqlPolicy.{
  RejectionReason, is_empty, add_name, unknown_names, table_fault, collect_relations,
}

pub contains-add_name :
    (name n : String) (names : List String)
    → contains (add_name name names) n ≡ (name == n || contains names n)
unfolding add_name
contains-add_name name n names = ground (arith, eq_iff name n)

-- `names - allowed` is empty exactly if every name is allowed.
pub unknown_names-is_empty :
    (names allowed : List String)
    → is_empty (unknown_names names allowed) ≡ all (contains allowed) names
unfolding unknown_names
unknown_names-is_empty [] allowed = refl
unknown_names-is_empty (n ∷ names) allowed = ground (arith, unknown_names-is_empty names allowed)

pub all_of-contains :
    (allowed names : List String)
    → ((n : String) → contains names n ≡ true → contains allowed n ≡ true)
    → all (contains allowed) names ≡ true
all_of-contains allowed [] h = refl
all_of-contains allowed (n ∷ names) h =
    ground (arith, h n, eq_refl n, all_of-contains allowed names (λ m k. h m (ground arith)))

pub contains_of-all :
    (allowed names : List String) (n : String)
    → all (contains allowed) names ≡ true
    → contains names n ≡ true
    → contains allowed n ≡ true
contains_of-all allowed [] n h k = cc
contains_of-all allowed (m ∷ names) n h k =
    ground (arith, eq_iff m n, contains_of-all allowed names n)

module _ (G : SqlGlot) where
  open G use {Node, name, db, catalog, lower}

  -- The table names neither a schema nor a catalog.
  abbrev pub IsUnqualified : Node → Type 0
  IsUnqualified t = (lower (db t) ≡ "") × (lower (catalog t) ≡ "")

  table_fault-eq-none : (t : Node) → table_fault G t ≡ none → IsUnqualified t
  unfolding table_fault
  table_fault-eq-none t h = ground (arith, eq_iff (lower (db t)) "", eq_iff (lower (catalog t)) "")

  table_fault_of_IsUnqualified : (t : Node) → IsUnqualified t → table_fault G t ≡ none
  unfolding table_fault
  table_fault_of_IsUnqualified t (h, k) = rw (h, k)

  module _ (ctes : List String) where
    -- A CTE of the statement has the table's name.
    abbrev pub is_shadowed : Node → Bool
    is_shadowed t = contains ctes (lower (name t))

    -- The table is the relation of that name.
    abbrev pub reads : String → Node → Bool
    reads n t = not (is_shadowed t) && lower (name t) == n

    collect_skip :
        (t : Node) (ts : List Node) (found : List String)
        → is_shadowed t ≡ true
        → collect_relations G ctes (t ∷ ts) found ≡ collect_relations G ctes ts found
    unfolding collect_relations
    collect_skip t ts found h = rw h

    collect_add :
        (t : Node) (ts : List Node) (found : List String)
        → is_shadowed t ≡ false
        → table_fault G t ≡ none
        → collect_relations G ctes (t ∷ ts) found
          ≡ collect_relations G ctes ts (add_name (lower (name t)) found)
    unfolding collect_relations
    collect_add t ts found h k = rw (h, k)

    collect_fault :
        (t : Node) (ts : List Node) (found : List String) (reason : RejectionReason)
        → is_shadowed t ≡ false
        → table_fault G t ≡ some reason
        → collect_relations G ctes (t ∷ ts) found ≡ err reason
    unfolding collect_relations
    collect_fault t ts found reason h k = rw (h, k)

    abbrev pub AllPlain : List Node → Type 0
    AllPlain = All (λ t. (is_shadowed t ≡ true) ⊎ IsUnqualified t)

    -- What is collected: the names of the tables that no CTE shadows, and what was there before.
    abbrev Collects : List Node → List String → List String → Type 0
    Collects ts found r = (n : String) → contains r n ≡ (contains found n || any (reads n) ts)

    Collects-skip :
        (t : Node) (ts : List Node) (found r : List String)
        → is_shadowed t ≡ true
        → Collects ts found r
        → Collects (t ∷ ts) found r
    Collects-skip t ts found r s h n = ground (arith, h n)

    Collects-add :
        (t : Node) (ts : List Node) (found r : List String)
        → is_shadowed t ≡ false
        → Collects ts (add_name (lower (name t)) found) r
        → Collects (t ∷ ts) found r
    Collects-add t ts found r s h n =
        ground (arith, h n, contains-add_name (lower (name t)) n found)

    pub collect_relations_sound :
        (ts : List Node) (found r : List String)
        → collect_relations G ctes ts found ≡ ok r
        → AllPlain ts × Collects ts found r
    collect_relations_sound [] found r e = (tt, unfold collect_relations in λ n. ground arith)
    collect_relations_sound (t ∷ ts) found r e = elim (Bool-cases (is_shadowed t)) [
      | inl s ↦
          let (plain, names) =
            collect_relations_sound ts found r (sym (collect_skip t ts found s) ∙ e) in
          ((inl s, plain), Collects-skip t ts found r s names)
      | inr s ↦ elim (Option-cases (table_fault G t)) [
        | inl f ↦
            let (plain, names) =
              collect_relations_sound ts (add_name (lower (name t)) found) r
                (sym (collect_add t ts found s f) ∙ e) in
            ((inr (table_fault-eq-none t f), plain), Collects-add t ts found r s names)
        | inr (reason, f) ↦ cc (collect_fault t ts found reason s f)
      ]
    ]

    pub collect_relations_complete :
        (ts : List Node) (found : List String)
        → AllPlain ts
        → (r : List String) × (collect_relations G ctes ts found ≡ ok r)
    collect_relations_complete [] found h = (found, unfold collect_relations in refl)
    collect_relations_complete (t ∷ ts) found h = elim (Bool-cases (is_shadowed t)) [
      | inl s ↦ rw (collect_skip t ts found s) (collect_relations_complete ts found h.1)
      | inr s ↦
          rw (collect_add t ts found s (table_fault_of_IsUnqualified t (unshadowed h.0 s)))
            (collect_relations_complete ts (add_name (lower (name t)) found) h.1)
    ]
      where
        unshadowed :
            (is_shadowed t ≡ true) ⊎ IsUnqualified t → is_shadowed t ≡ false → IsUnqualified t
        unshadowed (inl a) s = cc
        unshadowed (inr u) s = u

    unfoldable pub without_shadowed : List Node → List Node
    without_shadowed [] = []
    without_shadowed (t ∷ ts) =
        let rest = without_shadowed ts in if is_shadowed t then rest else t ∷ rest

    -- Tables that a CTE shadows are dropped whatever schema or catalog they name: the result is
    -- that of the other tables alone.
    pub collect_relations-drop :
        (ts : List Node) (found : List String)
        → collect_relations G ctes ts found ≡ collect_relations G ctes (without_shadowed ts) found
    unfolding without_shadowed
    collect_relations-drop [] found = refl
    collect_relations-drop (t ∷ ts) found = elim (Bool-cases (is_shadowed t)) [
      | inl s ↦ rw s (collect_skip t ts found s ∙ collect_relations-drop ts found)
      | inr s ↦ rw s (elim (Option-cases (table_fault G t)) [
        | inl f ↦
            collect_add t ts found s f
            ∙ collect_relations-drop ts (add_name (lower (name t)) found)
            ∙ sym (collect_add t (without_shadowed ts) found s f)
        | inr (reason, f) ↦
            collect_fault t ts found reason s f
            ∙ sym (collect_fault t (without_shadowed ts) found reason s f)
      ])
    ]
