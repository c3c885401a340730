-- ===== src/ViewTable/Names.antt =====
-- The names that view tables may have: safe to stand unquoted in the DDL that the repository builds.
use Prim.Native.Char.{Char, code}
use Prim.Native.String.{count}
use live_data_architecture.Base.{
  ◌≤◌, String, ◌≡◌, ◌↔◌, ◌⊎◌, inl, inr, refl, sym, true, false, ◌||◌, none, some, List, [], ◌∷◌,
  ◌++◌, arith, ◌==◌, eq_iff, if◌then◌else◌, contains, All, Bool-cases,
}
use live_data_architecture.Base.Results.{err-not-ok, ok, err, ok-injective}
use live_data_architecture.Catalog.{
  AnalyticsDataset, datasets, allowed_dataset_names, list_datasets,
}
use live_data_architecture.Explore.{dataset_by_name}
use live_data_architecture.ViewTable.{
  ViewTableError, is_name_char, all_name_chars, matches_name_pattern, TextMethods,
  normalized_view_table_name, is_reserved, view_table_source_relation_names,
}

-- A lowercase ASCII letter.
abbrev pub IsLetter : Char → Type 0
IsLetter c = (97 ≤ code c) × (code c ≤ 122)

-- A lowercase ASCII letter, a digit or an underscore.
abbrev pub IsWord : Char → Type 0
IsWord c = IsLetter c ⊎ ((48 ≤ code c) × (code c ≤ 57)) ⊎ (code c ≡ 95)

abbrev pub AllWord : String → Type 0
AllWord String.[] = Unit
AllWord (String.◌∷◌ c s) = IsWord c × AllWord s

-- A letter and from two to fifty letters, digits or underscores.
abbrev pub IsSafeName : String → Type 0
IsSafeName String.[] = ⊥
IsSafeName (String.◌∷◌ c s) = IsLetter c × (AllWord s) × (2 ≤ count s) × (count s ≤ 50)

is_name_char-IsWord : (c : Char) → is_name_char c ≡ true → IsWord c
unfolding is_name_char
is_name_char-IsWord c h = ground arith

IsWord-is_name_char : (c : Char) → IsWord c → is_name_char c ≡ true
unfolding is_name_char
IsWord-is_name_char c h = ground arith

all_name_chars-AllWord : (s : String) → all_name_chars s ≡ true → AllWord s
unfolding all_name_chars
all_name_chars-AllWord String.[] h = tt
all_name_chars-AllWord (String.◌∷◌ c s) h =
    (is_name_char-IsWord c (ground arith), all_name_chars-AllWord s (ground arith))

AllWord-all_name_chars : (s : String) → AllWord s → all_name_chars s ≡ true
unfolding all_name_chars
AllWord-all_name_chars String.[] h = refl
AllWord-all_name_chars (String.◌∷◌ c s) h =
    rw (IsWord-is_name_char c h.0) (AllWord-all_name_chars s h.1)

-- The pattern matches exactly the safe names.
pub matches_name_pattern_iff : (s : String) → (matches_name_pattern s ≡ true) ↔ IsSafeName s
unfolding matches_name_pattern
matches_name_pattern_iff String.[] = (λ h. cc, λ h. absurd h)
matches_name_pattern_iff (String.◌∷◌ c s) = (
  λ h. (ground arith, all_name_chars-AllWord s (ground arith), ground arith, ground arith),
  λ h. ground (arith, AllWord-all_name_chars s h.1),
)

true-not-false : {A : Type 0} → true ≡ false → A
true-not-false h = cc

checked_lem :
    (m n : String)
    → (if matches_name_pattern m then ok m else err ViewTableError.invalid_view_table_name) ≡ ok n
    → (n ≡ m) × IsSafeName n
checked_lem m n h = elim (Bool-cases (matches_name_pattern m)) [
  | inl t ↦
      let same : m ≡ n = ok-injective (rw t at h) in
      (cc, (matches_name_pattern_iff n).0 (rw (sym same) t))
  | inr f ↦ absurd (err-not-ok (rw f at h))
]

module _ (T : TextMethods) where
  -- `lower` and `strip` leave a text alone that has neither a capital nor white space.
  pub record FixesNames : Type 0 where
    pub strip : (s : String) → IsSafeName s → T.strip s ≡ s
    pub lower : (s : String) → IsSafeName s → T.lower s ≡ s

  -- A normalized name is the lowered, stripped text, and is safe.
  pub normalized_name_sound :
      (name n : String)
      → normalized_view_table_name T name ≡ ok n
      → (n ≡ T.lower (T.strip name)) × IsSafeName n
  unfolding normalized_view_table_name
  normalized_name_sound name n h = checked_lem (T.lower (T.strip name)) n h

  -- Where `lower` and `strip` leave safe names alone, every safe name is its own normalized name, so
  -- normalizing twice is normalizing once.
  pub normalized_name_fixed :
      (n : String) → FixesNames → IsSafeName n → normalized_view_table_name T n ≡ ok n
  unfolding normalized_view_table_name
  normalized_name_fixed n f h = rw (f.strip n h, f.lower n h, (matches_name_pattern_iff n).1 h) refl

shadowing_lem :
    (xs ys : List AnalyticsDataset) (name : String)
    → dataset_by_name ys name ≡ none
    → dataset_by_name (xs ++ ys) name ≡ dataset_by_name xs name
unfolding dataset_by_name
shadowing_lem [] ys name h = h
shadowing_lem (x ∷ xs) ys name h = rw (shadowing_lem xs ys name h)

not_reserved_lem :
    (x name : String)
    → is_reserved x ≡ false
    → contains allowed_dataset_names name ≡ true
    → (x == name) ≡ false
unfolding is_reserved
not_reserved_lem x name h k = elim (Bool-cases (x == name)) [
  | inl e ↦
      let same : x ≡ name = (eq_iff x name).0 e in
      let bad : (contains allowed_dataset_names name
            || contains view_table_source_relation_names name)
          ≡ false =
        rw same at h in
      true-not-false (rw k at bad)
  | inr f ↦ f
]

absent :
    (ys : List AnalyticsDataset) (name : String)
    → All (λ d. is_reserved d.name ≡ false) ys
    → contains allowed_dataset_names name ≡ true
    → dataset_by_name ys name ≡ none
unfolding dataset_by_name
absent [] name h k = refl
absent (y ∷ ys) name h k = rw (absent ys name h.1 k, not_reserved_lem y.name name h.0 k) refl

-- While no view table has a reserved name, none takes the place of a built-in dataset in the
-- catalog: each built-in name finds what it finds among the built-in datasets.
pub built_in_not_shadowed :
    (dynamic : List AnalyticsDataset) (name : String)
    → All (λ d. is_reserved d.name ≡ false) dynamic
    → contains allowed_dataset_names name ≡ true
    → dataset_by_name (list_datasets (some (ok dynamic))) name ≡ dataset_by_name datasets name
unfolding list_datasets
built_in_not_shadowed dynamic name h k =
    shadowing_lem datasets dynamic name (absent dynamic name h k)
