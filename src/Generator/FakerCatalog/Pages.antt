-- ===== src/Generator/FakerCatalog/Pages.antt =====
-- The pages of the catalog: no path twice.
use Prim.Native.Char.{code}
use Prim.Native.String
use text.Mathlib.TextLemmas.{cons-append}
use live_data_architecture.Base.{
  ℕ, zero, suc, ◌+◌, ◌*◌, ◌^◌, String, ◌≡◌, ◌≢◌, refl, false, List, [], ◌∷◌, map, arith, All,
  contains, eq_iff, Bool-cases, inl, inr,
}
use live_data_architecture.Generator.FakerCatalog.Identifier.{identifier_slug}
use live_data_architecture.Generator.FakerCatalog.{
  PageTarget, CategoryTemplate, Faker, landing_page_paths, with_landing_pages, dedupe_page_targets,
  category_pages,
}

-- None of these texts is in the list, and none is there twice.
abbrev pub Distinct : List String → Type 0
Distinct [] = Unit
Distinct (x ∷ xs) = (contains xs x ≡ false) × Distinct xs

abbrev pub Fresh : List String → List String → Type 0
Fresh used xs = All (λ x. contains used x ≡ false) xs

pub Fresh-cons :
    (c : String) (used xs : List String)
    → Fresh (c ∷ used) xs
    → Fresh used xs × (contains xs c ≡ false)
Fresh-cons c used [] h = (tt, refl)
Fresh-cons c used (x ∷ xs) h =
    let (rest, absent) = Fresh-cons c used xs h.1 in
    ((ground (arith, h.0), rest), grind (arith, eq_iff, h.0, absent))

-- The first characters of a text as a number, which keeps texts apart.
abbrev start_number : ℕ → String → ℕ
start_number zero s = 0
start_number (suc n) String.[] = 0
start_number (suc n) (String.◌∷◌ c s) = code c + 1 + 2 ^ 21 * start_number n s

contains-new :
    (xs : List String) (p : String)
    → All (λ x. start_number 4 x ≢ start_number 4 p) xs
    → contains xs p ≡ false
contains-new [] p h = refl
contains-new (x ∷ xs) p h = grind (arith, eq_iff, h.0, contains-new xs p h.1)

search_page-new : (s : String) → contains landing_page_paths (String.◌++◌ "/search/" s) ≡ false
search_page-new s =
    contains-new landing_page_paths (String.◌++◌ "/search/" s)
      (rw (cons-append, cons-append, cons-append, cons-append) (omega arith))

collection_page-new :
    (s : String) → contains landing_page_paths (String.◌++◌ "/collections/" s) ≡ false
collection_page-new s =
    contains-new landing_page_paths (String.◌++◌ "/collections/" s)
      (rw (cons-append, cons-append, cons-append, cons-append) (omega arith))

category_page-new :
    (s : String) → contains landing_page_paths (String.◌++◌ "/categories/" s) ≡ false
category_page-new s =
    contains-new landing_page_paths (String.◌++◌ "/categories/" s)
      (rw (cons-append, cons-append, cons-append, cons-append) (omega arith))

pub dedupe_page_targets-Distinct :
    (targets : List PageTarget) (seen : List String)
    → All (λ target. contains landing_page_paths target.path ≡ false) targets
    → Fresh seen (map (λ target. target.path) (dedupe_page_targets targets seen))
      × Distinct (map (λ target. target.path) (dedupe_page_targets targets seen))
unfolding dedupe_page_targets
dedupe_page_targets-Distinct [] seen h = (tt, tt)
dedupe_page_targets-Distinct (t ∷ ts) seen (new, more) = elim (Bool-cases (contains seen t.path)) [
  | inl used ↦ rw (used, new) (dedupe_page_targets-Distinct ts seen more)
  | inr free ↦
      let (fresh, distinct) = dedupe_page_targets-Distinct ts (t.path ∷ seen) more in
      let (fresh', absent) = Fresh-cons t.path seen _ fresh in
      rw free ((free, fresh'), (absent, distinct))
]

pub dedupe-landing :
    (targets : List PageTarget)
    → dedupe_page_targets (with_landing_pages landing_page_paths targets) landing_page_paths
      ≡ with_landing_pages landing_page_paths (dedupe_page_targets targets landing_page_paths)
unfolding dedupe_page_targets
dedupe-landing targets = refl

module _ (lower : String → String) (F : Faker) where
  open F use {State}

  pub category_pages-new :
      (categories : List CategoryTemplate) (s : State)
      → All
          (λ target. contains landing_page_paths target.path ≡ false)
          (category_pages lower F categories s).0
  unfolding category_pages
  category_pages-new [] s = tt
  category_pages-new (c ∷ cs) s = (
    category_page-new c.slug,
    (
      search_page-new (F.slug s).0,
      (
        collection_page-new (identifier_slug lower (F.domain_word (F.slug s).1).0),
        category_pages-new cs (F.domain_word (F.slug s).1).1,
      ),
    ),
  )
