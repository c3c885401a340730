-- ===== src/Generator/FakerCatalog/Pools.antt =====
-- The users, products and pages that the catalog is built with.

use live_data_architecture.Base.{
  ℕ, zero, suc, ◌≤◌, ◌<◌, String, ◌≡◌, refl, true, Option, some, List, [], ◌∷◌, map, length,
  get_elem?, arith, All, contains,
}
use live_data_architecture.Generator.FakerCatalog.Identifier.Fresh.{unique_identifier_fresh}
use live_data_architecture.Generator.FakerCatalog.Pages.{
  Distinct, Fresh, Fresh-cons, dedupe_page_targets-Distinct, dedupe-landing, category_pages-new,
}
use live_data_architecture.Generator.FakerCatalog.{
  PageTarget, Product, UserProfile, CategoryTemplate, Faker, FakerDataCatalog, category_templates,
  category_ids, user_pool_size, product_rounds, repeated, landing_page_paths, with_landing_pages,
  dedupe_page_targets, build_users, build_products, build_page_targets, category_pages,
  faker_data_catalog, without_dashes,
}

abbrev pub user_ids : List UserProfile → List String
user_ids = map (λ user. user.user_id)

abbrev pub product_ids : List Product → List String
product_ids = map (λ product. product.product_id)

-- One product in each round, of its category and within its prices.
abbrev pub Fit : List CategoryTemplate → List Product → Type 0
Fit [] [] = Unit
Fit [] (p ∷ ps) = ⊥
Fit (c ∷ cs) [] = ⊥
Fit (c ∷ cs) (p ∷ ps) =
    (p.category_id ≡ c.category_id)
    × (c.min_price_cents ≤ p.price_cents)
    × (p.price_cents ≤ c.max_price_cents)
    × Fit cs ps

abbrev pub IsPriced : CategoryTemplate → Type 0
IsPriced c = c.min_price_cents ≤ c.max_price_cents

module _ (lower : String → String) (F : Faker) where
  open F use {State}

  abbrev Users : ℕ → List String → Option (List UserProfile × State) → Type 0
  Users count used built =
      (users : List UserProfile) × (s : State) × (built ≡ some (users, s))
      × (length users ≡ count)
      × All (λ user. contains (category_ids category_templates) user.preferred_category_id ≡ true)
          users
      × Fresh used (user_ids users)
      × Distinct (user_ids users)

  category_at :
      (i : ℕ)
      → i < length category_templates
      → (c : String) × (get_elem? (category_ids category_templates) i ≡ some c)
        × (contains (category_ids category_templates) c ≡ true)
  unfolding category_templates
  category_at zero h = ("cat_smartphone", refl, refl)
  category_at (suc zero) h = ("cat_laptop", refl, refl)
  category_at (suc (suc zero)) h = ("cat_audio", refl, refl)
  category_at (suc (suc (suc zero))) h = ("cat_accessory", refl, refl)
  category_at (suc (suc (suc (suc i)))) h = absurd (omega arith)

  build_users-Users :
      (count : ℕ) (used : List String) (s : State)
      → Users count used (build_users lower F count used s)
  unfolding build_users
  build_users-Users zero used s = ([], s, refl, refl, tt, tt, tt)
  build_users-Users (suc count) used s =
      let (uuid, s₁) = F.uuid4 s in
      let (position, s₂) = F.random_element (length category_templates) s₁ in
      let (id, chosen, free) =
        unique_identifier_fresh lower "user" (without_dashes uuid ∷ []) used 12 in
      let (category, at, known) = category_at position (
        F.random_element-lt (length category_templates) s₁
          (unfold category_templates in omega arith)) in
      let (users, s₃, built, counted, all_known, fresh, distinct) =
        build_users-Users count (id ∷ used) s₂ in
      let (fresh', absent) = Fresh-cons id used (user_ids users) fresh in
      (
        record { user_id = id; preferred_category_id = category } ∷ users,
        s₃,
        rw (chosen, at, built) refl,
        omega (arith, counted),
        (known, all_known),
        (free, fresh'),
        (absent, distinct),
      )

  abbrev Products : List CategoryTemplate → List String → Option (List Product × State) → Type 0
  Products rounds used built =
      (products : List Product) × (s : State) × (built ≡ some (products, s))
      × Fit rounds products
      × Fresh used (product_ids products)
      × Distinct (product_ids products)

  build_products-Products :
      (rounds : List CategoryTemplate) (used : List String) (s : State)
      → All IsPriced rounds
      → Products rounds used (build_products lower F rounds used s)
  unfolding build_products
  build_products-Products [] used s priced = ([], s, refl, tt, tt, tt)
  build_products-Products (c ∷ rounds) used s (priced, more) =
      let (color, s₁) = F.color_name s in
      let (word, s₂) = F.word s₁ in
      let (price, s₃) = F.random_int c.min_price_cents c.max_price_cents 100 s₂ in
      let (from, to) =
        F.random_int_bounds c.min_price_cents c.max_price_cents 100 s₂ priced (omega arith) in
      let (id, chosen, free) =
        unique_identifier_fresh lower "prod" (c.slug ∷ color ∷ word ∷ []) used 44 in
      let (products, s₄, built, fits, fresh, distinct) =
        build_products-Products rounds (id ∷ used) s₃ more in
      let (fresh', absent) = Fresh-cons id used (product_ids products) fresh in
      (
        record { product_id = id; category_id = c.category_id; price_cents = price } ∷ products,
        s₄,
        rw (chosen, built) refl,
        (refl, from, to, fits),
        (free, fresh'),
        (absent, distinct),
      )

-- 160 users with distinct ids, each with a preferred category of the templates; for each category
-- its four products within its prices, all ids distinct; the landing pages, and after them pages
-- whose paths are none of theirs and distinct.
pub record IsCatalog (catalog : FakerDataCatalog) : Type 0 where
  pub user_count : length catalog.users ≡ user_pool_size
  pub known_categories :
      All
        (λ user. contains (category_ids category_templates) user.preferred_category_id ≡ true)
        catalog.users
  pub user_ids_distinct : Distinct (user_ids catalog.users)
  pub products_fit : Fit (product_rounds category_templates) catalog.products
  pub product_ids_distinct : Distinct (product_ids catalog.products)
  pub other_pages : List PageTarget
  pub pages : catalog.page_targets ≡ with_landing_pages landing_page_paths other_pages
  pub other_paths_new : Fresh landing_page_paths (map (λ target. target.path) other_pages)
  pub other_paths_distinct : Distinct (map (λ target. target.path) other_pages)

rounds-IsPriced : All IsPriced (product_rounds category_templates)
unfolding product_rounds category_templates repeated
rounds-IsPriced = omega arith

-- The constructor always finishes, whatever Faker answers within its documentation, and the catalog
-- is complete: 160 users with distinct ids and known categories, four products within the prices
-- of each category, with distinct ids, and pages with distinct paths, the landing pages first.
pub faker_data_catalog-IsCatalog :
    (lower : String → String) (F : Faker) (s : F.State)
    → (catalog : FakerDataCatalog) × (s' : F.State) × (faker_data_catalog lower F s
        ≡ some (catalog, s'))
      × IsCatalog catalog
unfolding faker_data_catalog build_page_targets
faker_data_catalog-IsCatalog lower F s =
    let (users, s₁, built, counted, known, fresh, distinct) =
      build_users-Users lower F user_pool_size [] s in
    let (products, s₂, built', fits, fresh', distinct') =
      build_products-Products lower F (product_rounds category_templates) [] s₁ rounds-IsPriced in
    let (targets, s₃) = category_pages lower F category_templates s₂ in
    let (new, distinct'') =
      dedupe_page_targets-Distinct targets landing_page_paths
        (category_pages-new lower F category_templates s₂) in
    (
      record {
        users = users;
        products = products;
        page_targets =
            dedupe_page_targets (with_landing_pages landing_page_paths targets) landing_page_paths;
      },
      s₃,
      rw (built, built') refl,
      record {
        user_count = counted;
        known_categories = known;
        user_ids_distinct = distinct;
        products_fit = fits;
        product_ids_distinct = distinct';
        other_pages = dedupe_page_targets targets landing_page_paths;
        pages = dedupe-landing targets;
        other_paths_new = new;
        other_paths_distinct = distinct'';
      },
    )
