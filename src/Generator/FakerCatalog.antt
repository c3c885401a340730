-- ===== src/Generator/FakerCatalog.antt =====
-- event_generator/faker_catalog.py: the pools of users, products and pages. Faker, its seeded source
-- included, and the lower-casing of texts are parameters. A set of texts is a list of them.
pub mod Identifier
pub mod Pages
pub mod Pools
pub mod Fixed
mod Examples
use Prim.Native.Char.{code}
use Prim.Native.String
use Prim.Native.String.{◌++◌}
use live_data_architecture.Base.{
  ℕ, zero, suc, ◌+◌, ◌≤◌, ◌<◌, String, ◌≡◌, Bool, true, false, Option, none, some, List, [], ◌∷◌,
  map, length, get_elem?, eqb, contains, if◌then◌else◌, ◌==◌,
}
use live_data_architecture.Base.Options.{◌>>=◌}
use live_data_architecture.Generator.FakerCatalog.Identifier.{identifier_slug, unique_identifier}

pub record PageTarget : Type 0 where
  pub path : String
  pub category_id : Option String

pub record Product : Type 0 where
  pub product_id : String
  pub category_id : String
  pub price_cents : ℕ

pub record UserProfile : Type 0 where
  pub user_id : String
  pub preferred_category_id : String

pub record CategoryTemplate : Type 0 where
  pub category_id : String
  pub slug : String
  pub min_price_cents : ℕ
  pub max_price_cents : ℕ

abbrev category_template : String → String → ℕ → ℕ → CategoryTemplate
category_template category_id slug lo hi = record {
  category_id = category_id;
  slug = slug;
  min_price_cents = lo;
  max_price_cents = hi;
}

abbrev pub user_pool_size : ℕ
user_pool_size = 160

abbrev pub products_per_category : ℕ
products_per_category = 4

-- `_CATEGORY_TEMPLATES`
unfoldable pub category_templates : List CategoryTemplate
category_templates =
    category_template "cat_smartphone" "smartphone" 39_900 129_900
    ∷ category_template "cat_laptop" "laptop" 79_900 249_900
    ∷ category_template "cat_audio" "audio" 4_900 49_900
    ∷ category_template "cat_accessory" "accessory" 900 19_900
    ∷ []

abbrev pub category_ids : List CategoryTemplate → List String
category_ids = map (λ category. category.category_id)

abbrev pub landing_page_paths : List String
landing_page_paths =
    "/" ∷ "/products" ∷ "/products/new" ∷ "/products/best" ∷ "/cart" ∷ "/checkout"
    ∷ "/account/orders" ∷ "/support/returns" ∷ []

-- The calls of Faker; `random_element` returns a position in the sequence that it is given.
pub record Faker : Type 1 where
  pub State : Type 0
  pub uuid4 : State → String × State
  pub random_element : ℕ → State → ℕ × State
  pub color_name : State → String × State
  pub word : State → String × State
  pub slug : State → String × State
  pub domain_word : State → String × State
  -- from a lowest to a highest number, in steps
  pub random_int : ℕ → ℕ → ℕ → State → ℕ × State
  pub random_element-lt : (n : ℕ) (s : State) → 0 < n → (random_element n s).0 < n
  pub random_int_bounds :
      (lo hi step : ℕ) (s : State)
      → lo ≤ hi
      → 0 < step
      → (lo ≤ (random_int lo hi step s).0) × ((random_int lo hi step s).0 ≤ hi)

-- `replace("-", "")`
unfoldable pub without_dashes : String → String
without_dashes String.[] = ""
without_dashes (String.◌∷◌ c s) =
    let rest = without_dashes s in if eqb (code c) b'-' then rest else String.◌∷◌ c rest

-- The rounds of the two loops of `_build_products`: each category as often as it gets products.
unfoldable pub repeated : ℕ → CategoryTemplate → List CategoryTemplate → List CategoryTemplate
repeated zero category rest = rest
repeated (suc n) category rest = category ∷ repeated n category rest

unfoldable pub product_rounds : List CategoryTemplate → List CategoryTemplate
unfolding repeated
product_rounds [] = []
product_rounds (category ∷ categories) =
    repeated products_per_category category (product_rounds categories)

-- `_dedupe_page_targets`: a landing page is kept although its path has been seen.
unfoldable pub dedupe_page_targets : List PageTarget → List String → List PageTarget
dedupe_page_targets [] seen_paths = []
dedupe_page_targets (target ∷ targets) seen_paths =
    let with_path = dedupe_page_targets targets (target.path ∷ seen_paths) in
    let same_paths = dedupe_page_targets targets seen_paths in
    if contains seen_paths target.path
    then if contains landing_page_paths target.path then target ∷ same_paths else same_paths
    else target ∷ with_path

-- The list that starts with `[PageTarget(path) for path in _LANDING_PAGE_PATHS]`
abbrev pub with_landing_pages : List String → List PageTarget → List PageTarget
with_landing_pages [] targets = targets
with_landing_pages (path ∷ paths) targets =
    record { path = path; category_id = none } ∷ with_landing_pages paths targets

pub record FakerDataCatalog : Type 0 where
  pub users : List UserProfile
  pub products : List Product
  pub page_targets : List PageTarget

module _ (lower : String → String) (F : Faker) where
  open F use {State}

  unfoldable pub build_users : ℕ → List String → State → Option (List UserProfile × State)
  unfolding without_dashes category_templates
  build_users zero user_ids s = some ([], s)
  build_users (suc missing) user_ids s = do
    let (uuid, s₁) = F.uuid4 s
    let (position, s₂) = F.random_element (length category_templates) s₁
    (user_id, user_ids') ← unique_identifier lower "user" (without_dashes uuid ∷ []) user_ids 12
    preferred_category_id ← get_elem? (category_ids category_templates) position
    (users, s₃) ← build_users missing user_ids' s₂
    some (record { user_id = user_id; preferred_category_id = preferred_category_id } ∷ users, s₃)

  unfoldable pub build_products :
      List CategoryTemplate → List String → State → Option (List Product × State)
  build_products [] product_ids s = some ([], s)
  build_products (category ∷ rounds) product_ids s = do
    let (color, s₁) = F.color_name s
    let (word, s₂) = F.word s₁
    let (price, s₃) = F.random_int category.min_price_cents category.max_price_cents 100 s₂
    (product_id, product_ids') ←
        unique_identifier lower "prod" (category.slug ∷ color ∷ word ∷ []) product_ids 44
    (products, s₄) ← build_products rounds product_ids' s₃
    some (
      record { product_id = product_id; category_id = category.category_id; price_cents = price }
          ∷ products,
      s₄,
    )

  unfoldable pub category_pages : List CategoryTemplate → State → List PageTarget × State
  unfolding identifier_slug
  category_pages [] s = ([], s)
  category_pages (category ∷ categories) s =
      let (search, s₁) = F.slug s in
      let (collection, s₂) = F.domain_word s₁ in
      let (targets, s₃) = category_pages categories s₂ in
      (
        record { path = "/categories/" ++ category.slug; category_id = some category.category_id }
            ∷ record { path = "/search/" ++ search; category_id = some category.category_id }
            ∷ record {
              path = "/collections/" ++ identifier_slug lower collection;
              category_id = some category.category_id;
            }
            ∷ targets,
        s₃,
      )

  unfoldable pub build_page_targets : State → List PageTarget × State
  unfolding category_pages dedupe_page_targets category_templates
  build_page_targets s =
      let (targets, s') = category_pages category_templates s in
      (dedupe_page_targets (with_landing_pages landing_page_paths targets) landing_page_paths, s')

  -- The constructor, after Faker is seeded.
  unfoldable pub faker_data_catalog : State → Option (FakerDataCatalog × State)
  unfolding build_users build_products build_page_targets product_rounds category_templates
  faker_data_catalog s = do
    (users, s₁) ← build_users user_pool_size [] s
    (products, s₂) ← build_products (product_rounds category_templates) [] s₁
    let (page_targets, s₃) = build_page_targets s₂
    some (record { users = users; products = products; page_targets = page_targets }, s₃)

-- `products_for_category` and `page_targets_for_category`
unfoldable pub products_for_category : List Product → String → List Product
products_for_category [] category_id = []
products_for_category (product ∷ products) category_id =
    let rest = products_for_category products category_id in
    if product.category_id == category_id then product ∷ rest else rest

abbrev pub is_category : Option String → String → Bool
is_category none category_id = false
is_category (some own) category_id = own == category_id

unfoldable pub page_targets_for_category : List PageTarget → String → List PageTarget
page_targets_for_category [] category_id = []
page_targets_for_category (target ∷ targets) category_id =
    let rest = page_targets_for_category targets category_id in
    if is_category target.category_id category_id then target ∷ rest else rest
