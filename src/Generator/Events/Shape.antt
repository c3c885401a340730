-- ===== src/Generator/Events/Shape.antt =====
-- What the generated events hold, by their type.
use Prim.Native.String
use live_data_architecture.Base.{
  ℕ, zero, suc, ◌<◌, ◌≡◌, refl, ap, String, Bool, true, false, some, List, [], ◌∷◌, map, length,
  arith, ◌==◌, eq_iff, if◌then◌else◌, Bool-cases, inl, inr,
}
use live_data_architecture.Base.Results.{ok}
use live_data_architecture.Base.Action.{pure}
use live_data_architecture.Generator.{EventType}
use live_data_architecture.Generator.Rng.{Rng}
use live_data_architecture.Generator.Clock.{DateTime}
use live_data_architecture.Generator.Traffic.{TrafficProfileConfig}
use live_data_architecture.Generator.FakerCatalog.{
  PageTarget, Product, UserProfile, FakerDataCatalog, products_for_category,
  page_targets_for_category, is_category,
}
use live_data_architecture.Generator.Events.{
  Details, no_details, EventGenerator, error_messages, error_codes, message_of, choose_page_target,
  choose_product, choose_details,
}
use live_data_architecture.Generator.Events.Draws.{
  Among, Draws, Draws-after, pick-Draws, choose_preferred-Draws, Discounted, choose_amount-Draws,
}

Among-filtered {ℓ} :
    {A : Type ℓ} (b : Bool) (p x : A) (rest items : List A)
    → (Among rest x → Among items x)
    → Among (if b then p ∷ rest else rest) x
    → Among (p ∷ items) x
Among-filtered true p x rest items inside (zero, at) = (zero, at)
Among-filtered true p x rest items inside (suc i, at) = let (j, e) = inside (i, at) in (suc j, e)
Among-filtered false p x rest items inside at = let (j, e) = inside at in (suc j, e)

products_for_category-Among :
    (products : List Product) (category : String) (x : Product)
    → Among (products_for_category products category) x
    → Among products x
unfolding products_for_category
products_for_category-Among [] category x at = at
products_for_category-Among (p ∷ ps) category x at =
    Among-filtered (p.category_id == category) p x (products_for_category ps category) ps
      (products_for_category-Among ps category x) at

page_targets_for_category-Among :
    (targets : List PageTarget) (category : String) (x : PageTarget)
    → Among (page_targets_for_category targets category) x
    → Among targets x
unfolding page_targets_for_category
page_targets_for_category-Among [] category x at = at
page_targets_for_category-Among (t ∷ ts) category x at =
    Among-filtered (is_category t.category_id category) t x (page_targets_for_category ts category)
      ts (page_targets_for_category-Among ts category x) at

message_of-Among :
    (entries : List (String × String)) (code : String)
    → Among (map (λ (entry : String × String). entry.0) entries) code
    → (message : String) × (message_of entries code ≡ ok message) × Among entries (code, message)
unfolding message_of
message_of-Among [] code (i, at) = cc
message_of-Among ((known, message) ∷ entries) code (zero, at) =
    let same : known ≡ code = cc in
    (message, rw ((eq_iff known code).1 same) refl, (zero, ap (λ k. some (k, message)) same))
message_of-Among ((known, message) ∷ entries) code (suc i, at) = elim (Bool-cases (known == code)) [
  | inl t ↦ (message, rw t refl, (zero, ap (λ k. some (k, message)) ((eq_iff known code).0 t)))
  | inr f ↦
      let (m, e, (j, here)) = message_of-Among entries code (i, at) in (m, rw f e, (suc j, here))
]

abbrev pub purchased : Product → ℕ → Details
purchased p amount = record no_details {
  category_id = some p.category_id;
  product_id = some p.product_id;
  amount = some amount;
  currency = some "USD";
}

-- The optional fields of an event of each type: which are there, and where they come from.
abbrev pub IsShaped : FakerDataCatalog → EventType → Details → Type 0
IsShaped catalog EventType.page_view d =
    (t : PageTarget) × Among catalog.page_targets t
    × (d ≡ record no_details { page_path = some t.path; category_id = t.category_id })
IsShaped catalog EventType.product_click d =
    (p : Product) × Among catalog.products p
    × (d ≡ record no_details {
      page_path = some (String.◌++◌ "/products/" p.product_id);
      category_id = some p.category_id;
      product_id = some p.product_id;
    })
IsShaped catalog EventType.add_to_cart d =
    (p : Product) × Among catalog.products p
    × (d ≡ record no_details { category_id = some p.category_id; product_id = some p.product_id })
IsShaped catalog EventType.purchase d =
    (p : Product) × Among catalog.products p
    × (amount : ℕ) × Discounted p amount
    × (d ≡ purchased p amount)
IsShaped catalog EventType.checkout_error d =
    (p : Product) × Among catalog.products p
    × (code : String) × (message : String) × Among error_messages (code, message)
    × (d ≡ record no_details {
      category_id = some p.category_id;
      product_id = some p.product_id;
      error_code = some code;
      error_message = some message;
    })

module _ (R : Rng) (catalog : FakerDataCatalog) (config : TrafficProfileConfig)
    (start reference : DateTime) (producer : String) (some_page : 0 < length catalog.page_targets)
    (some_product : 0 < length catalog.products) where
  product-Draws :
      (user : UserProfile) (g : EventGenerator R)
      → Draws R g
          (Among catalog.products)
          (choose_product R catalog config start reference producer user g)
  unfolding choose_product
  product-Draws user g =
      choose_preferred-Draws R _ catalog.products g
        (products_for_category-Among catalog.products user.preferred_category_id) some_product

  page-Draws :
      (user : UserProfile) (g : EventGenerator R)
      → Draws R g
          (Among catalog.page_targets)
          (choose_page_target R catalog config start reference producer user g)
  unfolding choose_page_target
  page-Draws user g =
      choose_preferred-Draws R _ catalog.page_targets g
        (page_targets_for_category-Among catalog.page_targets user.preferred_category_id) some_page

  pub choose_details-IsShaped :
      (kind : EventType) (user : UserProfile) (g : EventGenerator R)
      → Draws R g
          (IsShaped catalog kind)
          (choose_details R catalog config start reference producer kind user g)
  unfolding choose_details
  choose_details-IsShaped EventType.page_view user g =
      let (t, s, e, at) = page-Draws user g in (_, s, rw e refl, (t, at, refl))
  choose_details-IsShaped EventType.product_click user g =
      let (p, s, e, at) = product-Draws user g in (_, s, rw e refl, (p, at, refl))
  choose_details-IsShaped EventType.add_to_cart user g =
      let (p, s, e, at) = product-Draws user g in (_, s, rw e refl, (p, at, refl))
  choose_details-IsShaped EventType.purchase user g =
      Draws-after R _ (IsShaped catalog EventType.purchase) g _ _ (product-Draws user g) λ p s at.
        Draws-after R _ (IsShaped catalog EventType.purchase) (record g { rng = s }) _
          (λ amount. pure (purchased p amount)) (choose_amount-Draws R p (record g { rng = s }))
          λ amount t taken. (_, t, refl, (p, at, amount, taken, refl))
  choose_details-IsShaped EventType.checkout_error user g =
      Draws-after R _ (IsShaped catalog EventType.checkout_error) g _ _ (product-Draws user g)
        λ p s at.
          Draws-after R _ (IsShaped catalog EventType.checkout_error) (record g { rng = s }) _ _
            (pick-Draws R error_codes (record g { rng = s }) (omega arith))
            λ code t known.
              let (message, found, listed) = message_of-Among error_messages code known in
              (_, t, rw found refl, (p, at, code, message, listed, refl))
