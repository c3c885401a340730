-- ===== src/Generator/FakerCatalog/Examples.antt =====
-- Identifiers that are in use already, and the catalog of a Faker that repeats itself.
use live_data_architecture.Base.{
  String, ◌≡◌, refl, Bool, true, false, Option, none, some, List, [], ◌∷◌, contains, ◌==◌,
}
use live_data_architecture.Generator.FakerCatalog.Identifier.{
  unique_identifier, free_candidate, suffixed, slug_of, identifier_slug, separated,
  strip_underscores, strip_start, strip_end, joined, non_empty, prefix_of,
}
use live_data_architecture.Generator.FakerCatalog.Identifier.Decimal.{decimal, digits, digit}
use live_data_architecture.Generator.FakerCatalog.Identifier.Fresh.{unique_identifier_fresh}
use live_data_architecture.Generator.FakerCatalog.{FakerDataCatalog, faker_data_catalog}
use live_data_architecture.Generator.FakerCatalog.Pools.{IsCatalog, faker_data_catalog-IsCatalog}
use live_data_architecture.Generator.FakerCatalog.Fixed.{fixed_faker}

abbrev same_text : String → String
same_text s = s

abbrev used : List String
used = "prod_light_blue_2" ∷ "prod_light_blue" ∷ []

abbrev is_third : Option (String × List String) → Bool
is_third none = false
is_third (some (id, ids)) = id == "prod_light_blue_3"

third :
    is_third (unique_identifier same_text "prod" ("__light" ∷ "!" ∷ "blue-" ∷ []) used 44) ≡ true
unfolding unique_identifier free_candidate suffixed slug_of identifier_slug separated
    strip_underscores strip_start strip_end joined non_empty prefix_of decimal digits digit
third = refl

unique_identifier_fresh_example :
    (c : String) × (unique_identifier same_text "prod" ("__light" ∷ "!" ∷ "blue-" ∷ []) used 44
      ≡ some (c, c ∷ used))
    × (contains used c ≡ false)
unique_identifier_fresh_example =
    unique_identifier_fresh same_text "prod" ("__light" ∷ "!" ∷ "blue-" ∷ []) used 44

faker_data_catalog-IsCatalog_example :
    (catalog : FakerDataCatalog) × (s' : Unit {0}) × (faker_data_catalog same_text fixed_faker tt
      ≡ some (catalog, s'))
    × IsCatalog catalog
faker_data_catalog-IsCatalog_example = faker_data_catalog-IsCatalog same_text fixed_faker tt
