-- ===== src/Generator/FakerCatalog/Fixed.antt =====
-- A Faker that always gives the same words, the first element and the lowest number.
use native.Mathlib.Nat.{le_refl}
use live_data_architecture.Generator.FakerCatalog.{Faker}

abbrev pub fixed_faker : Faker
fixed_faker = record {
  State = Unit {0};
  uuid4 = λ s. ("0123-4567", s);
  random_element = λ n s. (0, s);
  color_name = λ s. ("Light Blue", s);
  word = λ s. ("sale", s);
  slug = λ s. ("big-sale", s);
  domain_word = λ s. ("acme", s);
  random_int = λ lo hi step s. (lo, s);
  random_element-lt = λ n s h. h;
  random_int_bounds = λ lo hi step s h k. (le_refl lo, h);
}
