-- ===== src/Generator/FakerCatalog/Identifier/Fresh.antt =====
-- The loop over the suffixes ends, and the identifier is a new one.

use Prim.Native.String.{◌++◌}
use text.Mathlib.TextLemmas.{append_cancel_left}
use live_data_architecture.Base.{
  ℕ, zero, suc, ◌+◌, ◌≤◌, ◌<◌, String, ◌≡◌, ◌≢◌, ◌⊎◌, inl, inr, refl, ap, ◌∙◌, true, false, some,
  List, [], ◌∷◌, length, arith, contains, ◌==◌, eq_iff, if◌then◌else◌, Bool-cases,
}
use live_data_architecture.Generator.FakerCatalog.Identifier.Decimal.{decimal, decimal-injective}
use live_data_architecture.Generator.FakerCatalog.Identifier.{
  suffixed, free_candidate, added, or_item, slug_of, unique_identifier,
}

without : String → List String → List String
without x [] = []
without x (y ∷ ys) = let rest = without x ys in if y == x then ys else y ∷ rest

length-without :
    (x : String) (xs : List String) → contains xs x ≡ true → suc (length (without x xs)) ≡ length xs
unfolding without
length-without x [] h = cc
length-without x (y ∷ ys) h = ground (arith, length-without x ys)

contains-without :
    (x z : String) (xs : List String)
    → z ≢ x
    → contains xs z ≡ true
    → contains (without x xs) z ≡ true
unfolding without
contains-without x z [] n h = cc
contains-without x z (y ∷ ys) n h = grind (arith, contains-without x z ys n, eq_iff)

-- As many different texts as a number are not all in a shorter list.
pigeonhole :
    (n : ℕ) (f : ℕ → String) (xs : List String)
    → ((i j : ℕ) → f i ≡ f j → i ≡ j)
    → ((i : ℕ) → i < n → contains xs (f i) ≡ true)
    → n ≤ length xs
pigeonhole zero f xs distinct inside = omega arith
pigeonhole (suc n) f xs distinct inside =
    let smaller =
      pigeonhole n (λ i. f (suc i)) (without (f 0) xs)
        (λ i j e. omega (arith, distinct (suc i) (suc j) e))
        (λ i lt.
          contains-without (f 0) (f (suc i)) xs (λ e. omega (arith, distinct (suc i) 0 e))
            (inside (suc i) (omega arith))) in
    omega (arith, smaller, length-without (f 0) xs (inside 0 (omega arith)))

numbered : String → ℕ → ℕ → String
numbered base suffix i = base ++ "_" ++ decimal (suffix + i)

numbered-injective :
    (base : String) (suffix i j : ℕ) → numbered base suffix i ≡ numbered base suffix j → i ≡ j
unfolding numbered
numbered-injective base suffix i j e = omega (
  arith,
  decimal-injective (suffix + i) (suffix + j)
      (append_cancel_left "_" _ _ (append_cancel_left base _ _ e)),
)

one_more :
    (base : String) (existing : List String) (fuel suffix : ℕ)
    → contains existing (base ++ "_" ++ decimal suffix) ≡ true
    → ((i : ℕ) → i < fuel → contains existing (numbered base (suffix + 1) i) ≡ true)
    → (i : ℕ) → i < suc fuel
    → contains existing (numbered base suffix i) ≡ true
unfolding numbered
one_more base existing fuel suffix used later zero lt =
    ap (λ n. contains existing (base ++ "_" ++ decimal n)) (omega arith) ∙ used
one_more base existing fuel suffix used later (suc i) lt =
    ap (λ n. contains existing (base ++ "_" ++ decimal n)) (omega arith) ∙ later i (omega arith)

-- Either a candidate is free, or all that were tried are in use.
suffixed-tried :
    (base : String) (existing : List String) (fuel suffix : ℕ)
    → ((c : String) × (suffixed base existing fuel suffix ≡ some c) × (contains existing c ≡ false))
      ⊎ ((i : ℕ) → i < fuel → contains existing (numbered base suffix i) ≡ true)
unfolding suffixed numbered
suffixed-tried base existing zero suffix = inr λ i lt. absurd (omega arith)
suffixed-tried base existing (suc fuel) suffix =
    elim (Bool-cases (contains existing (base ++ "_" ++ decimal suffix))) [
      | inr free ↦ inl (base ++ "_" ++ decimal suffix, rw free refl, free)
      | inl used ↦ elim (suffixed-tried base existing fuel (suffix + 1)) [
        | inl (c, found, free) ↦ inl (c, rw used found, free)
        | inr all_used ↦ inr (one_more base existing fuel suffix used all_used)
      ]
    ]

free_candidate-found :
    (base : String) (existing : List String)
    → (c : String) × (free_candidate base existing ≡ some c) × (contains existing c ≡ false)
unfolding free_candidate
free_candidate-found base existing = elim (Bool-cases (contains existing base)) [
  | inr free ↦ (base, rw free refl, free)
  | inl used ↦ elim (suffixed-tried base existing (suc (length existing)) 2) [
    | inl (c, found, free) ↦ (c, rw used found, free)
    | inr all_used ↦ absurd (
        omega (
          arith,
          pigeonhole (suc (length existing)) (numbered base 2) existing (numbered-injective base 2)
              all_used,
        ))
  ]
]

-- `_unique_identifier` returns for all parts, whatever identifiers are in use: the loop ends after
-- at most one round more than there are of them. The identifier was not in use, and is from then on.
pub unique_identifier_fresh :
    (lower : String → String) (prefix : String) (parts existing : List String) (max_slug_length : ℕ)
    → (c : String) × (unique_identifier lower prefix parts existing max_slug_length
        ≡ some (c, c ∷ existing))
      × (contains existing c ≡ false)
unfolding unique_identifier
unique_identifier_fresh lower prefix parts existing max_slug_length =
    let (c, found, free) =
      free_candidate-found (prefix ++ "_" ++ or_item (slug_of lower parts max_slug_length))
        existing in
    (c, ap (added existing) found, free)
