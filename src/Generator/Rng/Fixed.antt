-- ===== src/Generator/Rng/Fixed.antt =====
-- A source of numbers that meets what is documented of `random.Random`: the lower bound, and the
-- first position that has a weight.
use native.Mathlib.Nat.{one-le-pow, le_refl}
use live_data_architecture.Base.{ℕ, zero, suc, ◌^◌, ◌<◌, true, List, [], ◌∷◌, arith}
use live_data_architecture.Generator.Rng.{Rng, sum, weight_at}

abbrev pub first_weighted : List ℕ → ℕ
first_weighted [] = 0
first_weighted (zero ∷ ws) = suc (first_weighted ws)
first_weighted (suc w ∷ ws) = 0

pub first_weighted_weight : (ws : List ℕ) → 0 < sum ws → 0 < weight_at ws (first_weighted ws)
first_weighted_weight [] h = elim h [ ]
first_weighted_weight (zero ∷ ws) h = first_weighted_weight ws (omega arith)
first_weighted_weight (suc w ∷ ws) h = omega arith

pub pow_pos : (k : ℕ) → 0 < 2 ^ k
pow_pos k = one-le-pow k 2 (omega arith)

abbrev pub fixed_rng : Rng
fixed_rng = record {
  State = Unit {0};
  getrandbits = λ k s. (0, s);
  randint = λ a b s. (a, s);
  choice = λ n s. (0, s);
  choices = λ ws s. (first_weighted ws, s);
  below_seven_tenths = λ s. (true, s);
  getrandbits-lt = λ k s. pow_pos k;
  randint_bounds = λ a b s h. (le_refl a, h);
  choice-lt = λ n s h. h;
  choices_weight = λ ws s. first_weighted_weight ws;
}
