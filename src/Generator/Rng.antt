-- ===== src/Generator/Rng.antt =====
-- Python's `random.Random`, which the generator calls and does not implement: a state, the calls
-- that the generator makes of it, and what the standard library documents of their results.
-- `choice` and `choices` return a position in the sequence that they are given.
pub mod Fixed
use live_data_architecture.Base.{
  ℕ, zero, suc, ◌+◌, ◌^◌, ◌≤◌, ◌<◌, ◌≡◌, refl, Bool, true, Option, none, some, List, [], ◌∷◌, arith,
  length,
}

abbrev pub sum : List ℕ → ℕ
sum [] = 0
sum (w ∷ ws) = w + sum ws

-- `choices` picks a position with a positive weight.
abbrev pub weight_at : List ℕ → ℕ → ℕ
weight_at [] i = 0
weight_at (w ∷ ws) zero = w
weight_at (w ∷ ws) (suc i) = weight_at ws i

pub record Rng : Type 1 where
  pub State : Type 0
  pub getrandbits : ℕ → State → ℕ × State
  pub randint : ℕ → ℕ → State → ℕ × State
  pub choice : ℕ → State → ℕ × State
  pub choices : List ℕ → State → ℕ × State
  -- `random() < 0.7`
  pub below_seven_tenths : State → Bool × State
  pub getrandbits-lt : (k : ℕ) (s : State) → (getrandbits k s).0 < 2 ^ k
  pub randint_bounds :
      (a b : ℕ) (s : State) → a ≤ b → (a ≤ (randint a b s).0) × ((randint a b s).0 ≤ b)
  pub choice-lt : (n : ℕ) (s : State) → 0 < n → (choice n s).0 < n
  pub choices_weight : (ws : List ℕ) (s : State) → 0 < sum ws → 0 < weight_at ws (choices ws s).0

pub weight_at-lt : (ws : List ℕ) (i : ℕ) → 0 < weight_at ws i → i < length ws
weight_at-lt [] i h = elim h [ ]
weight_at-lt (w ∷ ws) zero h = omega arith
weight_at-lt (w ∷ ws) (suc i) h = omega (arith, weight_at-lt ws i h)
