-- ===== src/Generator/Events/Draws.antt =====
-- Steps of the generator that succeed and change nothing but the random source.
use live_data_architecture.Base.{
  ℕ, zero, suc, ◌≤◌, ◌<◌, ◌-◌, ◌/◌, ◌≡◌, refl, ap, ◌∙◌, some, List, [], ◌∷◌, length, get_elem?,
  arith, Bool-cases, inl, inr,
}
use live_data_architecture.Base.Results.{Result, ok}
use live_data_architecture.Base.Action.{after}
use live_data_architecture.Generator.Rng.{Rng}
use live_data_architecture.Generator.FakerCatalog.{Product}
use live_data_architecture.Generator.Events.{
  GeneratorError, EventGenerator, Step, pick, choose_preferred, choose_amount,
}

-- The item is in the list.
abbrev pub Among {ℓ} : {A : Type ℓ} → List A → A → Type ℓ
Among xs x = (i : ℕ) × (get_elem? xs i ≡ some x)

get_elem?-lt {ℓ} :
    {A : Type ℓ} (xs : List A) (i : ℕ) → i < length xs → (x : A) × (get_elem? xs i ≡ some x)
get_elem?-lt [] i h = absurd (omega arith)
get_elem?-lt (x ∷ xs) zero h = (x, refl)
get_elem?-lt (x ∷ xs) (suc i) h = get_elem?-lt xs i (omega arith)

-- At most a fifth is taken off the price.
abbrev pub Discounted : Product → ℕ → Type 0
Discounted product amount =
    (product.price_cents - product.price_cents / 5 ≤ amount) × (amount ≤ product.price_cents)

module _ (R : Rng) where
  abbrev pub Draws {ℓ κ} :
      {A : Type ℓ}
      → EventGenerator R
      → (A → Type κ)
      → Result GeneratorError A × EventGenerator R
      → Type (ℓ ⊔ κ)
  Draws {A = A} g P x = (a : A) × (s : R.State) × (x ≡ (ok a, record g { rng = s })) × P a

  pub Draws-after {ℓ κ μ ν} :
      {A : Type ℓ} {B : Type κ} (P : A → Type μ) (Q : B → Type ν) (g : EventGenerator R)
      (x : Result GeneratorError A × EventGenerator R) (f : A → Step R B)
      → Draws g P x
      → ((a : A) (s : R.State) → P a → Draws (record g { rng = s }) Q (f a (record g { rng = s })))
      → Draws g Q (after x f)
  Draws-after P Q g x f (a, s, e, p) next =
      let (b, t, e', q) = next a s p in (b, t, ap (λ y. after y f) e ∙ e', q)

  pub pick-Draws :
      {A : Type 0} (items : List A) (g : EventGenerator R)
      → 0 < length items
      → Draws g (Among items) (pick R items g)
  unfolding pick
  pick-Draws items g h =
      let (position, s) = R.choice (length items) g.rng in
      let (x, at) = get_elem?-lt items position (R.choice-lt (length items) g.rng h) in
      (x, s, rw at refl, (position, at))

  pub choose_preferred-Draws :
      {A : Type 0} (preferred items : List A) (g : EventGenerator R)
      → ((x : A) → Among preferred x → Among items x)
      → 0 < length items
      → Draws g (Among items) (choose_preferred R preferred items g)
  unfolding choose_preferred
  choose_preferred-Draws [] items g inside h = pick-Draws items g h
  choose_preferred-Draws (p ∷ ps) items g inside h =
      let (likes, s) = R.below_seven_tenths g.rng in
      elim (Bool-cases likes) [
        | inl wanted ↦
            let (x, t, e, at) = pick-Draws (p ∷ ps) (record g { rng = s }) (omega arith) in
            (x, t, rw wanted e, inside x at)
        | inr unwanted ↦
            let (x, t, e, at) = pick-Draws items (record g { rng = s }) h in
            (x, t, rw unwanted e, at)
      ]

  pub choose_amount-Draws :
      (product : Product) (g : EventGenerator R)
      → Draws g (Discounted product) (choose_amount R product g)
  unfolding choose_amount
  choose_amount-Draws product g =
      let (discount, s) = R.randint 0 (product.price_cents / 5) g.rng in
      let (from, to) = R.randint_bounds 0 (product.price_cents / 5) g.rng (omega arith) in
      (product.price_cents - discount, s, refl, omega (arith, to))
