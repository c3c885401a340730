-- ===== src/Base/Action.antt =====
-- Calls that change the world and may raise: what a call did stays done when a later one raises.
use mathlib.Core.Path.{◌≡◌, refl, ap}
use live_data_architecture.Base.Results.{Result, ok, err, ok-injective}

abbrev pub Action {ℓ κ μ} : Type ℓ → Type κ → Type μ → Type (ℓ ⊔ κ ⊔ μ)
Action W E A = W → Result E A × W

abbrev pub pure {ℓ κ μ} : {W : Type ℓ} {E : Type κ} {A : Type μ} → A → Action W E A
pure a w = (ok a, w)

abbrev pub after {ℓ κ μ ν} :
    {W : Type ℓ} {E : Type κ} {A : Type μ} {B : Type ν}
    → Result E A × W
    → (A → Action W E B)
    → Result E B × W
after (ok a, w) f = f a w
after (err e, w) f = (err e, w)

infixl 5 ◌>>=◌
abbrev pub ◌>>=◌ {ℓ κ μ ν} :
    {W : Type ℓ} {E : Type κ} {A : Type μ} {B : Type ν}
    → Action W E A
    → (A → Action W E B)
    → Action W E B
(m >>= f) w = after (m w) f

pub after-eq-ok {ℓ κ μ ν} :
    {W : Type ℓ} {E : Type κ} {A : Type μ} {B : Type ν} (m : Result E A × W) (f : A → Action W E B)
    {b : B} {w' : W}
    → after m f ≡ (ok b, w')
    → (a : A) × (w : W) × (m ≡ (ok a, w)) × (f a w ≡ (ok b, w'))
after-eq-ok (ok a, w) f h = (a, w, refl, h)
after-eq-ok (err e, w) f h = cc

-- A step that cannot raise leaves the world as it was.
pub after-pure {ℓ κ μ ν} :
    {W : Type ℓ} {E : Type κ} {A : Type μ} {B : Type ν} (m : Result E A × W) (f : A → B)
    → (after m (λ a. pure (f a))).1 ≡ m.1
after-pure (ok a, w) f = refl
after-pure (err e, w) f = refl

pub pure-value {ℓ κ μ} :
    {W : Type ℓ} {E : Type κ} {A : Type μ} {a b : A} {w w' : W}
    → pure {W = W} {E = E} a w ≡ (ok b, w')
    → a ≡ b
pure-value h = ok-injective (ap (λ x. x.0) h)
