-- ===== src/Generator/FakerCatalog/Identifier/Decimal.antt =====
-- Decimal text as `f"{n}"` prints it. A number has fewer digits than the fuel `n`.
use Prim.Native.Char.{Char, IsScalar, code}
use Prim.Native.String.{◌++◌}
use text.Mathlib.TextLemmas.{cons-append, nil-append}
use live_data_architecture.Base.{
  ℕ, zero, suc, ◌+◌, ◌-◌, ◌*◌, ◌/◌, ◌%◌, ◌≤◌, ◌<◌, String, ◌≡◌, refl, sym, ap, ◌∙◌, arith, eqb,
  if◌then◌else◌, true, false, ◌==◌, Bool-cases, inl, inr,
}

pub digit-IsScalar : (d : ℕ) → IsScalar (b'0' + d % 10)
digit-IsScalar d = ground arith

unfoldable pub digit : ℕ → String
digit d = String.◌∷◌ (Char.char (b'0' + d % 10) (digit-IsScalar d)) ""

-- None for 0
unfoldable pub digits : ℕ → ℕ → String
unfolding digit
digits zero n = ""
digits (suc fuel) n =
    let more = digits fuel (n / 10) ++ digit (n % 10) in if eqb n 0 then "" else more

unfoldable pub decimal : ℕ → String
unfolding digits digit
decimal n = if eqb n 0 then "0" else digits n n

-- `int(text)` of decimal digits
read_decimal : ℕ → String → ℕ
read_decimal acc String.[] = acc
read_decimal acc (String.◌∷◌ c s) = read_decimal (acc * 10 + (code c - b'0')) s

read_decimal-append :
    (acc : ℕ) (s t : String) → read_decimal acc (s ++ t) ≡ read_decimal (read_decimal acc s) t
unfolding read_decimal digit
read_decimal-append acc String.[] t = rw (nil-append) refl
read_decimal-append acc (String.◌∷◌ c s) t =
    rw (cons-append) (read_decimal-append (acc * 10 + (code c - b'0')) s t)

read_decimal-digit : (acc d : ℕ) → d < 10 → read_decimal acc (digit d) ≡ acc * 10 + d
unfolding read_decimal digit
read_decimal-digit acc d h = omega arith

eqb_zero : (n : ℕ) → eqb n 0 ≡ true → n ≡ 0
eqb_zero n h = ground arith

eqb_positive : (n : ℕ) → eqb n 0 ≡ false → 0 < n
eqb_positive n h = ground arith

read_decimal-digits : (fuel n : ℕ) → n ≤ fuel → read_decimal 0 (digits fuel n) ≡ n
unfolding digits read_decimal
read_decimal-digits zero n h = omega arith
read_decimal-digits (suc fuel) n h = elim (Bool-cases (eqb n 0)) [
  | inl z ↦ rw z (sym (eqb_zero n z))
  | inr p ↦
      rw (p, read_decimal-append 0 (digits fuel (n / 10)) (digit (n % 10)))
        (omega (
          arith,
          read_decimal-digit (read_decimal 0 (digits fuel (n / 10))) (n % 10) (omega arith),
          read_decimal-digits fuel (n / 10) (omega (arith, eqb_positive n p)),
        ))
]

read_decimal-decimal : (n : ℕ) → read_decimal 0 (decimal n) ≡ n
unfolding decimal read_decimal
read_decimal-decimal n = elim (Bool-cases (eqb n 0)) [
  | inl z ↦ rw z (sym (eqb_zero n z))
  | inr p ↦ rw p (read_decimal-digits n n (omega arith))
]

-- Two numbers are not printed alike.
pub decimal-injective : (m n : ℕ) → decimal m ≡ decimal n → m ≡ n
decimal-injective m n e =
    sym (read_decimal-decimal m) ∙ ap (read_decimal 0) e ∙ read_decimal-decimal n

prints : (decimal 1_907 == "1907") ≡ true
unfolding decimal digits digit
prints = refl
