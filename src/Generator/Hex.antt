-- ===== src/Generator/Hex.antt =====
-- Hexadecimal text as `f"{n:08x}"` and `f"{n:016x}"` print it: lowercase, filled with zeros up to
-- the width, and longer where the number needs more digits.
use Prim.Native.Char.{code}
use native.Mathlib.Nat.{pow-suc}
use live_data_architecture.Base.{
  ℕ, zero, suc, ◌+◌, ◌-◌, ◌*◌, ◌/◌, ◌%◌, ◌^◌, ◌≤◌, ◌<◌, String, ◌≡◌, refl, ap, List, [], ◌∷◌, ◌++◌,
  arith, leb, eqb, if◌then◌else◌,
}

-- A text by its code points. `String` has its own `[]` and `∷`.
abbrev pub codes : String → List ℕ
codes String.[] = []
codes (String.◌∷◌ c s) = code c ∷ codes s

unfoldable pub hex_digit : ℕ → ℕ
hex_digit d = if leb d 9 then b'0' + d else b'a' + (d - 10)

-- The digits of `n` with no filling: none for 0. A number has fewer digits than the fuel `n`.
unfoldable pub hex_digits : ℕ → ℕ → List ℕ
unfolding hex_digit
hex_digits zero n = []
hex_digits (suc fuel) n =
    let more = hex_digits fuel (n / 16) ++ hex_digit (n % 16) ∷ [] in if eqb n 0 then [] else more

unfoldable pub format_hex : ℕ → ℕ → List ℕ
unfolding hex_digits hex_digit
format_hex zero n = hex_digits n n
format_hex (suc width) n = format_hex width (n / 16) ++ hex_digit (n % 16) ∷ []

-- `int(text, 16)` of lowercase digits
unfoldable pub digit_value : ℕ → ℕ
digit_value c = if leb c b'9' then c - b'0' else c - b'a' + 10

pub parse_hex : ℕ → List ℕ → ℕ
parse_hex acc [] = acc
parse_hex acc (c ∷ cs) = parse_hex (acc * 16 + digit_value c) cs

pub parse_hex-append :
    (acc : ℕ) (xs ys : List ℕ) → parse_hex acc (xs ++ ys) ≡ parse_hex (parse_hex acc xs) ys
unfolding parse_hex
parse_hex-append acc [] ys = refl
parse_hex-append acc (x ∷ xs) ys = parse_hex-append (acc * 16 + digit_value x) xs ys

parse_hex-concat :
    (acc : ℕ) (xs : List ℕ) (c : ℕ)
    → parse_hex acc (xs ++ c ∷ []) ≡ parse_hex acc xs * 16 + digit_value c
unfolding parse_hex
parse_hex-concat acc xs c = parse_hex-append acc xs (c ∷ [])

digit_value-hex_digit : (d : ℕ) → d < 16 → digit_value (hex_digit d) ≡ d
unfolding digit_value hex_digit
digit_value-hex_digit d h = ground arith

parse_hex-hex_digits : (fuel n : ℕ) → n ≤ fuel → parse_hex 0 (hex_digits fuel n) ≡ n
unfolding hex_digits parse_hex
parse_hex-hex_digits zero n h = omega arith
parse_hex-hex_digits (suc fuel) n h = ground (
  arith,
  parse_hex-concat 0 (hex_digits fuel (n / 16)) (hex_digit (n % 16)),
  digit_value-hex_digit (n % 16),
  parse_hex-hex_digits fuel (n / 16),
)

-- Reading back what was printed gives the number, at any width.
pub parse_hex-format_hex : (width n : ℕ) → parse_hex 0 (format_hex width n) ≡ n
unfolding format_hex
parse_hex-format_hex zero n = parse_hex-hex_digits n n (omega arith)
parse_hex-format_hex (suc width) n = omega (
  arith,
  parse_hex-concat 0 (format_hex width (n / 16)) (hex_digit (n % 16)),
  digit_value-hex_digit (n % 16) (omega arith),
  parse_hex-format_hex width (n / 16),
)

-- A number that fits the width is printed with exactly that many digits, so they push a number read
-- before them that many places up.
pub parse_hex-format_hex_after :
    (width acc n : ℕ) → n < 16 ^ width → parse_hex acc (format_hex width n) ≡ acc * 16 ^ width + n
unfolding format_hex parse_hex
parse_hex-format_hex_after zero acc n h = let e : n ≡ 0 = omega arith in rw e (omega arith)
parse_hex-format_hex_after (suc width) acc n h = omega (
  arith,
  pow-suc 16 width,
  ap (λ (p : ℕ). acc * p) (pow-suc 16 width),
  parse_hex-concat acc (format_hex width (n / 16)) (hex_digit (n % 16)),
  digit_value-hex_digit (n % 16) (omega arith),
  parse_hex-format_hex_after width acc (n / 16) (omega (arith, pow-suc 16 width)),
)

prints : format_hex 8 0xbeef ≡ codes "0000beef"
unfolding format_hex
prints = refl
