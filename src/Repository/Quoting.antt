-- ===== src/Repository/Quoting.antt =====
-- Quoting keeps identifiers apart from each other and from the text after them. The functions that
-- read a text here are the inverse of quoting that the proof uses; they stand for no code.
use Prim.Native.Char.{Char}
use Prim.Native.String.{◌++◌}
use text.Mathlib.TextLemmas.{append_assoc, cons-append, nil-append}
use live_data_architecture.Base.{
  String, ◌≡◌, refl, Bool, true, false, Option, none, some, if◌then◌else◌, Bool-cases, inl, inr,
  sym, ap, ◌∙◌, some-injective,
}
use live_data_architecture.Repository.Sql.{is_quote, double_quotes, quoted_identifier}

-- Another character of the identifier that is being read.
abbrev add_char : Char → Option (String × String) → Option (String × String)
add_char c none = none
add_char c (some (identifier, rest)) = some (String.◌∷◌ c identifier, rest)

-- The identifier up to its closing quote, and the text after it. After a quote it is not known
-- yet whether that was the closing one.
read_body : Bool → String → Option (String × String)
read_body false String.[] = none
read_body true String.[] = some ("", "")
read_body false (String.◌∷◌ c s) =
    let at_quote = read_body true s in
    let other = read_body false s in if is_quote c then at_quote else add_char c other
read_body true (String.◌∷◌ c s) =
    let inside = read_body false s in
    if is_quote c then add_char c inside else some ("", String.◌∷◌ c s)

read_identifier : String → Option (String × String)
read_identifier String.[] = none
read_identifier (String.◌∷◌ c s) = let body = read_body false s in if is_quote c then body else none

-- A text that does not begin with a quote.
abbrev pub StartsUnquoted : String → Type 0
StartsUnquoted String.[] = Unit
StartsUnquoted (String.◌∷◌ c s) = is_quote c ≡ false

read_body_end : (rest : String) → StartsUnquoted rest → read_body true rest ≡ some ("", rest)
unfolding read_body
read_body_end String.[] h = refl
read_body_end (String.◌∷◌ c s) h = rw h refl

read_body-double_quotes :
    (s rest : String)
    → StartsUnquoted rest
    → read_body false (double_quotes s ++ "\"" ++ rest) ≡ some (s, rest)
unfolding read_body double_quotes
read_body-double_quotes String.[] rest h =
    rw (nil-append, cons-append, nil-append) (read_body_end rest h)
read_body-double_quotes (String.◌∷◌ c s) rest h = elim (Bool-cases (is_quote c)) [
  | inl q ↦ rw (q, cons-append, cons-append, q, read_body-double_quotes s rest h) refl
  | inr n ↦ rw (n, cons-append, n, read_body-double_quotes s rest h) refl
]

-- A quoted identifier followed by a text that does not begin with a quote.
read_identifier-quoted_identifier :
    (s rest : String)
    → StartsUnquoted rest
    → read_identifier (quoted_identifier s ++ rest) ≡ some (s, rest)
unfolding read_identifier quoted_identifier
read_identifier-quoted_identifier s rest h =
    simp append_assoc (rw (cons-append, nil-append) (read_body-double_quotes s rest h))

-- Whatever characters an identifier holds, it does not run into the text around it: if two texts
-- are each a quoted identifier and then something that does not begin with a quote, and the texts
-- are equal, then the identifiers are equal and so is what follows them.
pub quoted_identifier-injective :
    (s t after_s after_t : String)
    → StartsUnquoted after_s
    → StartsUnquoted after_t
    → quoted_identifier s ++ after_s ≡ quoted_identifier t ++ after_t
    → (s ≡ t) × (after_s ≡ after_t)
quoted_identifier-injective s t after_s after_t hs ht same =
    let both : some (s, after_s) ≡ some (t, after_t) =
      sym (read_identifier-quoted_identifier s after_s hs)
      ∙ ap read_identifier same
      ∙ read_identifier-quoted_identifier t after_t ht in
    let pair = some-injective both in
    (ap (λ (x : String × String). x.0) pair, ap (λ (x : String × String). x.1) pair)
