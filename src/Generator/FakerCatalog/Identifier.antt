-- ===== src/Generator/FakerCatalog/Identifier.antt =====
-- `_identifier_slug` and `_unique_identifier`. The loop over the suffixes has fuel: one more step
-- than there are identifiers in use.
pub mod Decimal
pub mod Fresh
use Prim.Native.Char.{Char, code}
use Prim.Native.String
use Prim.Native.String.{◌++◌}
use live_data_architecture.Base.{
  ℕ, zero, suc, ◌+◌, String, Bool, true, false, ◌&&◌, ◌||◌, not, Option, none, some, List, [], ◌∷◌,
  map, length, leb, eqb, contains, if◌then◌else◌,
}
use live_data_architecture.Generator.FakerCatalog.Identifier.Decimal.{decimal}

abbrev pub is_empty : String → Bool
is_empty String.[] = true
is_empty (String.◌∷◌ c s) = false

abbrev pub is_underscore : Char → Bool
is_underscore c = eqb (code c) b'_'

-- A character that the pattern `[^a-z0-9]+` leaves
abbrev pub is_slug_char : Char → Bool
is_slug_char c =
    (leb b'a' (code c) && leb (code c) b'z') || (leb b'0' (code c) && leb (code c) b'9')

-- `sub("_", text)`: an underscore for each run of other characters. The flag says that the text
-- continues a run.
unfoldable pub separated : Bool → String → String
separated in_run String.[] = ""
separated in_run (String.◌∷◌ c s) =
    let outside = separated false s in
    let inside = separated true s in
    if is_slug_char c then String.◌∷◌ c outside else if in_run then inside else "_" ++ inside

unfoldable pub strip_start : String → String
strip_start String.[] = ""
strip_start (String.◌∷◌ c s) =
    let rest = strip_start s in if is_underscore c then rest else String.◌∷◌ c s

unfoldable pub strip_end : String → String
strip_end String.[] = ""
strip_end (String.◌∷◌ c s) =
    let rest = strip_end s in if is_underscore c && is_empty rest then "" else String.◌∷◌ c rest

-- `strip("_")`
unfoldable pub strip_underscores : String → String
unfolding strip_start strip_end
strip_underscores s = strip_end (strip_start s)

-- `text[:n]`
unfoldable pub prefix_of : ℕ → String → String
prefix_of zero s = ""
prefix_of (suc n) String.[] = ""
prefix_of (suc n) (String.◌∷◌ c s) = String.◌∷◌ c (prefix_of n s)

-- `filter(None, …)`
unfoldable pub non_empty : List String → List String
non_empty [] = []
non_empty (s ∷ ss) = let rest = non_empty ss in if is_empty s then rest else s ∷ rest

-- `"_".join`
unfoldable pub joined : List String → String
joined [] = ""
joined (s ∷ []) = s
joined (s ∷ t ∷ ss) = s ++ "_" ++ joined (t ∷ ss)

abbrev pub or_item : String → String
or_item slug = if is_empty slug then "item" else slug

-- The candidates from one suffix on
unfoldable pub suffixed : String → List String → ℕ → ℕ → Option String
suffixed base existing zero suffix = none
suffixed base existing (suc fuel) suffix =
    let later = suffixed base existing fuel (suffix + 1) in
    let candidate = base ++ "_" ++ decimal suffix in
    if contains existing candidate then later else some candidate

unfoldable pub free_candidate : String → List String → Option String
unfolding suffixed
free_candidate base existing =
    let later = suffixed base existing (suc (length existing)) 2 in
    if contains existing base then later else some base

-- The identifier, and the set with it.
abbrev pub added : List String → Option String → Option (String × List String)
added existing none = none
added existing (some candidate) = some (candidate, candidate ∷ existing)

module _ (lower : String → String) where
  unfoldable pub identifier_slug : String → String
  unfolding separated strip_underscores
  identifier_slug value = strip_underscores (separated false (lower value))

  unfoldable pub slug_of : List String → ℕ → String
  unfolding identifier_slug joined non_empty prefix_of strip_underscores
  slug_of parts max_slug_length =
      strip_underscores (prefix_of max_slug_length (joined (non_empty (map identifier_slug parts))))

  unfoldable pub unique_identifier :
      String → List String → List String → ℕ → Option (String × List String)
  unfolding free_candidate slug_of
  unique_identifier prefix parts existing max_slug_length =
      added existing
        (free_candidate (prefix ++ "_" ++ or_item (slug_of parts max_slug_length)) existing)
