-- ===== src/ViewTable.antt =====
-- backend/app/event_analytics/application/view_table_service.py: validating, previewing, saving and
-- deleting view tables. A preview returns its rows here; the chart that the source adds to them is what
-- Charts suggests for rows. Errors are their reasons.
pub mod Names
pub mod Service
mod Examples
use Prim.Native.Char.{Char, code}
use Prim.Native.String.{count}
use Prim.Native.String
use live_data_architecture.Base.{
  ℕ, String, Bool, true, false, not, ◌&&◌, ◌||◌, List, [], ◌∷◌, ◌++◌, some, min, leb, ltb, eqb,
  ◌==◌, if◌then◌else◌, contains,
}
use live_data_architecture.Base.Results.{Result, ok, err, raise_if, ◌>>=◌, ◌>>◌}
use live_data_architecture.Catalog.{
  AnalyticsDataset, AnalyticsViewTable, DatabaseError, allowed_dataset_names,
  dataset_from_view_table, service_dataset_names,
}
use live_data_architecture.SqlPolicy.{
  RejectionReason, AnalyticsSqlPolicy, ValidatedSqlQuery, validate,
}
use live_data_architecture.SqlPolicy.Parser.{SqlGlot}

abbrev pub max_view_table_row_limit : ℕ
max_view_table_row_limit = 100

abbrev pub max_view_table_description_length : ℕ
max_view_table_description_length = 240

-- `VIEW_TABLE_SOURCE_RELATION_NAMES`
abbrev pub view_table_source_relation_names : List String
view_table_source_relation_names = "events" ∷ []

pub data ViewTableError : Type 0 where
  invalid_view_table_name view_table_description_too_long : ViewTableError
  reserved_view_table_name execution_unavailable : ViewTableError
  sql_policy : RejectionReason → ViewTableError
  token_error : ViewTableError

unfoldable pub is_lower : Char → Bool
is_lower c = leb b'a' (code c) && leb (code c) b'z'

unfoldable pub is_name_char : Char → Bool
unfolding is_lower
is_name_char c = is_lower c || (leb b'0' (code c) && leb (code c) b'9') || eqb (code c) b'_'

unfoldable pub all_name_chars : String → Bool
unfolding is_name_char
all_name_chars String.[] = true
all_name_chars (String.◌∷◌ c s) = is_name_char c && all_name_chars s

-- `VIEW_TABLE_NAME_PATTERN.fullmatch`, for `^[a-z][a-z0-9_]{2,50}$`
unfoldable pub matches_name_pattern : String → Bool
unfolding is_lower all_name_chars
matches_name_pattern String.[] = false
matches_name_pattern (String.◌∷◌ c s) =
    is_lower c && all_name_chars s && leb 2 (count s) && leb (count s) 50

-- `str.strip` and `str.lower`
pub record TextMethods : Type 0 where
  pub strip : String → String
  pub lower : String → String

module _ (T : TextMethods) where
  open T use {strip, lower}

  unfoldable pub normalized_view_table_name : String → Result ViewTableError String
  unfolding matches_name_pattern
  normalized_view_table_name name =
      let normalized = lower (strip name) in
      if matches_name_pattern normalized
      then ok normalized
      else err ViewTableError.invalid_view_table_name

  unfoldable pub normalized_view_table_description : String → Result ViewTableError String
  normalized_view_table_description description =
      let normalized = strip description in
      if ltb max_view_table_description_length (count normalized)
      then err ViewTableError.view_table_description_too_long
      else ok normalized

unfoldable pub is_reserved : String → Bool
unfolding allowed_dataset_names
is_reserved name =
    contains allowed_dataset_names name || contains view_table_source_relation_names name

-- `_ensure_name_is_not_reserved`
unfoldable pub ensure_name_is_not_reserved : String → Result ViewTableError (Unit {0})
unfolding is_reserved
ensure_name_is_not_reserved name =
    raise_if (is_reserved name) ViewTableError.reserved_view_table_name
