-- ===== src/Charts.antt =====
-- backend/app/event_analytics/application/chart_suggestion.py: the chart that is suggested for the
-- rows of a query. `str.lower` is a parameter.
pub mod Axes
mod Examples
use Prim.Native.Char.{Char, code}
use Prim.Native.String
use live_data_architecture.Base.{
  ℕ, String, Bool, true, false, not, ◌&&◌, ◌||◌, Option, none, some, List, [], ◌∷◌, eqb, ◌==◌,
  length, all, any, contains, if◌then◌else◌,
}

mutual
  pub data JsonValue : Type 0 where
    null : JsonValue
    boolean : Bool → JsonValue
    -- An `int` by its sign and size, a `float` by its text.
    integer : Bool → ℕ → JsonValue
    float : String → JsonValue
    text : String → JsonValue
    array : JsonArray → JsonValue
    object : JsonFields → JsonValue

  pub data JsonArray : Type 0 where
    empty_array : JsonArray
    item : JsonValue → JsonArray → JsonArray

  pub data JsonFields : Type 0 where
    empty_object : JsonFields
    field : String → JsonValue → JsonFields → JsonFields

pub record AnalyticsRows : Type 0 where
  pub columns : List String
  pub rows : List (List (String × JsonValue))

pub data ChartKind : Type 0 where
  bar line table metric pie : ChartKind

pub record ChartSuggestion : Type 0 where
  pub chart_kind : ChartKind
  pub x_axis : Option String
  pub y_axis : Option String
  pub series_axis : Option String

pub record AnalyticsQueryResult : Type 0 where
  pub columns : List String
  pub rows : List (List (String × JsonValue))
  pub chart : ChartSuggestion

abbrev time_column_hints : List String
time_column_hints = "hour" ∷ "time" ∷ "date" ∷ "occurred" ∷ []

unfoldable pub is_numeric : JsonValue → Bool
is_numeric (integer negative size) = true
is_numeric (float digits) = true
is_numeric _ = false

-- `row.get(column)`
unfoldable pub get : List (String × JsonValue) → String → JsonValue
get [] column = null
get ((name, value) ∷ row) column =
    let rest = get row column in if name == column then value else rest

abbrev pub is_empty {ℓ} : {A : Type ℓ} → List A → Bool
is_empty [] = true
is_empty (x ∷ xs) = false

unfoldable pub is_numeric_column : AnalyticsRows → String → Bool
unfolding is_numeric get
is_numeric_column r column =
    not (is_empty r.rows) && all (λ row. is_numeric (get row column)) r.rows

abbrev pub filter : (String → Bool) → List String → List String
filter p [] = []
filter p (x ∷ xs) = let rest = filter p xs in if p x then x ∷ rest else rest

unfoldable pub numeric_columns : AnalyticsRows → List String
unfolding is_numeric_column
numeric_columns r = filter (is_numeric_column r) r.columns

-- The first name that satisfies a test.
abbrev pub find : (String → Bool) → List String → Option String
find p [] = none
find p (x ∷ xs) = let rest = find p xs in if p x then some x else rest

-- `columns[0]`
abbrev pub head : List String → Option String
head [] = none
head (x ∷ xs) = some x

abbrev pub or_first : Option String → List String → Option String
or_first none columns = head columns
or_first (some x) columns = some x

unfoldable pub first_non_numeric_column : List String → List String → Option String
first_non_numeric_column columns numeric =
    or_first (find (λ c. not (contains numeric c)) columns) columns

unfoldable pub series_axis : List String → String → String → Option String
series_axis columns x y = find (λ c. not (c == x || c == y)) columns

abbrev pub starts_with : String → String → Bool
starts_with String.[] t = true
starts_with (String.◌∷◌ c s) String.[] = false
starts_with (String.◌∷◌ c s) (String.◌∷◌ d t) = eqb (code c) (code d) && starts_with s t

-- `hint in lowered`
abbrev pub occurs_in : String → String → Bool
occurs_in hint String.[] = starts_with hint String.[]
occurs_in hint (String.◌∷◌ c t) = starts_with hint (String.◌∷◌ c t) || occurs_in hint t

module _ (lower : String → String) where
  unfoldable pub looks_temporal : String → Bool
  looks_temporal column = any (λ hint. occurs_in hint (lower column)) time_column_hints

  abbrev pub no_chart : ChartSuggestion
  no_chart = record {
    chart_kind = ChartKind.table;
    x_axis = none;
    y_axis = none;
    series_axis = none;
  }

  -- `x_axis` and `y_axis` are both found, as the first item of a non-empty sequence.
  unfoldable pub plot : AnalyticsRows → Option String → Option String → ChartSuggestion
  unfolding looks_temporal series_axis
  plot r (some x) (some y) = record {
    chart_kind = if looks_temporal x then ChartKind.line else ChartKind.bar;
    x_axis = some x;
    y_axis = some y;
    series_axis = series_axis r.columns x y;
  }
  plot r _ _ = no_chart

  unfoldable pub suggest_chart : AnalyticsRows → ChartSuggestion
  suggest_chart r =
      let numeric = numeric_columns r in
      if is_empty r.columns
      then no_chart
      else if eqb (length r.columns) 1 || eqb (length numeric) (length r.columns)
      then record {
        chart_kind = ChartKind.metric;
        x_axis = none;
        y_axis = or_first (head numeric) r.columns;
        series_axis = none;
      }
      else if is_empty numeric
      then no_chart
      else plot r (first_non_numeric_column r.columns numeric) (head numeric)

  -- `AnalyticsQueryResult(columns=…, rows=…, chart=suggest_chart(rows))`
  unfoldable pub query_result : AnalyticsRows → AnalyticsQueryResult
  unfolding suggest_chart
  query_result r = record { columns = r.columns; rows = r.rows; chart = suggest_chart r }
