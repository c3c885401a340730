-- ===== src/Charts/Examples.antt =====
-- Charts of small results.
use live_data_architecture.Base.{String, ◌≡◌, refl, true, false, some, [], ◌∷◌}
use live_data_architecture.Charts.{
  JsonValue, AnalyticsRows, ChartKind, is_numeric_column, numeric_columns, first_non_numeric_column,
  plot, suggest_chart,
}
use live_data_architecture.Charts.Axes.{IsPlot, suggest_chart_plots}

abbrev same_text : String → String
same_text s = s

abbrev hourly : AnalyticsRows
hourly = record {
  columns = "event_hour" ∷ "event_type" ∷ "event_count" ∷ [];
  rows =
      (("event_hour", JsonValue.text "2026-04-24T00:00:00")
        ∷ ("event_type", JsonValue.text "purchase")
        ∷ ("event_count", JsonValue.integer false 4)
        ∷ [])
      ∷ [];
}

-- Counts by the hour are a line for each type of event.
hourly_line : suggest_chart same_text hourly ≡ record {
  chart_kind = ChartKind.line;
  x_axis = some "event_hour";
  y_axis = some "event_count";
  series_axis = some "event_type";
}
unfolding suggest_chart numeric_columns plot first_non_numeric_column
hourly_line = refl

count_numeric : is_numeric_column hourly "event_count" ≡ true
unfolding is_numeric_column
count_numeric = refl

type_not_numeric : is_numeric_column hourly "event_type" ≡ false
unfolding is_numeric_column
type_not_numeric = refl

suggest_chart_plots_example :
    (x : String) × (y : String) × IsPlot same_text hourly (suggest_chart same_text hourly) x y
suggest_chart_plots_example =
    suggest_chart_plots same_text hourly "event_count" "event_type" refl count_numeric refl
      type_not_numeric
