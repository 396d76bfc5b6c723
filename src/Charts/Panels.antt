-- ===== src/Charts/Panels.antt =====
-- The frames and cards around the charts: frontend/src/components/charts/ChartFrame.tsx, PlaceCharts.tsx,
-- SeriesChart.tsx, ChartTooltip.tsx and Sparkline.tsx.
use mathlib.Core.Option
use energlens.Common.{
  ℕ, ◌==◌, Bool, true, false, Option, none, some, List, [], ◌∷◌, ◌++◌, map, filter_map, Text, codes,
  of_ℕ, if◌then◌else◌, ltb, length, or_else,
}
use energlens.Number.{Number}
use energlens.Format.{Intl, Value, nothing, amount, written, fmt_currency, fmt_number, fmt_date}
use energlens.Api.{SeriesPoint}
use energlens.Client.{Thrown}
use energlens.Charts.{ChartStatus, pending, error, empty, ready, month_rows}
use energlens.Queries.{Metric, consumption, cost, unit_price}

-- What `ChartFrame` shows below its head.
pub data Panel : Type 0 where
  error_panel skeleton body : Panel
  empty_panel : Text → Panel

unfoldable pub frame_panel : ChartStatus → Option Text → Panel
frame_panel error message = error_panel
frame_panel pending message = skeleton
frame_panel empty message = empty_panel (or_else message (codes "No bills in this range yet."))
frame_panel ready message = body

pub record PlaceSummary : Type 0 where
  pub place_id : Text
  pub currency_code : Text
  pub bill_count : ℕ
  pub total_consumption : Option Text
  pub total_cost : Option Text
  pub avg_effective_unit_price : Option Text
  pub first_period_start : Option Text
  pub last_period_end : Option Text
  pub last_bill_total : Option Text
  pub last_bill_consumption : Option Text

pub record Tile : Type 0 where
  pub label : Text
  pub value : Text
  pub note : Option Text

pub data SummaryView : Type 0 where
  summary_failed : Thrown → SummaryView
  no_summary : SummaryView
  tiles : List Tile → SummaryView

pub data ChartKind : Type 0 where
  bar line : ChartKind

-- A card of `PlaceCharts`: what `MetricChart` shows.
pub data CardView (F : Type 0) : Type 0 where
  card_failed : Thrown → CardView F
  loading : CardView F
  series_chart : List (SeriesPoint F) → CardView F

-- What `SeriesChart` draws: no data, or the rows of its chart.
pub data SeriesView (F : Type 0) : Type 0 where
  no_data : SeriesView F
  rows : List (Text × Option F) → SeriesView F

abbrev written_or : Option Text → (Text → Text) → Text
written_or none f = []
written_or (some []) f = []
written_or (some (c ∷ cs)) f = f (c ∷ cs)

module _ {F : Type 0} ⦃n : Number F⦄ where
  module _ (intl : Intl F) where
    -- `string | null`
    abbrev field : Option Text → Value F
    field none = nothing
    field (some s) = written s

    abbrev summary_tiles : PlaceSummary → List Tile
    summary_tiles s =
        record {
          label = codes "Total cost";
          value = fmt_currency intl (field s.total_cost) s.currency_code 0;
          note = some (of_ℕ s.bill_count ++ codes " bills");
        }
        ∷ record {
          label = codes "Total consumption";
          value = fmt_number intl (field s.total_consumption) 0 ++ codes " kWh";
          note = none;
        }
        ∷ record {
          label = codes "Avg effective price";
          value = fmt_currency intl (field s.avg_effective_unit_price) s.currency_code 4;
          note = some (codes "per kWh, all-in");
        }
        ∷ record {
          label = codes "Last bill";
          value = fmt_currency intl (field s.last_bill_total) s.currency_code 2;
          note = some (
              written_or s.last_bill_consumption
                (λ c. fmt_number intl (written c) 0 ++ codes " kWh · ")
              ++ written_or s.last_period_end (λ d. codes "to " ++ fmt_date intl d));
        }
        ∷ []

    -- `SummaryTiles`
    unfoldable pub summary_view : Option Thrown → Option PlaceSummary → SummaryView
    summary_view (some e) summary = summary_failed e
    summary_view none none = no_summary
    summary_view none (some s) = if s.bill_count == 0 then no_summary else tiles (summary_tiles s)

    -- `formatValue` of a card
    unfoldable pub format_value : Metric → Text → F → Text
    format_value consumption currency v = fmt_number intl (amount v) 1 ++ codes " kWh"
    format_value cost currency v = fmt_currency intl (amount v) currency 2
    format_value unit_price currency v = fmt_currency intl (amount v) currency 4

    -- `ChartTooltip`: the values of the rows that have one
    unfoldable pub tooltip_values : (F → Text) → Bool → List (Option F) → Option (List Text)
    tooltip_values format is_active payload = elim (filter_map (λ v. v) payload) [
      | [] ↦ none
      | x ∷ xs ↦ if is_active then some (map format (x ∷ xs)) else none
    ]

  -- The branches of `MetricChart`: an error first, for a query that failed has no data and is not loading.
  unfoldable pub card_view : Option Thrown → Bool → Option (List (SeriesPoint F)) → CardView F
  card_view (some e) is_loading points = card_failed e
  card_view none true points = loading
  card_view none false none = loading
  card_view none false (some points) = series_chart points

  -- The data of `SeriesChart`; `month_rows` may run out of fuel.
  unfoldable pub series_view : ℕ → Bool → List (SeriesPoint F) → Option (SeriesView F)
  series_view fuel by_bill [] = some no_data
  series_view fuel true (p ∷ ps) = some (rows (map (λ q. (q.period, some q.value)) (p ∷ ps)))
  series_view fuel false (p ∷ ps) = Option.map rows (month_rows fuel (p ∷ ps))

  -- `Sparkline`: the points of the line, numbered, or the empty box for fewer than two
  unfoldable pub spark_points : List F → Option (List F)
  spark_points values = if ltb (length values) 2 then none else some values

-- `METRICS` of PlaceCharts.tsx, with the kind of each chart.
unfoldable pub place_charts : Text → List (Metric × Text × ChartKind)
place_charts currency =
    (cost, codes "Cost per month (" ++ currency ++ codes ")", line)
    ∷ (consumption, codes "Consumption per month (kWh)", bar)
    ∷ (unit_price, codes "Effective price (" ++ currency ++ codes "/kWh — total paid ÷ kWh)", line)
    ∷ []
