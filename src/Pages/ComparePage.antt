-- ===== src/Pages/ComparePage.antt =====
-- frontend/src/pages/ComparePage.tsx: the state of the compare page's controls, and what it derives
-- from a place's months for the chart, the tiles, the ribbon and the export.
pub mod Chips
pub mod Tiles
use mathlib.Core.Option
use energlens.Common.{
  ℕ, ◌+◌, ◌==◌, Bool, true, false, not, ◌&&◌, ◌||◌, Option, none, some, List, [], ◌∷◌, ◌++◌, map,
  foldl, reverse, Text, codes, if◌then◌else◌, or_else, is_some, find, filter_by, filter_map, length,
  last_n, before_last_n,
}
use energlens.Number.{Number}
use energlens.Format.{Intl, dash, fmt_signed_pct}
use energlens.Api.{Place}
use energlens.Axis.{max_of}
use energlens.Bills.{pct_change}
use energlens.Months.{MonthBucket}
use energlens.Metrics.Windows.{yoy_delta}
use energlens.Compare.{
  ChartTokens, MetricId, total, kwh, eff, price, energy, taxes, per_day, mix, ModeId, yoy, years,
  mom, same, MetricDescriptor, CompareData, CompareInput, month_label,
}
use energlens.Compare.Years.{available_years, includes}
use energlens.Compare.Modes.{ModeDescriptor}
use energlens.Compare.Csv.{to_csv}
use energlens.Session.Preferences.{DefaultRange, range24}
use energlens.Pages.Periods.{in_window, range_months}

pub record Choice : Type 0 where
  pub metric_id : MetricId
  pub mode_id : ModeId
  pub range : DefaultRange
  pub same_month : ℕ
  pub excluded_years : List ℕ

unfoldable pub first_choice : Choice
first_choice = record {
  metric_id = total;
  mode_id = yoy;
  range = range24;
  same_month = 1;
  excluded_years = [];
}

-- `availableYears.filter((y) => !excludedYears.includes(y))`
unfoldable pub chosen_years : List ℕ → List ℕ → List ℕ
chosen_years available excluded = filter_by (λ y. not (includes excluded y)) available

-- A year's chip is pressed, and it is disabled.
unfoldable pub chip_pressed : List ℕ → ℕ → Bool
chip_pressed selected year = includes selected year

unfoldable pub chip_disabled : List ℕ → ℕ → Bool
chip_disabled selected year = (length selected == 1) && includes selected year

-- `setExcludedYears`
unfoldable pub toggle_year : ℕ → List ℕ → List ℕ
toggle_year year excluded =
    if includes excluded year
    then filter_by (λ y. not (y == year)) excluded
    else excluded ++ (year ∷ [])

pub data ChoiceEvent : Type 0 where
  picks_metric : MetricId → ChoiceEvent
  picks_mode : ModeId → ChoiceEvent
  picks_range : DefaultRange → ChoiceEvent
  picks_month toggles : ℕ → ChoiceEvent

unfoldable pub choose : ChoiceEvent → Choice → Choice
choose (picks_metric id) c = record c { metric_id = id }
choose (picks_mode id) c = record c { mode_id = id }
choose (picks_range range) c = record c { range = range }
choose (picks_month month) c = record c { same_month = month }
choose (toggles year) c = record c { excluded_years = toggle_year year c.excluded_years }

-- `metric.id`, `mode.id`
unfoldable pub metric_id_text : MetricId → Text
metric_id_text total = codes "total"
metric_id_text kwh = codes "kwh"
metric_id_text eff = codes "eff"
metric_id_text price = codes "price"
metric_id_text energy = codes "energy"
metric_id_text taxes = codes "taxes"
metric_id_text per_day = codes "perDay"
metric_id_text mix = codes "mix"

unfoldable pub mode_id_text : ModeId → Text
mode_id_text yoy = codes "yoy"
mode_id_text years = codes "years"
mode_id_text mom = codes "mom"
mode_id_text same = codes "same"

unfoldable pub label_every : ModeId → ℕ
label_every mom = 3
label_every yoy = 2
label_every years = 1
label_every same = 1

module _ {F : Type 0} ⦃n : Number F⦄ where
  abbrev pub input_of :
      Choice
      → MetricDescriptor F
      → ChartTokens
      → Text
      → Bool
      → List (MonthBucket F)
      → CompareInput F
  input_of c metric tokens currency is_mini all_buckets =
      let buckets = in_window (range_months c.range) all_buckets in
      record {
        buckets = buckets;
        metric = metric;
        tokens = tokens;
        currency = currency;
        years = some (chosen_years (available_years buckets) c.excluded_years);
        month = some c.same_month;
        is_mini = is_mini;
      }

  -- `data` and, for a tile, `tileData`
  unfoldable pub chart_data :
      Choice
      → MetricDescriptor F
      → ModeDescriptor F
      → ChartTokens
      → Text
      → Bool
      → List (MonthBucket F)
      → Option (CompareData F)
  chart_data c metric mode tokens currency is_mini all_buckets =
      if metric.is_mix_view
      then none
      else some (mode.build (input_of c metric tokens currency is_mini all_buckets))

  -- `exportCsv`: the file's name and its text; nothing under `mix`
  unfoldable pub export_csv :
      Option Place
      → MetricDescriptor F
      → ModeDescriptor F
      → Option (CompareData F)
      → Option (Text × Text)
  export_csv place metric mode none = none
  export_csv place metric mode (some chart) = some (
    or_else (Option.map (λ p. p.name) place) (codes "place")
        ++ (b'-' ∷ metric_id_text metric.id)
        ++ (b'-' ∷ mode_id_text mode.id)
        ++ codes ".csv",
    to_csv chart metric mode,
  )
