-- ===== src/Pages/ComparePage/Tiles.antt =====
-- frontend/src/pages/ComparePage.tsx: the figures of a metric's tile and the ribbon of changes over a year.
use energlens.Common.{
  Bool, true, false, Option, none, some, List, [], ◌∷◌, map, foldl, reverse, Text, codes,
  if◌then◌else◌, or_else, is_some, find, filter_map, last_n, before_last_n,
}
use energlens.Number.{Number}
use energlens.Format.{Intl, dash, fmt_signed_pct}
use energlens.Axis.{max_of}
use energlens.Bills.{pct_change}
use energlens.Months.{MonthBucket}
use energlens.Metrics.Windows.{yoy_delta}
use energlens.Compare.{MetricId, eff, price, per_day, mix, MetricDescriptor, month_label}

abbrev is_rate : MetricId → Bool
is_rate eff = true
is_rate price = true
is_rate per_day = true
is_rate _ = false

abbrev is_mix : MetricId → Bool
is_mix mix = true
is_mix _ = false

-- The figure of a tile and its change.
pub record Figures (F : Type 0) : Type 0 where
  pub value : Option F
  pub delta : Option F

pub record RibbonColumn (F : Type 0) : Type 0 where
  pub label : Option Text
  pub pct : Option F

module _ {F : Type 0} ⦃n : Number F⦄ where
  open n use {lit, add, sub, mul, div, eq, abs, le, round_half}

  -- `sum` of `tileFigures`
  unfoldable pub sum_known : (MonthBucket F → Option F) → List (MonthBucket F) → Option F
  sum_known pick buckets = elim (filter_map pick buckets) [
    | [] ↦ none
    | x ∷ xs ↦ some (foldl add (lit 0 0) (x ∷ xs))
  ]

  unfoldable pub energy_share : List (MonthBucket F) → Option F
  energy_share buckets =
      share (sum_known (λ b. b.energy) buckets) (sum_known (λ b. some b.cost) buckets)
    where
      share : Option F → Option F → Option F
      share (some part) (some cost) =
          if eq cost (lit 0 0) then none else some (mul (div part cost) (lit 100 0))
      share _ _ = none

  -- The value of the latest month that has one.
  unfoldable pub latest_known : (MonthBucket F → Option F) → List (MonthBucket F) → Option F
  latest_known select buckets = elim (find (λ b. is_some (select b)) (reverse buckets)) [
    | none ↦ none
    | some b ↦ select b
  ]

  abbrev by_change : (F → F → Option F) → Option F → Option F → Option F
  by_change f (some before) (some now) = f before now
  by_change f _ _ = none

  unfoldable pub tile_figures : MetricDescriptor F → List (MonthBucket F) → Figures F
  tile_figures metric buckets = figures (last_n 12 buckets) (before_last_n 12 buckets)
    where
      of_values : (F → F → Option F) → Option F → Option F → Figures F
      of_values f before now = record { value = now; delta = by_change f before now }

      figures : List (MonthBucket F) → List (MonthBucket F) → Figures F
      figures [] prior = record { value = none; delta = none }
      figures (b ∷ bs) prior =
          let current = b ∷ bs in
          if is_mix metric.id
          then of_values (λ before now. some (sub now before)) (energy_share prior)
              (energy_share current)
          else if is_rate metric.id
          then of_values pct_change (latest_known metric.select prior)
              (latest_known metric.select current)
          else of_values pct_change (sum_known metric.select prior)
              (sum_known metric.select current)

  unfoldable pub ribbon : (MonthBucket F → Option F) → List (MonthBucket F) → List (RibbonColumn F)
  ribbon select all_buckets =
      map
        (λ b. record {
          label = month_label b.month;
          pct = (yoy_delta all_buckets b.period select).pct;
        })
        (last_n 12 all_buckets)

  -- `Math.abs(column.pct ?? 0)`
  abbrev magnitude : RibbonColumn F → F
  magnitude column = abs (or_else column.pct (lit 0 0))

  unfoldable pub ribbon_peak : List (RibbonColumn F) → F
  ribbon_peak columns = max_of (lit 1 0) (map magnitude columns)

  unfoldable pub bar_height : F → RibbonColumn F → F
  bar_height peak column =
      max_of (lit 2 0) (round_half (mul (div (magnitude column) peak) (lit 26 0)) ∷ [])

  -- The class and the text of a column.
  unfoldable pub column_text : Intl F → RibbonColumn F → Text × Text
  column_text intl column = elim column.pct [
    | none ↦ (codes "flat", dash)
    | some pct ↦
        (if le (lit 0 0) pct then codes "up" else codes "down", fmt_signed_pct intl (some pct) 1)
  ]
