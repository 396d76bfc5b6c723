-- ===== src/Charts/Tooltips.antt =====
-- What the chart components read off their rows: frontend/src/components/charts/CrosshairTooltip.tsx,
-- HeroPriceUse.tsx, MixArea.tsx and CompareChart.tsx. The drawing is the chart library's.
pub mod Mix
use energlens.Common.{
  ℕ, ◌+◌, ◌%◌, ◌==◌, ◌≡◌, Bool, true, false, not, ◌&&◌, Option, none, some, List, [], ◌∷◌, ◌++◌,
  map, map_from, filter_map, flat_map, Text, codes, text_eq, if◌then◌else◌, or_else, find,
}
use energlens.Number.{Number}
use energlens.Format.{Intl, amount, dash, fmt_currency, fmt_number, fmt_signed_pct}
use energlens.Axis.{Domain, zero_based_domain, padded_domain}
use energlens.Months.{MonthBucket}
use energlens.Metrics.Headline.{to_value}
use energlens.Metrics.Windows.{yoy_delta}
use energlens.Compare.{
  ChartTokens, MetricDescriptor, CompareData, Row, Cell, label, value, null, undefined, cell_at,
  number_of,
}
use energlens.Compare.Mix.{MixRow, row_total}

pub record CrosshairRow (F : Type 0) : Type 0 where
  pub label : Text
  pub color : Text
  pub value : Text
  -- `yoy`, null or not there
  pub yoy : Option F

abbrev plain_row : {F : Type 0} → Text → Text → Text → CrosshairRow F
plain_row l c v = record { label = l; color = c; value = v; yoy = none }

abbrev pub is_label : Text → Option Text → Bool
is_label hovered none = false
is_label hovered (some x) = text_eq x hovered

module _ {F : Type 0} ⦃n : Number F⦄ (intl : Intl F) where
  open n use {lit, add, abs, lt}

  -- The text and the colour of a row's change, if it has one.
  unfoldable pub change_of : ChartTokens → CrosshairRow F → Option (Text × Text)
  change_of tokens row = elim row.yoy [
    | none ↦ none
    | some yoy ↦ some (
      fmt_signed_pct intl (some yoy) 1,
      if lt (abs yoy) (lit 5 2)
          then tokens.ink4
          else if lt (lit 0 0) yoy
          then tokens.up
          else tokens.down,
    )
  ]

  -- `CrosshairTooltip`: the heading, before it is put in capitals, and the rows, if any are shown
  unfoldable pub crosshair :
      Bool → Bool → (Text → List (CrosshairRow F)) → Text → Option (Text × List (CrosshairRow F))
  crosshair is_active has_payload build_rows hovered = elim (build_rows hovered) [
    | [] ↦ none
    | r ∷ rs ↦ if is_active && has_payload then some (hovered, r ∷ rs) else none
  ]

  -- The axes of `HeroPriceUse`: kWh on the left, both prices on the right.
  unfoldable pub hero_domains : List (MonthBucket F) → Domain F × Domain F
  hero_domains buckets = (
    zero_based_domain (map (λ b. b.kwh) buckets) (lit 4 0),
    padded_domain (map (λ b. b.effective) buckets ++ map (λ b. b.unit_price) buckets) (lit 4 0)
        (lit 15 3),
  )

  unfoldable pub hero_tip : ChartTokens → Text → List (MonthBucket F) → Text → List (CrosshairRow F)
  hero_tip tokens currency buckets hovered = elim (find (λ b. text_eq b.period hovered) buckets) [
    | none ↦ []
    | some bucket ↦
        record {
          label = codes "Used";
          color = tokens.barfill;
          value = used bucket.kwh;
          yoy = (yoy_delta buckets hovered (λ b. b.kwh)).pct;
        }
        ∷ record {
          label = codes "All-in price";
          color = tokens.acc;
          value = fmt_currency intl (to_value bucket.effective) currency 4;
          yoy = (yoy_delta buckets hovered (λ b. b.effective)).pct;
        }
        ∷ record {
          label = codes "Contract price";
          color = tokens.amber;
          value = fmt_currency intl (to_value bucket.unit_price) currency 4;
          yoy = (yoy_delta buckets hovered (λ b. b.unit_price)).pct;
        }
        ∷ []
  ]
    where
      used : Option F → Text
      used none = dash
      used (some kwh) = fmt_number intl (amount kwh) 0 ++ codes " kWh"

  -- The tooltip's rows for one row of the chart.
  unfoldable pub mix_rows_of : ChartTokens → Text → MixRow F → List (CrosshairRow F)
  mix_rows_of tokens currency row =
      let total =
        add (add (or_else row.energy (lit 0 0)) (or_else row.standing (lit 0 0)))
          (or_else row.tax (lit 0 0)) in
      plain_row (codes "Energy") tokens.acc (fmt_currency intl (to_value row.energy) currency 4)
      ∷ plain_row (codes "Standing") tokens.amber
          (fmt_currency intl (to_value row.standing) currency 4)
      ∷ plain_row (codes "Tax") tokens.barfill (fmt_currency intl (to_value row.tax) currency 4)
      ∷ plain_row (codes "All-in") tokens.ink (fmt_currency intl (amount total) currency 4)
      ∷ []

  unfoldable pub mix_tip : ChartTokens → Text → List (MixRow F) → Text → List (CrosshairRow F)
  mix_tip tokens currency rows hovered = elim (find (λ r. is_label hovered r.x) rows) [
    | none ↦ []
    | some row ↦ mix_rows_of tokens currency row
  ]

  -- The data of the chart: each row with the height of its line.
  unfoldable pub mix_data : List (MixRow F) → List (MixRow F × Option F)
  mix_data rows = map (λ r. (r, row_total r)) rows

  abbrev is_cell_label : Text → Cell F → Bool
  is_cell_label hovered (label x) = text_eq x hovered
  is_cell_label hovered _ = false

  unfoldable pub compare_tip :
      MetricDescriptor F → Text → CompareData F → Text → List (CrosshairRow F)
  compare_tip metric currency chart hovered =
      elim (find (λ r. is_cell_label hovered (cell_at chart.x_key r)) chart.rows) [
        | none ↦ []
        | some row ↦ map (λ s. plain_row s.label s.color (shown (cell_at s.key row))) chart.series
      ]
    where
      shown : Cell F → Text
      shown (value x) = metric.full x currency
      shown _ = dash

  -- `xTicks`: the labels of every n-th row, those that are null left out
  unfoldable pub x_ticks : ℕ → CompareData F → List (Cell F)
  x_ticks every chart = flat_map kept (map_from 0 (λ i r. (i, cell_at chart.x_key r)) chart.rows)
    where
      kept : ℕ × Cell F → List (Cell F)
      kept (i, null) = []
      kept (i, c) = if i % every == 0 then c ∷ [] else []

  -- `__band`: the pair that the area is drawn between
  unfoldable pub band_of : CompareData F → Row F → Option (F × F)
  band_of chart row = elim chart.band [
    | none ↦ none
    | some band ↦
        pair (number_of (cell_at band.lower_key row)) (number_of (cell_at band.upper_key row))
  ]
    where
      pair : Option F → Option F → Option (F × F)
      pair (some lower) (some upper) = some (lower, upper)
      pair _ _ = none

  -- The colours of the bars: `data.cellColors`, and else the accent for every row.
  unfoldable pub bar_colors : ChartTokens → CompareData F → List Text
  bar_colors tokens chart = or_else chart.cell_colors (map (λ r. tokens.acc) chart.rows)
