-- ===== src/Compare.antt =====
-- The compare engine, frontend/src/lib/compare.ts: the records of metrics and charts. The tables
-- and the builders are in the children. The tokens are those of
-- frontend/src/components/charts/chartTheme.ts.
pub mod Registry
pub mod Years
pub mod Modes
pub mod Rows
pub mod Quoting
pub mod Reading
pub mod Columns
pub mod Export
pub mod Overlay
pub mod Mix
pub mod Csv
use energlens.Common.{
  ℕ, suc, zero, ◌+◌, ◌-◌, Bool, true, false, Option, none, some, List, [], ◌∷◌, ◌++◌, Text, codes,
  text_eq, get_elem?, if◌then◌else◌,
}
use energlens.Number.{Number}
use energlens.Format.{Intl, amount, fmt_currency, fmt_number}
use energlens.Months.{MonthBucket}
use energlens.Axis.{Domain, zero_based_domain, padded_domain}

pub record ChartTokens : Type 0 where
  pub acc : Text
  pub acc2 : Text
  pub amber : Text
  pub barfill : Text
  pub up : Text
  pub down : Text
  pub grid : Text
  pub axis : Text
  pub ink : Text
  pub ink2 : Text
  pub ink3 : Text
  pub ink4 : Text
  pub panel : Text
  pub rule : Text
  pub acc_rgb : Text
  pub series : List Text

pub data MetricId : Type 0 where
  total kwh eff price energy taxes per_day mix : MetricId

pub data ModeId : Type 0 where
  yoy years mom same : ModeId

pub data AxisKind : Type 0 where
  zero_axis padded_axis : AxisKind

pub record MetricDescriptor (F : Type 0) : Type 0 where
  pub id : MetricId
  pub label : Text
  pub short : Text
  pub select : MonthBucket F → Option F
  pub axis : AxisKind
  pub full : F → Text → Text
  pub big : F → Text → Text
  pub tick : F → Text → Text
  -- `view: 'mix'`
  pub is_mix_view : Bool

-- A cell of a chart's row; `undefined` is a field that is not there.
pub data Cell (F : Type 0) : Type 0 where
  null undefined : Cell F
  label : Text → Cell F
  value : F → Cell F

abbrev pub Row : Type 0 → Type 0
Row F = List (Text × Cell F)

abbrev pub to_cell : {F : Type 0} → Option F → Cell F
to_cell none = null
to_cell (some x) = value x

-- `row[key]`, and `row[key] = cell`
unfoldable pub cell_at : {F : Type 0} → Text → Row F → Cell F
cell_at key [] = undefined
cell_at key ((k, c) ∷ row) = if text_eq k key then c else cell_at key row

unfoldable pub set_cell : {F : Type 0} → Text → Cell F → Row F → Row F
set_cell key cell [] = (key, cell) ∷ []
set_cell key cell ((k, c) ∷ row) =
    if text_eq k key then (k, cell) ∷ row else (k, c) ∷ set_cell key cell row

-- `dotRadius?: number | false`
pub data Dot (F : Type 0) : Type 0 where
  unset no_dot : Dot F
  radius : F → Dot F

pub record SeriesSpec (F : Type 0) : Type 0 where
  pub key : Text
  pub label : Text
  pub color : Text
  pub stroke_width : F
  pub dot_radius : Dot F

pub data ChartKind : Type 0 where
  line bar : ChartKind

pub record Band : Type 0 where
  pub upper_key : Text
  pub lower_key : Text
  pub fill : Text

pub record LegendEntry : Type 0 where
  pub label : Text
  pub color : Text

pub record CompareData (F : Type 0) : Type 0 where
  pub chart : ChartKind
  pub rows : List (Row F)
  pub x_key : Text
  pub series : List (SeriesSpec F)
  pub domain : Domain F
  pub band : Option Band
  pub zero_line : Bool
  pub value_labels : Bool
  pub cell_colors : Option (List Text)
  pub legend : List LegendEntry
  pub note : Text

pub record CompareInput (F : Type 0) : Type 0 where
  pub buckets : List (MonthBucket F)
  pub metric : MetricDescriptor F
  pub tokens : ChartTokens
  pub currency : Text
  pub years : Option (List ℕ)
  pub month : Option ℕ
  -- `density === 'mini'`
  pub is_mini : Bool

abbrev pub month_labels : List Text
month_labels =
    codes "JAN"
    ∷ codes "FEB"
    ∷ codes "MAR"
    ∷ codes "APR"
    ∷ codes "MAY"
    ∷ codes "JUN"
    ∷ codes "JUL"
    ∷ codes "AUG"
    ∷ codes "SEP"
    ∷ codes "OCT"
    ∷ codes "NOV"
    ∷ codes "DEC"
    ∷ []

-- `MONTH_LABELS[month - 1]`
abbrev pub month_label : ℕ → Option Text
month_label zero = none
month_label (suc i) = get_elem? month_labels i

abbrev pub label_cell : {F : Type 0} → Option Text → Cell F
label_cell none = undefined
label_cell (some s) = label s

abbrev pub entry : Text → Text → LegendEntry
entry l c = record { label = l; color = c }

-- The value of a bucket that may be missing.
abbrev pub chosen : {F : Type 0} → (MonthBucket F → Option F) → Option (MonthBucket F) → Option F
chosen select none = none
chosen select (some b) = select b

-- The cell of a row as a number that may be missing.
abbrev pub number_of : {F : Type 0} → Cell F → Option F
number_of (value x) = some x
number_of _ = none

module _ {F : Type 0} ⦃n : Number F⦄ where
  unfoldable pub domain_for : MetricDescriptor F → List (Option F) → F → Domain F
  domain_for metric values ticks = elim metric.axis [
    | zero_axis ↦ zero_based_domain values ticks
    | padded_axis ↦ padded_domain values ticks (n.lit 15 3)
  ]

  -- `density === 'mini' ? 2 : 4`
  abbrev pub tick_count : CompareInput F → F
  tick_count input = if input.is_mini then n.lit 2 0 else n.lit 4 0
