-- ===== src/Examples/Charts.antt =====
-- Runs of the theorems on the comparison charts and the CSV.
use energlens.Common.{
  ℕ, ◌/◌, ◌==◌, false, All, of_ℕ, Bool-cases, inl, inr, ◌≡◌, refl, true, false, none, some, List,
  [], ◌∷◌, codes, map, get_elem?, arith,
}
use energlens.Number.Fixed.{Fixed, fixed}
use energlens.Months.{MonthBucket}
use energlens.Compare.{
  ChartTokens, MetricDescriptor, MetricId, zero_axis, CompareInput, label_cell, month_label,
  to_cell,
}
use energlens.Compare.Modes.{build_yoy}
use energlens.Compare.Rows.{build_yoy-rows}
use energlens.Compare.{yoy}
use energlens.Compare.Modes.{ModeDescriptor, modes}
use energlens.Compare.Csv.{newline, to_csv}
use energlens.Compare.Reading.{read_csv, Free}
use energlens.Compare.Reading.RoundTrip.{IsPlain}
use energlens.Compare.Columns.{HasColumns, modes-HasColumns}
use energlens.Compare.Export.{Free-is_free, of_ℕ-IsPlain, file_of, read_csv-to_csv_of_modes}
use energlens.Common.Int
use energlens.Examples.Figures.{bucket}

abbrev pub tokens : ChartTokens
tokens = record {
  acc = codes "acc";
  acc2 = [];
  amber = [];
  barfill = [];
  up = [];
  down = [];
  grid = [];
  axis = [];
  ink = [];
  ink2 = [];
  ink3 = [];
  ink4 = codes "ink4";
  panel = [];
  rule = [];
  acc_rgb = codes "61, 58, 176";
  series = [];
}

abbrev pub costs : MetricDescriptor Fixed
costs = record {
  id = MetricId.total;
  label = codes "Total cost";
  short = codes "COST";
  select = λ b. some b.cost;
  axis = zero_axis;
  full = λ v c. [];
  big = λ v c. [];
  tick = λ v c. [];
  is_mix_view = false;
}

-- Fourteen months: the row of August is set against June of the year before.
abbrev pub fourteen : List (MonthBucket Fixed)
fourteen = map (λ m. bucket m 80) (5 ∷ 6 ∷ 7 ∷ 8 ∷ 9 ∷ 10 ∷ 11 ∷ 12 ∷ 1 ∷ 2 ∷ 3 ∷ 4 ∷ 5 ∷ 6 ∷ [])

abbrev chart_input : CompareInput Fixed
chart_input = record {
  buckets = fourteen;
  metric = costs;
  tokens = tokens;
  currency = codes "RON";
  years = none;
  month = none;
  is_mini = true;
}

build_yoy-rows_example :
    get_elem? (build_yoy chart_input).rows 1
    ≡ some (
        (codes "x", label_cell (month_label 8))
        ∷ (codes "current", to_cell (some (fixed.lit 50 0)))
        ∷ (codes "prior", to_cell (some (fixed.lit 50 0)))
        ∷ [])
build_yoy-rows_example =
    build_yoy-rows chart_input 1 (bucket 8 80) (bucket 6 80) (omega arith) refl refl

-- Printed numbers are plain.
print-IsPlain : (x : Fixed) → IsPlain (fixed.to_text x)
print-IsPlain none = (Free-is_free b',' (codes "NaN") refl, Free-is_free newline (codes "NaN") refl)
print-IsPlain (some a) = (
  signed b',' refl (of_ℕ-IsPlain (Int.abs a / 10000)).0,
  signed newline refl (of_ℕ-IsPlain (Int.abs a / 10000)).1,
)
  where
    signed :
        (c : ℕ)
        → (b'-' == c) ≡ false
        → Free c (of_ℕ (Int.abs a / 10000))
        → Free c (fixed.to_text (some a))
    signed c h f = elim (Bool-cases (Int.ltb_ℤ a (Int.pos 0))) [
      | inl e ↦ rw e (h, f)
      | inr e ↦ rw e f
    ]

abbrev yearly : ModeDescriptor Fixed
yearly = record {
  id = yoy;
  label = codes "Year over year";
  hint = codes "trailing 12 months against the 12 before, aligned by month";
  build = build_yoy;
}

read_csv-to_csv_of_modes_example :
    read_csv (to_csv (yearly.build chart_input) costs yearly)
    ≡ some (file_of chart_input costs yearly)
unfolding modes
read_csv-to_csv_of_modes_example =
    read_csv-to_csv_of_modes chart_input costs 0 yearly print-IsPlain
      (Free-is_free newline (codes "Total cost") refl) refl

modes-HasColumns_example : All (λ mode. HasColumns (mode.build chart_input)) modes
modes-HasColumns_example = modes-HasColumns chart_input
