-- ===== src/Compare/Modes.antt =====
-- The four ways of slicing time, `buildYoy`, `buildYears`, `buildMom` and `buildSame`, and their
-- table `MODES`.
use energlens.Common.{
  ℕ, true, false, not, Option, none, some, List, [], ◌∷◌, ◌++◌, map, Text, codes, of_ℕ,
  if◌then◌else◌, ◌==◌, or_else, filter_by, last_n, before_last_n, map_from, flat_map, get_elem?,
  foldl, max,
}
use energlens.Number.{Number}
use energlens.Bills.{pct_change}
use energlens.Months.{MonthBucket}
use energlens.Axis.{symmetric_domain}
use energlens.Compare.{
  ModeId, yoy, years, mom, same, label, Row, to_cell, cell_at, unset, no_dot, radius, line, bar,
  CompareData, CompareInput, month_label, label_cell, domain_for, tick_count, entry, chosen,
  number_of,
}
use energlens.Compare.Years.{build_years}

-- `alpha(rgb, a)`, with the number as it is written
abbrev pub alpha : Text → Text → Text
alpha rgb a = codes "rgba(" ++ rgb ++ codes ", " ++ a ++ codes ")"

module _ {F : Type 0} ⦃n : Number F⦄ where
  open n use {lit, le}

  -- The row of the i-th month of the last twelve.
  unfoldable pub yoy_row :
      (MonthBucket F → Option F) → List (MonthBucket F) → ℕ → MonthBucket F → Row F
  yoy_row select prior i bucket =
      (codes "x", label_cell (month_label bucket.month))
      ∷ (codes "current", to_cell (select bucket))
      ∷ (codes "prior", to_cell (chosen select (get_elem? prior i)))
      ∷ []

  unfoldable pub build_yoy : CompareInput F → CompareData F
  build_yoy input =
      let current = last_n 12 input.buckets in
      let prior = before_last_n 12 input.buckets in
      let rows = map_from 0 (yoy_row input.metric.select prior) current in
      let values =
        flat_map
          (λ r.
            number_of (cell_at (codes "current") r) ∷ number_of (cell_at (codes "prior") r) ∷ [])
          rows in
      record {
        chart = line;
        rows = rows;
        x_key = codes "x";
        domain = domain_for input.metric values (tick_count input);
        band = some record {
          upper_key = codes "current";
          lower_key = codes "prior";
          fill = alpha input.tokens.acc_rgb (codes "0.11");
        };
        zero_line = false;
        value_labels = false;
        cell_colors = none;
        series =
            record {
              key = codes "prior";
              label = codes "Previous 12 months";
              color = input.tokens.ink4;
              stroke_width = if input.is_mini then lit 12 1 else lit 2 0;
              dot_radius = no_dot;
            }
            ∷ record {
              key = codes "current";
              label = codes "Last 12 months";
              color = input.tokens.acc;
              stroke_width = if input.is_mini then lit 15 1 else lit 24 1;
              dot_radius = if input.is_mini then no_dot else radius (lit 28 1);
            }
            ∷ [];
        legend =
            entry (codes "Last 12 months") input.tokens.acc
            ∷ entry (codes "The 12 before") input.tokens.ink4
            ∷ [];
        note = codes "The shaded area is the gap between the two years.";
      }

  abbrev pub change : Option F → Option F → Option F
  change (some previous) (some current) = pct_change previous current
  change _ _ = none

  -- The rows from the second bucket on, each against the one before.
  unfoldable pub mom_rows :
      (MonthBucket F → Option F) → MonthBucket F → List (MonthBucket F) → List (Row F)
  mom_rows select previous [] = []
  mom_rows select previous (bucket ∷ rest) =
      ((codes "x", label_cell (month_label bucket.month))
        ∷ (codes "change", to_cell (change (select previous) (select bucket)))
        ∷ [])
      ∷ mom_rows select bucket rest

  abbrev pub all_mom_rows : (MonthBucket F → Option F) → List (MonthBucket F) → List (Row F)
  all_mom_rows select [] = []
  all_mom_rows select (b ∷ bs) = mom_rows select b bs

  unfoldable pub build_mom : CompareInput F → CompareData F
  build_mom input =
      let rows = all_mom_rows input.metric.select input.buckets in
      let values = map (λ r. number_of (cell_at (codes "change") r)) rows in
      record {
        chart = bar;
        rows = rows;
        x_key = codes "x";
        domain = symmetric_domain values (tick_count input);
        band = none;
        zero_line = true;
        value_labels = false;
        cell_colors = some (
            map
              (λ v.
                if le (lit 0 0) (or_else v (lit 0 0)) then input.tokens.up else input.tokens.down)
              values);
        series =
            record {
              key = codes "change";
              label = codes "Change";
              color = input.tokens.acc;
              stroke_width = lit 0 0;
              dot_radius = unset;
            }
            ∷ [];
        legend =
            entry (codes "Increase") input.tokens.up
            ∷ entry (codes "Decrease") input.tokens.down
            ∷ [];
        note = codes "Percent change from the month before.";
      }

  unfoldable pub build_same : CompareInput F → CompareData F
  build_same input =
      let month = or_else input.month 1 in
      let matching = filter_by (λ b. b.month == month) input.buckets in
      let values = map input.metric.select matching in
      let latest = foldl max 0 (map (λ b. b.year) matching) in
      record {
        chart = bar;
        rows =
            map
              (λ b.
                (codes "x", label (of_ℕ b.year))
                ∷ (codes "value", to_cell (input.metric.select b))
                ∷ [])
              matching;
        x_key = codes "x";
        domain = domain_for input.metric values (tick_count input);
        band = none;
        zero_line = false;
        value_labels = not input.is_mini;
        cell_colors =
            some (
              map (λ b. if b.year == latest then input.tokens.acc else input.tokens.acc2) matching);
        series =
            record {
              key = codes "value";
              label = codes "Value";
              color = input.tokens.acc;
              stroke_width = lit 0 0;
              dot_radius = unset;
            }
            ∷ [];
        legend = [];
        note = or_else (month_label month) (codes "undefined") ++ codes " in each year on record.";
      }

pub record ModeDescriptor (F : Type 0) : Type 0 where
  pub id : ModeId
  pub label : Text
  pub hint : Text
  pub build : CompareInput F → CompareData F

unfoldable pub modes : {F : Type 0} → ⦃n : Number F⦄ → List (ModeDescriptor F)
modes =
    record {
      id = yoy;
      label = codes "Year over year";
      hint = codes "trailing 12 months against the 12 before, aligned by month";
      build = build_yoy;
    }
    ∷ record {
      id = years;
      label = codes "Years overlaid";
      hint = codes "every year on a shared Jan–Dec axis";
      build = build_years;
    }
    ∷ record {
      id = mom;
      label = codes "Month over month";
      hint = codes "change from each month to the next";
      build = build_mom;
    }
    ∷ record {
      id = same;
      label = codes "Same month, each year";
      hint = codes "one month isolated across every year on record";
      build = build_same;
    }
    ∷ []
