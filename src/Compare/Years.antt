-- ===== src/Compare/Years.antt =====
-- `buildYears`: every selected year on a shared axis of twelve months.
use energlens.Common.{
  ℕ, suc, ◌+◌, ◌-◌, Bool, false, ◌&&◌, Option, none, some, List, [], ◌∷◌, ◌++◌, map, Text, codes,
  of_ℕ, text_lt, if◌then◌else◌, ltb, ◌==◌, or_else, length, filter_by, find, any, map_from,
  flat_map, get_elem?, foldl, max,
}
use energlens.Common.Sort.{sort}
use energlens.Number.{Number}
use energlens.Months.{MonthBucket}
use energlens.Compare.{
  ChartTokens, label, Row, to_cell, cell_at, set_cell, no_dot, line, CompareData, CompareInput,
  month_labels, domain_for, tick_count, entry, chosen, number_of,
}

-- `xs.includes(y)`
abbrev pub includes : List ℕ → ℕ → Bool
includes xs y = any (λ x. x == y) xs

-- `[...new Set(xs)]`: each value at its first place
abbrev pub unique : List ℕ → List ℕ → List ℕ
unique seen [] = []
unique seen (x ∷ xs) =
    let rest = unique (x ∷ seen) xs in if includes seen x then unique seen xs else x ∷ rest

abbrev wanted : Option (List ℕ) → List ℕ → List ℕ
wanted none available = available
wanted (some []) available = available
wanted (some (y ∷ ys)) available = y ∷ ys

-- `xs.indexOf(y)` for a member
abbrev index_of : List ℕ → ℕ → ℕ
index_of [] y = 0
index_of (x ∷ xs) y = if x == y then 0 else suc (index_of xs y)

-- The newest year takes the accent. `Math.max(0, …)` is the subtraction that stops at 0.
unfoldable pub color_for : ChartTokens → List ℕ → ℕ → Text
color_for tokens selected year =
    let palette : List Text = tokens.ink4 ∷ tokens.amber ∷ tokens.acc ∷ [] in
    or_else (get_elem? palette (3 + index_of selected year - length selected)) tokens.ink4

abbrev pub year_key : ℕ → Text
year_key year = b'y' ∷ of_ℕ year

module _ {F : Type 0} ⦃n : Number F⦄ where
  open n use {lit}

  -- `.sort()` with no comparator: by the numbers' texts
  unfoldable pub available_years : List (MonthBucket F) → List ℕ
  available_years buckets =
      sort (λ a b. text_lt (of_ℕ a) (of_ℕ b)) (unique [] (map (λ b. b.year) buckets))

  unfoldable pub selected_years : CompareInput F → List ℕ
  selected_years input =
      let available = available_years input.buckets in
      filter_by (includes available) (wanted input.years available)

  unfoldable pub years_row : CompareInput F → List ℕ → ℕ → Text → Row F
  years_row input selected i month_text =
      foldl
        (λ row year.
          set_cell (year_key year)
            (to_cell (
              chosen input.metric.select
                (find (λ b. (b.year == year) && (b.month == i + 1)) input.buckets)))
            row)
        ((codes "x", label month_text) ∷ []) selected

  abbrev months_in : List (MonthBucket F) → ℕ → ℕ
  months_in buckets year = length (filter_by (λ b. b.year == year) buckets)

  unfoldable pub build_years : CompareInput F → CompareData F
  build_years input =
      let selected = selected_years input in
      let rows = map_from 0 (years_row input selected) month_labels in
      let values = flat_map (λ r. map (λ y. number_of (cell_at (year_key y) r)) selected) rows in
      let newest = foldl max 0 selected in
      record {
        chart = line;
        rows = rows;
        x_key = codes "x";
        domain = domain_for input.metric values (tick_count input);
        band = none;
        zero_line = false;
        value_labels = false;
        cell_colors = none;
        series =
            map
              (λ year. record {
                key = year_key year;
                label = of_ℕ year;
                color = color_for input.tokens selected year;
                stroke_width =
                    if input.is_mini
                    then lit 13 1
                    else if year == newest
                    then lit 24 1
                    else lit 2 0;
                dot_radius = no_dot;
              })
              selected;
        legend =
            map
              (λ year.
                entry
                  (of_ℕ year
                    ++ (if ltb (months_in input.buckets year) 12
                        then codes " (" ++ of_ℕ (months_in input.buckets year) ++ codes " mo)"
                        else []))
                  (color_for input.tokens selected year))
              selected;
        note = codes "Partial years stop where the data does — no interpolation.";
      }
