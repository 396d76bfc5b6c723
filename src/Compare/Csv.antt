-- ===== src/Compare/Csv.antt =====
-- `toCsv`: the rows of a chart as text.
use energlens.Common.{ℕ, List, [], ◌∷◌, ◌++◌, map, Text, codes, if◌then◌else◌, ◌==◌}
use energlens.Number.{Number}
use energlens.Compare.{
  MetricDescriptor, Cell, null, undefined, label, value, Row, cell_at, CompareData,
}
use energlens.Compare.Modes.{ModeDescriptor}

-- `lines.join(separator)` for a separator of one character
unfoldable pub join : ℕ → List Text → Text
join c [] = []
join c (s ∷ []) = s
join c (s ∷ t ∷ ts) = s ++ (c ∷ join c (t ∷ ts))

-- `s.replace(/"/g, '""')`
unfoldable pub double_quotes : Text → Text
double_quotes [] = []
double_quotes (c ∷ s) =
    let rest = double_quotes s in if c == b'"' then b'"' ∷ b'"' ∷ rest else c ∷ rest

unfoldable pub quoted : Text → Text
quoted s = b'"' ∷ (double_quotes s ++ (b'"' ∷ []))

abbrev pub newline : ℕ
newline = 10

module _ {F : Type 0} ⦃n : Number F⦄ where
  abbrev pub cell_text : Cell F → Text
  cell_text null = []
  cell_text undefined = []
  cell_text (label s) = s
  cell_text (value x) = n.to_text x

  unfoldable pub csv_row : Text → List Text → Row F → Text
  csv_row x_key columns row =
      join b',' (map cell_text (cell_at x_key row ∷ map (λ c. cell_at c row) columns))

  unfoldable pub csv_lines : CompareData F → MetricDescriptor F → ModeDescriptor F → List Text
  csv_lines chart metric mode =
      (codes "# " ++ metric.label ++ codes " — " ++ mode.label)
      ∷ join b',' (map quoted (mode.label ∷ map (λ s. s.label) chart.series))
      ∷ map (csv_row chart.x_key (map (λ s. s.key) chart.series)) chart.rows

  unfoldable pub to_csv : CompareData F → MetricDescriptor F → ModeDescriptor F → Text
  to_csv chart metric mode = join newline (csv_lines chart metric mode)
