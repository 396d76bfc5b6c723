-- ===== src/Compare/Reading/RoundTrip.antt =====
-- The reader of CSV gives back what `toCsv` wrote.
use mathlib.Core.Path.{ap₂}
use energlens.Common.{
  ℕ, suc, ◌≤◌, ◌≡◌, refl, sym, ap, ◌∙◌, false, some, List, [], ◌∷◌, ◌++◌, map, All, All-append,
  append_assoc, append_nil, length-append, Text, codes, ◌==◌, length, text_eq, Bool-cases, inl, inr,
  arith,
}
use energlens.Number.{Number}
use energlens.Compare.{
  MetricDescriptor, Cell, null, undefined, label, value, Row, cell_at, CompareData,
}
use energlens.Compare.Modes.{ModeDescriptor}
use energlens.Compare.Csv.{join, quoted, newline, cell_text, csv_row, csv_lines, to_csv}
use energlens.Compare.Reading.{
  read_csv, with_comment, with_header, with_rows, read_rows, read_header, fields_of, Free,
  fields_of-join, cut_line-append, Ends, read_header-quoted,
}

-- What follows the first of several lines.
abbrev behind_line : List Text → Text
behind_line [] = []
behind_line (s ∷ ss) = newline ∷ join newline (s ∷ ss)

join-behind_line : (s : Text) (ss : List Text) → join newline (s ∷ ss) ≡ s ++ behind_line ss
unfolding join
join-behind_line s [] = sym (append_nil s)
join-behind_line s (t ∷ ts) = refl

behind_line-Ends : (ss : List Text) → Ends (behind_line ss)
behind_line-Ends [] = tt
behind_line-Ends (s ∷ ss) = refl

Free-join :
    (c sep : ℕ) (ss : List Text) → (sep == c) ≡ false → All (Free c) ss → Free c (join sep ss)
unfolding join
Free-join c sep [] e fs = tt
Free-join c sep (s ∷ []) e (f, fs) = f
Free-join c sep (s ∷ t ∷ ts) e (f, fs) =
    All-append (λ x. (x == c) ≡ false) s (sep ∷ join sep (t ∷ ts)) f
      (e, Free-join c sep (t ∷ ts) e fs)

length-quoted_line :
    (h : Text) (hs : List Text) (rest : Text)
    → length hs ≤ length (join b',' (map quoted (h ∷ hs)) ++ rest)
unfolding join
length-quoted_line h [] rest = omega arith
length-quoted_line h (g ∷ gs) rest =
    let later = join b',' (map quoted (g ∷ gs)) in
    omega (
      arith,
      length-quoted_line g gs rest,
      ap length (append_assoc (quoted h) (b',' ∷ later) rest),
      length-append (quoted h) (b',' ∷ (later ++ rest)),
    )

-- A text with neither a comma nor a new line.
abbrev pub IsPlain : Text → Type 0
IsPlain s = Free b',' s × Free newline s

-- The texts of a row, of which there is at least one.
abbrev Texts : Type 0
Texts = Text × List Text

abbrev line_of : Texts → Text
line_of (s, ss) = join b',' (s ∷ ss)

abbrev IsPlainLine : Texts → Type 0
IsPlainLine (s, ss) = All IsPlain (s ∷ ss)

plain_commas : (ss : List Text) → All IsPlain ss → All (Free b',') ss
plain_commas [] ps = tt
plain_commas (s ∷ ss) (p, ps) = (p.0, plain_commas ss ps)

plain_lines : (ss : List Text) → All IsPlain ss → All (Free newline) ss
plain_lines [] ps = tt
plain_lines (s ∷ ss) (p, ps) = (p.1, plain_lines ss ps)

lines-Free : (rows : List Texts) → All IsPlainLine rows → All (Free newline) (map line_of rows)
lines-Free [] ps = tt
lines-Free ((s, ss) ∷ rows) (p, ps) =
    (Free-join newline b',' (s ∷ ss) refl (plain_lines (s ∷ ss) p), lines-Free rows ps)

fields-lines :
    (rows : List Texts)
    → All IsPlainLine rows
    → map (fields_of b',') (map line_of rows) ≡ map (λ r. r.0 ∷ r.1) rows
fields-lines [] ps = refl
fields-lines ((s, ss) ∷ rows) (p, ps) =
    ap₂ ◌∷◌ (fields_of-join b',' s ss (plain_commas (s ∷ ss) p)) (fields-lines rows ps)

read_rows-lines :
    (rows : List Texts)
    → All IsPlainLine rows
    → read_rows (behind_line (map line_of rows)) ≡ some (map (λ r. r.0 ∷ r.1) rows)
read_rows-lines [] ps = refl
read_rows-lines (r ∷ rows) ps =
    ap (λ ls. some (map (fields_of b',') ls))
      (fields_of-join newline (line_of r) (map line_of rows) (lines-Free (r ∷ rows) ps))
    ∙ ap some (fields-lines (r ∷ rows) ps)

read_csv-lines :
    (comment h : Text) (hs : List Text) (rows : List Texts)
    → Free newline comment
    → All IsPlainLine rows
    → read_csv (join newline (comment ∷ join b',' (map quoted (h ∷ hs)) ∷ map line_of rows))
      ≡ some (comment, h ∷ hs, map (λ r. r.0 ∷ r.1) rows)
unfolding join
read_csv-lines comment h hs rows free ps =
    let header = join b',' (map quoted (h ∷ hs)) in
    let below = behind_line (map line_of rows) in
    let whole = header ++ below in
    ap with_comment (cut_line-append comment (join newline (header ∷ map line_of rows)) free)
    ∙ ap (λ s. with_header comment (read_header (suc (length s)) s))
        (join-behind_line header (map line_of rows))
    ∙ ap (with_header comment) (
        read_header-quoted (suc (length whole)) h hs below
          (omega (arith, length-quoted_line h hs below)) (behind_line-Ends (map line_of rows)))
    ∙ ap (with_rows comment (h ∷ hs)) (read_rows-lines rows ps)

map-map :
    {A B C : Type 0} (f : A → B) (g : B → C) (xs : List A)
    → map g (map f xs) ≡ map (λ x. g (f x)) xs
map-map f g [] = refl
map-map f g (x ∷ xs) = ap (◌∷◌ (g (f x))) (map-map f g xs)

-- A label in a row is a plain text.
abbrev pub IsPlainCell : {F : Type 0} → Text × Cell F → Type 0
IsPlainCell (k, label s) = IsPlain s
IsPlainCell (k, _) = Unit

module _ {F : Type 0} ⦃n : Number F⦄ (chart : CompareData F) where
  -- The texts of the cells of a row, the one at the axis first.
  abbrev texts_at : Row F → Texts
  texts_at row = (
    cell_text (cell_at chart.x_key row),
    map cell_text (map (λ c. cell_at c row) (map (λ s. s.key) chart.series)),
  )

  -- The texts that a reader should find in a row.
  abbrev pub texts_of : Row F → List Text
  texts_of row = (texts_at row).0 ∷ (texts_at row).1

  cell_text-IsPlain :
      ((x : F) → IsPlain (n.to_text x))
      → (key : Text) (row : Row F) → All IsPlainCell row
      → IsPlain (cell_text (cell_at key row))
  unfolding cell_at
  cell_text-IsPlain numbers key [] ps = (tt, tt)
  cell_text-IsPlain numbers key ((k, c) ∷ row) (p, ps) = elim (Bool-cases (text_eq k key)) [
    | inl e ↦ rw e (plain_cell c p)
    | inr e ↦ rw e (cell_text-IsPlain numbers key row ps)
  ]
    where
      plain_cell : (c : Cell F) → IsPlainCell (k, c) → IsPlain (cell_text c)
      plain_cell null p = (tt, tt)
      plain_cell undefined p = (tt, tt)
      plain_cell (label s) p = p
      plain_cell (value x) p = numbers x

  texts-IsPlain :
      ((x : F) → IsPlain (n.to_text x))
      → (keys : List Text) (row : Row F) → All IsPlainCell row
      → All IsPlain (map cell_text (map (λ c. cell_at c row) keys))
  texts-IsPlain numbers [] row ps = tt
  texts-IsPlain numbers (k ∷ keys) row ps =
      (cell_text-IsPlain numbers k row ps, texts-IsPlain numbers keys row ps)

  rows-IsPlainLine :
      ((x : F) → IsPlain (n.to_text x))
      → (rows : List (Row F)) → All (All IsPlainCell) rows
      → All IsPlainLine (map texts_at rows)
  rows-IsPlainLine numbers [] ps = tt
  rows-IsPlainLine numbers (row ∷ rows) (p, ps) = (
    (
      cell_text-IsPlain numbers chart.x_key row p,
      texts-IsPlain numbers (map (λ s. s.key) chart.series) row p,
    ),
    rows-IsPlainLine numbers rows ps,
  )

  -- The whole CSV of a chart is read back: the comment, the labels of the header with any quotes,
  -- commas and line breaks in them, and the text of every cell of every row, an unknown cell as the
  -- empty text. The printed numbers and the labels in the rows have no comma and no line break, and
  -- the names of the metric and the mode no line break.
  pub read_csv-to_csv :
      (metric : MetricDescriptor F) (mode : ModeDescriptor F)
      → ((x : F) → IsPlain (n.to_text x))
      → All (All IsPlainCell) chart.rows
      → Free newline (codes "# " ++ metric.label ++ codes " — " ++ mode.label)
      → read_csv (to_csv chart metric mode)
        ≡ some (
          codes "# " ++ metric.label ++ codes " — " ++ mode.label,
          mode.label ∷ map (λ s. s.label) chart.series,
          map texts_of chart.rows,
        )
  unfolding to_csv csv_lines csv_row join
  read_csv-to_csv metric mode numbers labels free =
      let comment = codes "# " ++ metric.label ++ codes " — " ++ mode.label in
      let headings = map (λ s. s.label) chart.series in
      let header = join b',' (map quoted (mode.label ∷ headings)) in
      ap (λ rows. read_csv (join newline (comment ∷ header ∷ rows)))
        (sym (map-map texts_at line_of chart.rows))
      ∙ read_csv-lines comment mode.label headings (map texts_at chart.rows) free
          (rows-IsPlainLine numbers chart.rows labels)
      ∙ ap (λ rows. some (comment, mode.label ∷ headings, rows))
          (map-map texts_at (λ r. r.0 ∷ r.1) chart.rows)
