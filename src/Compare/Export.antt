-- ===== src/Compare/Export.antt =====
-- The exported CSV of every mode is read back: the labels in the rows of a chart are plain texts.
use energlens.Common.{
  ℕ, zero, suc, ◌+◌, ◌/◌, ◌%◌, ◌<◌, ◌≡◌, refl, Bool, true, false, Option, none, some, List, [], ◌∷◌,
  ◌++◌, map, map_from, foldl, All, All-append, All-map, All-get_elem?, Text, codes, of_ℕ, digits,
  ltb, ◌==◌, not, ◌&&◌, all, text_eq, Bool-cases, inl, inr, get_elem?, filter_by, or_else, last_n,
  before_last_n, arith,
}
use energlens.Number.{Number}
use energlens.Compare.{
  label, Row, to_cell, set_cell, label_cell, month_label, month_labels, MetricDescriptor,
  CompareData, CompareInput, chosen,
}
use energlens.Compare.Years.{build_years, years_row, selected_years, year_key}
use energlens.Compare.Modes.{yoy_row, build_yoy, build_mom, build_same, modes, ModeDescriptor}
use energlens.Compare.Csv.{newline, to_csv}
use energlens.Compare.Reading.{read_csv, Free, File}
use energlens.Compare.Reading.RoundTrip.{IsPlain, IsPlainCell, texts_of, read_csv-to_csv}
use energlens.Compare.Columns.{All-map_from, All-mom_rows}

-- A digit is neither a comma nor a new line.
digits-Free : (c fuel n : ℕ) → c < b'0' → Free c (digits fuel n)
digits-Free c zero n h = tt
digits-Free c (suc fuel) n h = elim (Bool-cases (ltb n 10)) [
  | inl e ↦ rw e (above n, tt)
  | inr e ↦ rw e (
      All-append (λ x. (x == c) ≡ false) (digits fuel (n / 10)) ((b'0' + n % 10) ∷ [])
        (digits-Free c fuel (n / 10) h) (above (n % 10), tt))
]
  where
    above : (d : ℕ) → (b'0' + d == c) ≡ false
    above d = ground arith

pub of_ℕ-IsPlain : (n : ℕ) → IsPlain (of_ℕ n)
unfolding of_ℕ
of_ℕ-IsPlain n =
    (digits-Free b',' (suc n) n (omega arith), digits-Free newline (suc n) n (omega arith))

abbrev is_free : ℕ → Text → Bool
is_free c s = all (λ x. not (x == c)) s

pub Free-is_free : (c : ℕ) (s : Text) → is_free c s ≡ true → Free c s
Free-is_free c [] h = tt
Free-is_free c (x ∷ s) h = (ground arith, Free-is_free c s (ground arith))

all-IsPlain :
    (ss : List Text) → all (λ s. is_free b',' s && is_free newline s) ss ≡ true → All IsPlain ss
all-IsPlain [] h = tt
all-IsPlain (s ∷ ss) h = (
  (Free-is_free b',' s (ground arith), Free-is_free newline s (ground arith)),
  all-IsPlain ss (ground arith),
)

month_labels-IsPlain : All IsPlain month_labels
month_labels-IsPlain = all-IsPlain month_labels refl

label_cell-IsPlain :
    (F : Type 0) (key : Text) (m : ℕ) → IsPlainCell (key, label_cell {F = F} (month_label m))
label_cell-IsPlain F key zero = tt
label_cell-IsPlain F key (suc i) = plain (get_elem? month_labels i) refl
  where
    plain :
        (found : Option Text)
        → get_elem? month_labels i ≡ found
        → IsPlainCell (key, label_cell {F = F} found)
    plain none e = tt
    plain (some s) e = All-get_elem? IsPlain month_labels i s month_labels-IsPlain e

All-labelled :
    {A B : Type 0} (P : B → Type 0) (Q : A → Type 0) (f : ℕ → A → B)
    → ((i : ℕ) (x : A) → Q x → P (f i x))
    → (i : ℕ) (xs : List A) → All Q xs
    → All P (map_from i f xs)
All-labelled P Q f h i [] qs = tt
All-labelled P Q f h i (x ∷ xs) (q, qs) = (h i x q, All-labelled P Q f h (suc i) xs qs)

-- The names of the modes are written on one line.
modes-Free : (F : Type 0) ⦃n : Number F⦄ → All (λ mode. Free newline mode.label) (modes {F = F})
unfolding modes
modes-Free F = (
  Free-is_free newline (codes "Year over year") refl,
  (
    Free-is_free newline (codes "Years overlaid") refl,
    (
      Free-is_free newline (codes "Month over month") refl,
      (Free-is_free newline (codes "Same month, each year") refl, tt),
    ),
  ),
)

module _ {F : Type 0} ⦃n : Number F⦄ where
  to_cell-IsPlain : (key : Text) (o : Option F) → IsPlainCell (key, to_cell o)
  to_cell-IsPlain key none = tt
  to_cell-IsPlain key (some x) = tt

  set_cell-IsPlain :
      (key : Text) (o : Option F) (row : Row F)
      → All IsPlainCell row
      → All IsPlainCell (set_cell key (to_cell o) row)
  unfolding set_cell
  set_cell-IsPlain key o [] ps = (to_cell-IsPlain key o, tt)
  set_cell-IsPlain key o ((k, c) ∷ row) (p, ps) = elim (Bool-cases (text_eq k key)) [
    | inl e ↦ rw e (to_cell-IsPlain k o, ps)
    | inr e ↦ rw e (p, set_cell-IsPlain key o row ps)
  ]

  years_cells-IsPlain :
      (f : ℕ → Option F) (ys : List ℕ) (row : Row F)
      → All IsPlainCell row
      → All IsPlainCell (foldl (λ r y. set_cell (year_key y) (to_cell (f y)) r) row ys)
  years_cells-IsPlain f [] row ps = ps
  years_cells-IsPlain f (y ∷ ys) row ps =
      years_cells-IsPlain f ys (set_cell (year_key y) (to_cell (f y)) row)
        (set_cell-IsPlain (year_key y) (f y) row ps)

  abbrev HasPlainRows : CompareData F → Type 0
  HasPlainRows chart = All (All IsPlainCell) chart.rows

  build_yoy-HasPlainRows : (input : CompareInput F) → HasPlainRows (build_yoy input)
  unfolding build_yoy yoy_row
  build_yoy-HasPlainRows input =
      let prior = before_last_n 12 input.buckets in
      All-map_from (All IsPlainCell) (yoy_row input.metric.select prior)
        (λ i b. (
          label_cell-IsPlain F (codes "x") b.month,
          (
            to_cell-IsPlain (codes "current") (input.metric.select b),
            (to_cell-IsPlain (codes "prior") (chosen input.metric.select (get_elem? prior i)), tt),
          ),
        ))
        0 (last_n 12 input.buckets)

  build_mom-HasPlainRows : (input : CompareInput F) → HasPlainRows (build_mom input)
  unfolding build_mom
  build_mom-HasPlainRows input =
      All-mom_rows (All IsPlainCell) input.metric.select
        (λ m o. (label_cell-IsPlain F (codes "x") m, (to_cell-IsPlain (codes "change") o, tt)))
        input.buckets

  build_same-HasPlainRows : (input : CompareInput F) → HasPlainRows (build_same input)
  unfolding build_same
  build_same-HasPlainRows input =
      All-map (All IsPlainCell) _ (filter_by (λ b. b.month == or_else input.month 1) input.buckets)
        (λ b. (of_ℕ-IsPlain b.year, (to_cell-IsPlain (codes "value") (input.metric.select b), tt)))

  build_years-HasPlainRows : (input : CompareInput F) → HasPlainRows (build_years input)
  unfolding build_years years_row
  build_years-HasPlainRows input =
      let selected = selected_years input in
      All-labelled (All IsPlainCell) IsPlain (years_row input selected)
        (λ i text plain. years_cells-IsPlain _ selected ((codes "x", label text) ∷ []) (plain, tt))
        0 month_labels month_labels-IsPlain

  -- Of every mode.
  modes-HasPlainRows :
      (input : CompareInput F) → All (λ mode. HasPlainRows (mode.build input)) modes
  unfolding modes
  modes-HasPlainRows input = (
    build_yoy-HasPlainRows input,
    (
      build_years-HasPlainRows input,
      (build_mom-HasPlainRows input, (build_same-HasPlainRows input, tt)),
    ),
  )

  -- What a reader of the file should find.
  abbrev pub file_of : CompareInput F → MetricDescriptor F → ModeDescriptor F → File
  file_of input metric mode = (
    codes "# " ++ metric.label ++ codes " — " ++ mode.label,
    mode.label ∷ map (λ s. s.label) (mode.build input).series,
    map (texts_of (mode.build input)) (mode.build input).rows,
  )

  -- In every mode, whatever the months, the exported CSV is read back as the comment with the names of
  -- the metric and the mode, the labels of the header, and the text of every cell of every row, an
  -- unknown cell as the empty text. The printed numbers have no comma and no line break, and the name of
  -- the metric no line break.
  pub read_csv-to_csv_of_modes :
      (input : CompareInput F) (metric : MetricDescriptor F) (i : ℕ) (mode : ModeDescriptor F)
      → ((x : F) → IsPlain (n.to_text x))
      → Free newline metric.label
      → get_elem? modes i ≡ some mode
      → read_csv (to_csv (mode.build input) metric mode) ≡ some (file_of input metric mode)
  read_csv-to_csv_of_modes input metric i mode numbers free e =
      let plain =
        All-get_elem? (λ mode. HasPlainRows (mode.build input)) modes i mode
          (modes-HasPlainRows input) e in
      let name = All-get_elem? (λ mode. Free newline mode.label) modes i mode (modes-Free F) e in
      read_csv-to_csv (mode.build input) metric mode numbers plain (free_comment name)
    where
      free_comment :
          Free newline mode.label
          → Free newline (codes "# " ++ metric.label ++ codes " — " ++ mode.label)
      free_comment name =
          let P : ℕ → Type 0 = λ x. (x == newline) ≡ false in
          let names = All-append P metric.label (codes " — ") free (refl, (refl, (refl, tt))) in
          (refl, (refl, All-append P (metric.label ++ codes " — ") mode.label names name))
