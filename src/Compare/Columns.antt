-- ===== src/Compare/Columns.antt =====
-- The charts of the four modes as tables: every series finds its column in every row, and the labels in the rows
-- are plain texts.
use energlens.Common.{
  ℕ, suc, ◌≡◌, refl, Bool, true, false, Option, none, some, List, [], ◌∷◌, map, map_from, foldl,
  All, Text, codes, ◌==◌, text_eq, text_eq_refl, All-map, Bool-cases, inl, inr, get_elem?,
  filter_by, or_else, before_last_n, last_n, arith,
}
use energlens.Number.{Number}
use energlens.Months.{MonthBucket}
use energlens.Compare.{
  Cell, undefined, label, Row, to_cell, cell_at, set_cell, label_cell, month_label, month_labels,
  SeriesSpec, CompareData, CompareInput, chosen,
}
use energlens.Compare.Years.{build_years, years_row, selected_years, year_key}
use energlens.Compare.Modes.{
  yoy_row, build_yoy, mom_rows, all_mom_rows, build_mom, build_same, modes, change,
}

abbrev is_cell : {F : Type 0} → Cell F → Bool
is_cell undefined = false
is_cell _ = true

-- The row has a value, a label or a null at the key.
abbrev pub HasCell : {F : Type 0} → Row F → Text → Type 0
HasCell row key = is_cell (cell_at key row) ≡ true

-- Every series has its column in every row.
abbrev pub HasColumns : {F : Type 0} → CompareData F → Type 0
HasColumns chart = All (λ row. All (λ s. HasCell row s.key) chart.series) chart.rows

to_cell-is_cell : {F : Type 0} (o : Option F) → is_cell (to_cell o) ≡ true
to_cell-is_cell none = refl
to_cell-is_cell (some x) = refl

pub All-map_from :
    {A B : Type 0} (P : B → Type 0) (f : ℕ → A → B)
    → ((i : ℕ) (x : A) → P (f i x))
    → (i : ℕ) (xs : List A) → All P (map_from i f xs)
All-map_from P f h i [] = tt
All-map_from P f h i (x ∷ xs) = (h i x, All-map_from P f h (suc i) xs)

set_cell-same :
    {F : Type 0} (key : Text) (c : Cell F) (row : Row F)
    → is_cell c ≡ true
    → HasCell (set_cell key c row) key
unfolding set_cell cell_at
set_cell-same key c [] h = rw (text_eq_refl key) h
set_cell-same key c ((k, d) ∷ row) h = elim (Bool-cases (text_eq k key)) [
  | inl e ↦ rw (e, e) h
  | inr e ↦ rw (e, e) (set_cell-same key c row h)
]

set_cell-other :
    {F : Type 0} (key other : Text) (c : Cell F) (row : Row F)
    → is_cell c ≡ true
    → HasCell row other
    → HasCell (set_cell key c row) other
unfolding set_cell cell_at
set_cell-other key other c [] h p = absurd (ground arith)
set_cell-other key other c ((k, d) ∷ row) h p = elim (Bool-cases (text_eq k key)) [
  | inl e ↦ rw e (elim (Bool-cases (text_eq k other)) [ inl f ↦ rw f h | inr f ↦ rw f (kept f p) ])
  | inr e ↦ rw e (elim (Bool-cases (text_eq k other)) [
    | inl f ↦ rw f (found f p)
    | inr f ↦ rw f (set_cell-other key other c row h (kept f p))
  ])
]
  where
    kept : text_eq k other ≡ false → HasCell ((k, d) ∷ row) other → HasCell row other
    kept f p = ground arith

    found : text_eq k other ≡ true → HasCell ((k, d) ∷ row) other → is_cell d ≡ true
    found f p = ground arith

module _ {F : Type 0} ⦃n : Number F⦄ where
  -- A row of the years has a cell for every year, whatever the row was before.
  years_cells :
      (f : ℕ → Cell F)
      → ((y : ℕ) → is_cell (f y) ≡ true)
      → (ys : List ℕ) (row : Row F)
      → All (λ y. HasCell (foldl (λ r y. set_cell (year_key y) (f y) r) row ys) (year_key y)) ys
  years_cells f h [] row = tt
  years_cells f h (y ∷ ys) row = (
    later ys (set_cell (year_key y) (f y) row) (set_cell-same (year_key y) (f y) row (h y)),
    years_cells f h ys (set_cell (year_key y) (f y) row),
  )
    where
      later :
          (zs : List ℕ) (r : Row F)
          → HasCell r (year_key y)
          → HasCell (foldl (λ r y. set_cell (year_key y) (f y) r) r zs) (year_key y)
      later [] r p = p
      later (z ∷ zs) r p =
          later zs (set_cell (year_key z) (f z) r)
            (set_cell-other (year_key z) (year_key y) (f z) r (h z) p)

  pub All-mom_rows :
      (P : Row F → Type 0) (select : MonthBucket F → Option F)
      → ((m : ℕ) (o : Option F)
          → P ((codes "x", label_cell (month_label m)) ∷ (codes "change", to_cell o) ∷ []))
      → (buckets : List (MonthBucket F)) → All P (all_mom_rows select buckets)
  unfolding mom_rows
  All-mom_rows P select h [] = tt
  All-mom_rows P select h (b ∷ bs) = from b bs
    where
      from : (b : MonthBucket F) (bs : List (MonthBucket F)) → All P (mom_rows select b bs)
      from b [] = tt
      from b (c ∷ bs) = (h c.month (change (select b) (select c)), from c bs)

  build_yoy-HasColumns : (input : CompareInput F) → HasColumns (build_yoy input)
  unfolding build_yoy yoy_row cell_at
  build_yoy-HasColumns input =
      let prior = before_last_n 12 input.buckets in
      All-map_from (λ row. All (λ s. HasCell row s.key) (build_yoy input).series)
        (yoy_row input.metric.select prior)
        (λ i b. (
          to_cell-is_cell (chosen input.metric.select (get_elem? prior i)),
          (to_cell-is_cell (input.metric.select b), tt),
        ))
        0 (last_n 12 input.buckets)

  build_mom-HasColumns : (input : CompareInput F) → HasColumns (build_mom input)
  unfolding build_mom cell_at
  build_mom-HasColumns input =
      All-mom_rows (λ row. All (λ s. HasCell row s.key) (build_mom input).series)
        input.metric.select (λ x o. (to_cell-is_cell o, tt)) input.buckets

  build_same-HasColumns : (input : CompareInput F) → HasColumns (build_same input)
  unfolding build_same cell_at
  build_same-HasColumns input =
      All-map (λ row. All (λ s. HasCell row s.key) (build_same input).series) _
        (filter_by (λ b. b.month == or_else input.month 1) input.buckets)
        (λ b. (to_cell-is_cell (input.metric.select b), tt))

  All-series :
      {A : Type 0} (P : SeriesSpec F → Type 0) (f : A → SeriesSpec F) (xs : List A)
      → All (λ x. P (f x)) xs
      → All P (map f xs)
  All-series P f [] ps = tt
  All-series P f (x ∷ xs) (p, ps) = (p, All-series P f xs ps)

  build_years-HasColumns : (input : CompareInput F) → HasColumns (build_years input)
  unfolding build_years years_row
  build_years-HasColumns input =
      let selected = selected_years input in
      All-map_from (λ row. All (λ s. HasCell row s.key) (build_years input).series)
        (years_row input selected)
        (λ i month_text.
          All-series (λ s. HasCell (years_row input selected i month_text) s.key) _ selected
            (years_cells _ (λ y. to_cell-is_cell _) selected ((codes "x", label month_text) ∷ [])))
        0 month_labels

  -- In the chart of every mode, whatever the months and the metric, each series finds its column in
  -- each row: a value or a null, and never a field that is missing.
  pub modes-HasColumns :
      (input : CompareInput F) → All (λ mode. HasColumns (mode.build input)) modes
  unfolding modes
  modes-HasColumns input = (
    build_yoy-HasColumns input,
    (build_years-HasColumns input, (build_mom-HasColumns input, (build_same-HasColumns input, tt))),
  )
