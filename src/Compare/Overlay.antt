-- ===== src/Compare/Overlay.antt =====
-- The chart of the years draws every month of a selected year, and in its own row.
use mathlib.Core.Path.{ap₂}
use mathlib.Core.Option.{some-injective}
use energlens.Common.{
  ℕ, zero, suc, ◌+◌, ◌-◌, ◌*◌, ◌/◌, ◌%◌, ◌<◌, ◌≡◌, refl, sym, ap, ◌∙◌, Bool, true, false, ◌&&◌,
  Option, none, some, List, [], ◌∷◌, ◌++◌, foldl, All, Text, codes, of_ℕ, digits, number,
  number_from, is_digit, text_eq, text_eq_refl, text_eq→eq, text_lt, ltb, ◌==◌, if◌then◌else◌,
  Bool-cases, inl, inr, get_elem?, length, find, arith,
}
use energlens.Number.{Number}
use energlens.Calendar.Keys.{text_lt-period_key}
use energlens.Calendar.{period_key}
use energlens.Months.{MonthBucket}
use energlens.Months.Buckets.{InOrder, IsOfMonth}
use energlens.Compare.{
  Cell, label, Row, to_cell, cell_at, set_cell, month_labels, CompareInput, chosen,
}
use energlens.Compare.Years.{build_years, years_row, selected_years, year_key, includes}
use energlens.Compare.Rows.{get_elem?-map_from}

text_eq_sym : (s t : Text) → text_eq s t ≡ false → text_eq t s ≡ false
text_eq_sym s t h = elim (Bool-cases (text_eq t s)) [
  | inl e ↦
      let same : t ≡ s = text_eq→eq t s e in
      let equal : text_eq s t ≡ true = rw same (text_eq_refl s) in absurd (ground arith)
  | inr e ↦ e
]

-- A digit more.
abbrev then_digit : ℕ → Option ℕ → Option ℕ
then_digit c none = none
then_digit c (some v) = if is_digit c then some (v * 10 + (c - b'0')) else none

number_from-append :
    (acc c : ℕ) (s : Text) → number_from acc (s ++ (c ∷ [])) ≡ then_digit c (number_from acc s)
number_from-append acc c [] = refl
number_from-append acc c (x ∷ s) = elim (Bool-cases (is_digit x)) [
  | inl e ↦ rw e (number_from-append (acc * 10 + (x - b'0')) c s)
  | inr e ↦ rw e refl
]

number-digits : (fuel n : ℕ) → n < fuel → number (digits fuel n) ≡ some n
number-digits zero n h = absurd (omega arith)
number-digits (suc fuel) n h = elim (Bool-cases (ltb n 10)) [
  | inl e ↦ rw e (ground arith)
  | inr e ↦
      rw
        (
          e,
          number_from-append 0 (b'0' + n % 10) (digits fuel (n / 10)),
          number-digits fuel (n / 10) (ground arith),
        )
        (ground arith)
]

-- A whole number that is printed and read is itself.
pub number-of_ℕ : (n : ℕ) → number (of_ℕ n) ≡ some n
unfolding of_ℕ
number-of_ℕ n = number-digits (suc n) n (omega arith)

of_ℕ-injective : (m n : ℕ) → of_ℕ m ≡ of_ℕ n → m ≡ n
of_ℕ-injective m n e = some-injective _ _ (sym (number-of_ℕ m) ∙ ap number e ∙ number-of_ℕ n)

year_key-injective : (y z : ℕ) → text_eq (year_key y) (year_key z) ≡ true → y ≡ z
year_key-injective y z h = of_ℕ-injective y z (text_eq→eq (of_ℕ y) (of_ℕ z) (ground arith))

cell_at-set_cell :
    {F : Type 0} (key other : Text) (c : Cell F) (row : Row F)
    → cell_at other (set_cell key c row) ≡ (if text_eq key other then c else cell_at other row)
unfolding cell_at set_cell
cell_at-set_cell key other c [] = refl
cell_at-set_cell key other c ((k, d) ∷ row) = elim (Bool-cases (text_eq k key)) [
  | inl e ↦
      let same : k ≡ key = text_eq→eq k key e in
      rw (e, same) (elim (Bool-cases (text_eq key other)) [ inl f ↦ rw f refl | inr f ↦ rw f refl ])
  | inr e ↦ rw e (elim (Bool-cases (text_eq k other)) [
    | inl f ↦
        let apart : text_eq key other ≡ false =
          ap (text_eq key) (sym (text_eq→eq k other f)) ∙ text_eq_sym k key e in
        rw (f, apart) refl
    | inr f ↦ rw f (cell_at-set_cell key other c row)
  ])
]

-- The cells that a row of the years ends with.
module _ {F : Type 0} (f : ℕ → Cell F) where
  later_years :
      (ys : List ℕ) (row : Row F) (y : ℕ)
      → cell_at (year_key y) row ≡ f y
      → cell_at (year_key y) (foldl (λ r z. set_cell (year_key z) (f z) r) row ys) ≡ f y
  later_years [] row y h = h
  later_years (z ∷ ys) row y h = later_years ys (set_cell (year_key z) (f z) row) y (
      cell_at-set_cell (year_key z) (year_key y) (f z) row
      ∙ elim (Bool-cases (text_eq (year_key z) (year_key y))) [
        | inl e ↦ rw e (ap f (year_key-injective z y e))
        | inr e ↦ rw e h
      ])

  years_cell :
      (ys : List ℕ) (row : Row F) (y : ℕ)
      → includes ys y ≡ true
      → cell_at (year_key y) (foldl (λ r z. set_cell (year_key z) (f z) r) row ys) ≡ f y
  years_cell [] row y h = absurd (ground arith)
  years_cell (z ∷ ys) row y h = elim (Bool-cases (z == y)) [
    | inl e ↦
        let same : z ≡ y = ground arith in
        later_years ys (set_cell (year_key z) (f z) row) y (
          cell_at-set_cell (year_key z) (year_key y) (f z) row
          ∙ rw (same, text_eq_refl (year_key y)) refl)
    | inr e ↦ years_cell ys (set_cell (year_key z) (f z) row) y (ground arith)
  ]

-- The bucket that the lookup of a year and a month finds.
abbrev is_at : {F : Type 0} → ℕ → ℕ → MonthBucket F → Bool
is_at y m b = (b.year == y) && (b.month == m)

All-middle :
    {A : Type 0} (P : A → Type 0) (before after : List A) (x : A)
    → All P (before ++ (x ∷ after))
    → P x
All-middle P [] after x (p, ps) = p
All-middle P (y ∷ before) after x (p, ps) = All-middle P before after x ps

earlier_month :
    {F : Type 0} (c b : MonthBucket F)
    → IsOfMonth c
    → IsOfMonth b
    → text_lt c.period b.period ≡ true
    → is_at b.year b.month c ≡ false
earlier_month c b (v, e) (w, f) lt =
    let keys : text_lt (period_key c.year c.month) (period_key b.year b.month) ≡ true =
      ap₂ text_lt (sym e) (sym f) ∙ lt in
    let less = (text_lt-period_key c.year c.month b.year b.month v w).0 keys in ground arith

find-is_at :
    {F : Type 0} (before after : List (MonthBucket F)) (b : MonthBucket F)
    → All IsOfMonth (before ++ (b ∷ after))
    → InOrder (before ++ (b ∷ after))
    → find (is_at b.year b.month) (before ++ (b ∷ after)) ≡ some b
find-is_at [] after b os io = ground arith
find-is_at (c ∷ before) after b (o, os) (low, io) =
    let ob = All-middle IsOfMonth before after b os in
    let lt = All-middle (λ d. text_lt c.period d.period ≡ true) before after b low in
    rw (earlier_month c b o ob lt) (find-is_at before after b os io)

get_elem?-some :
    {A : Type 0} (xs : List A) (i : ℕ) → i < length xs → (x : A) × (get_elem? xs i ≡ some x)
get_elem?-some [] i h = absurd (omega arith)
get_elem?-some (x ∷ xs) zero h = (x, refl)
get_elem?-some (x ∷ xs) (suc i) h = get_elem?-some xs i (omega arith)

module _ {F : Type 0} ⦃n : Number F⦄ where
  -- The months ascend, as `monthlyBuckets` makes them. Then the chart of the years has each month of a
  -- selected year in the row of that month, under the key of the year, with the value of that very
  -- bucket: none is lost, and none is drawn for another.
  pub build_years-cell :
      (input : CompareInput F) (before after : List (MonthBucket F)) (b : MonthBucket F)
      → input.buckets ≡ before ++ (b ∷ after)
      → All IsOfMonth (before ++ (b ∷ after))
      → InOrder (before ++ (b ∷ after))
      → includes (selected_years input) b.year ≡ true
      → (row : Row F) × (get_elem? (build_years input).rows (b.month - 1) ≡ some row)
        × (cell_at (year_key b.year) row ≡ to_cell (input.metric.select b))
  unfolding build_years years_row
  build_years-cell input before after b e os io chosen_year =
      let (v, _) = All-middle IsOfMonth before after b os in
      let place = 0 + (b.month - 1) in
      let next : place + 1 ≡ b.month = omega (arith, v.month_in.0) in
      let (name, named) = get_elem?-some month_labels (b.month - 1) (omega (arith, v.month_in)) in
      let selected = selected_years input in
      let cell : Option (MonthBucket F) → Cell F = λ o. to_cell (chosen input.metric.select o) in
      (
        years_row input selected place name,
        get_elem?-map_from (years_row input selected) 0 (b.month - 1) month_labels name named,
        years_cell _ selected ((codes "x", label name) ∷ []) b.year chosen_year
            ∙ ap (λ m. cell (find (is_at b.year m) input.buckets)) next
            ∙ ap (λ bs. cell (find (is_at b.year b.month) bs)) e
            ∙ ap cell (find-is_at before after b os io),
      )
