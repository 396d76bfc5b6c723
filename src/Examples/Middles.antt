-- ===== src/Examples/Middles.antt =====
-- Runs of the theorems on the median, the running excess and the overlay of the years.
use energlens.Common.{
  ℕ, ◌-◌, ◌/◌, ◌%◌, ◌≡◌, refl, true, false, Bool, Option, none, some, List, [], ◌∷◌, ◌++◌, All,
  length, take, find, is_some, get_elem?, if◌then◌else◌, ◌==◌, codes, arith,
}
use energlens.Common.Int.{int_laws}
use energlens.Common.Sort.{IsOrderOn}
use energlens.Number.Fixed.{Fixed, fixed}
use energlens.Calendar.{period_key}
use energlens.Calendar.Keys.{IsMonth}
use energlens.Metrics.Tariff.{smaller, median}
use energlens.Metrics.Median.{IsMiddle, median-IsMiddle}
use energlens.Compare.{CompareInput, Row, cell_at, to_cell}
use energlens.Compare.Years.{build_years, selected_years, available_years, year_key}
use energlens.Compare.Overlay.{build_years-cell}
use energlens.Examples.Figures.{bucket}
use energlens.Examples.Charts.{costs, tokens}

-- The comparator orders the numbers that are not NaN.
abbrev Known : Fixed → Type 0
Known x = is_some x ≡ true

smaller_asymm : (x y : Fixed) → smaller x y ≡ true → smaller y x ≡ false
smaller_asymm none y h = absurd (ground arith)
smaller_asymm (some a) none h = absurd (ground arith)
smaller_asymm (some a) (some b) h = grind int_laws

smaller_negtrans :
    (x y z : Fixed) → Known y → smaller y x ≡ false → smaller z y ≡ false → smaller z x ≡ false
smaller_negtrans x none z q h k = absurd (ground arith)
smaller_negtrans x (some b) none q h k = ground arith
smaller_negtrans none (some b) (some c) q h k = ground arith
smaller_negtrans (some a) (some b) (some c) q h k = grind int_laws

smaller-IsOrderOn : IsOrderOn (smaller {F = Fixed}) Known
smaller-IsOrderOn = record {
  asymm = λ x y p q h. smaller_asymm x y h;
  negtrans = λ x y z p q r h k. smaller_negtrans x y z q h k;
}

abbrev rates : List Fixed
rates = fixed.lit 21 2 ∷ fixed.lit 18 2 ∷ fixed.lit 19 2 ∷ []

median-IsMiddle_example :
    (lo : Fixed) × (hi : Fixed) × (median (fixed.lit 19 2 ∷ rates)
      ≡ some (
          if length (fixed.lit 19 2 ∷ rates) % 2 == 0
          then fixed.div (fixed.add lo hi) (fixed.lit 2 0)
          else lo))
    × IsMiddle (fixed.lit 19 2 ∷ rates) lo hi
median-IsMiddle_example =
    median-IsMiddle Known smaller-IsOrderOn (fixed.lit 19 2) rates
      (refl, (refl, (refl, (refl, tt))))

abbrev overlay : CompareInput Fixed
overlay = record {
  buckets = (bucket 1 83 ∷ []) ++ (bucket 2 80 ∷ bucket 3 91 ∷ []);
  metric = costs;
  tokens = tokens;
  currency = codes "EUR";
  years = none;
  month = none;
  is_mini = false;
}

january : IsMonth 2024 1
january = record { year_in = omega arith; month_in = (omega arith, omega arith) }

february : IsMonth 2024 2
february = record { year_in = omega arith; month_in = (omega arith, omega arith) }

march : IsMonth 2024 3
march = record { year_in = omega arith; month_in = (omega arith, omega arith) }

build_years-cell_example :
    (row : Row Fixed) × (get_elem? (build_years overlay).rows 1 ≡ some row)
    × (cell_at (year_key 2024) row ≡ to_cell (some (fixed.lit 50 0)))
unfolding period_key selected_years available_years energlens.Common.of_ℕ
build_years-cell_example =
    build_years-cell overlay (bucket 1 83 ∷ []) (bucket 3 91 ∷ []) (bucket 2 80) refl
      ((january, refl), ((february, refl), ((march, refl), tt)))
      ((refl, (refl, tt)), ((refl, tt), (tt, tt))) refl
