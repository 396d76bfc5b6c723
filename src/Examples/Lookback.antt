-- ===== src/Examples/Lookback.antt =====
-- A run of the theorem on the comparisons of a month: March 2024 with March 2023, January and April.
use energlens.Common.{◌≡◌, refl, true, some, List, [], ◌∷◌, All, text_eq, text_lt, arith, of_ℕ}
use energlens.Number.Fixed.{Fixed, fixed}
use energlens.Calendar.{period_key}
use energlens.Months.{MonthBucket}
use energlens.Months.Buckets.{InOrder, IsOfMonth}
use energlens.Metrics.Comparisons.{find_index, window_before, average_comparison, bill_comparisons}
use energlens.Metrics.Past.{IsBefore, IsOther, bill_comparisons-IsBefore}
use energlens.Examples.Buckets.{bucket}

abbrev march : MonthBucket Fixed
march = bucket 2024 3

abbrev around : List (MonthBucket Fixed)
around = bucket 2023 3 ∷ bucket 2024 1 ∷ march ∷ bucket 2024 4 ∷ []

around-InOrder : InOrder around
unfolding period_key of_ℕ
around-InOrder = ((refl, (refl, (refl, tt))), ((refl, (refl, tt)), ((refl, tt), (tt, tt))))

around-IsOfMonth : All IsOfMonth around
around-IsOfMonth = (
  (record { year_in = omega arith; month_in = omega arith }, refl),
  (
    (record { year_in = omega arith; month_in = omega arith }, refl),
    (
      (record { year_in = omega arith; month_in = omega arith }, refl),
      ((record { year_in = omega arith; month_in = omega arith }, refl), tt),
    ),
  ),
)

found : find_index (λ c. text_eq c.period (period_key 2024 3)) 0 around ≡ some 2
unfolding find_index period_key of_ℕ
found = refl

bill_comparisons-IsBefore_example :
    let r = bill_comparisons around (period_key 2024 3) in
    IsBefore march.period r.previous_month.against
    × IsBefore march.period r.same_month_last_year.against
    × (r.twelve_month_average ≡ average_comparison (window_before around 2) march.effective)
    × All (λ c. text_lt c.period march.period ≡ true) (window_before around 2)
    × IsOther march.period r.cheapest_month.against
bill_comparisons-IsBefore_example =
    bill_comparisons-IsBefore around (period_key 2024 3) 2 march around-InOrder around-IsOfMonth
      found refl
