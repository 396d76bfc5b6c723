-- ===== src/Examples/Visits.antt =====
-- Runs of the theorems on the pages.
use energlens.Common.{
  ◌+◌, ◌/◌, ◌-◌, ◌≡◌, refl, true, is_some, none, some, List, [], ◌∷◌, codes, of_ℕ, map, filter_by,
  text_eq, arith,
}
use energlens.Number.Fixed.{Fixed, fixed}
use energlens.Forms.{to_input}
use energlens.Forms.Initial.{default_values, iso_text}
use energlens.Calendar.{
  date, time, day_number, month_length, is_leap, days_before_month, days_before_year, ms_per_day,
  period_key, period_parts, local_date, full_year, days_in_month, overlap_days, next_month,
  inclusive_days,
}
use energlens.Months.{
  MonthBucket, monthly_buckets, month_overlap, to_bucket, bucket_at, month_loop, loop_fuel,
  new_bucket, at_bucket, contribute, visit_month, spread_bill, spread_bills,
}
use energlens.Common.Int.{◌+ℤ◌, div_floor}
use energlens.Calendar.Keys.{IsMonth}
use energlens.Months.Known.{shares}
use energlens.Metrics.Comparisons.{find_index}
use energlens.Pages.Manage.{opened, handle_event, edits, submission, updates, submission-edits}
use energlens.Pages.Periods.{day_before, greenwich, in_window}
use energlens.Pages.Dashboard.{bill_point, bills_in_range}
use energlens.Pages.Dashboard.Points.{bill_point-ahead}
use energlens.Pages.Dashboard.Range.{bills_in_range-known}
use energlens.Pages.BillDetail.{period_of}
use energlens.Pages.BillDetail.Month.{find_index-period_of}
use energlens.Examples.{
  summer_zone, summer_zone-IsSteady, spring_bill, spring_bill-IsProper, winter_bill, two_bills,
  two_bills-IsProper,
}
use energlens.Examples.Figures.{paper, bucket}

-- "Edit" on a second bill while the form of the first is open.
submission-edits_example :
    submission (
      handle_event
        (edits (paper (codes "b") 5))
        (handle_event (edits (paper (codes "a") 3)) opened))
    ≡ some (
        updates
          (codes "b")
          (to_input (some (paper (codes "b") 5)) (default_values (some (paper (codes "a") 3)))))
unfolding handle_event opened
submission-edits_example =
    submission-edits (handle_event (edits (paper (codes "a") 3)) opened) (paper (codes "b") 5)

bill_point-ahead_example :
    ((bill_point summer_zone spring_bill).period ≡ iso_text (day_before (date 2024 5 4)))
    × (day_number (day_before (date 2024 5 4)) + 1 ≡ day_number (date 2024 5 4))
    × (day_number (day_before (date 2024 5 4))
        ≡ (time summer_zone (date 2024 5 4) - greenwich) / ms_per_day)
bill_point-ahead_example =
    bill_point-ahead summer_zone spring_bill spring_bill-IsProper.end_date (ground arith)

-- The six months of the two bills, of which the last three are shown.
abbrev six_months : List (MonthBucket Fixed)
six_months = elim (monthly_buckets summer_zone two_bills) [ none ↦ [] | some out ↦ out ]

abbrev last_three : List (MonthBucket Fixed)
last_three = in_window (some 3) six_months

abbrev april : MonthBucket Fixed
april = elim (bucket_at (period_key 2024 4) last_three) [ none ↦ bucket 4 0 | some b ↦ b ]

six_months-here : monthly_buckets summer_zone two_bills ≡ some six_months
unfolding monthly_buckets month_overlap to_bucket month_loop loop_fuel new_bucket at_bucket
    contribute visit_month spread_bill spread_bills local_date full_year days_in_month month_length
    is_leap overlap_days day_number days_before_year days_before_month period_key next_month ◌+ℤ◌
    div_floor period_parts time inclusive_days of_ℕ
six_months-here = refl

april-here : bucket_at (period_key 2024 4) last_three ≡ some april
unfolding monthly_buckets month_overlap to_bucket month_loop loop_fuel new_bucket at_bucket
    contribute visit_month spread_bill spread_bills local_date full_year days_in_month month_length
    is_leap overlap_days day_number days_before_year days_before_month period_key next_month ◌+ℤ◌
    div_floor period_parts time inclusive_days of_ℕ bucket_at in_window
april-here = refl

april-IsMonth : IsMonth 2024 4
april-IsMonth = record { year_in = omega arith; month_in = omega arith }

bills_in_range-known_example :
    april.bill_ids
    ≡ map
        (λ c. c.id)
        (filter_by (shares summer_zone (2024, 4)) (bills_in_range (some 3) two_bills last_three))
bills_in_range-known_example =
    bills_in_range-known summer_zone two_bills (some 3) 2024 4 april summer_zone-IsSteady
      two_bills-IsProper (omega arith, (omega arith, tt)) april-IsMonth (omega arith)
      six_months-here april-here

find_index-period_of_example :
    is_some (find_index (λ b. text_eq b.period (period_of spring_bill)) 0 six_months) ≡ true
find_index-period_of_example =
    find_index-period_of summer_zone summer_zone-IsSteady (winter_bill ∷ []) [] spring_bill
      two_bills-IsProper (omega arith) six_months-here
