-- ===== src/Examples/Dates.antt =====
-- Runs of the calendar theorems: across a change of the clock, and over the end of a year.
use energlens.Common.{◌≡◌, ◌+◌, arith}
use energlens.Common.Int.{pos, sub_ℕ}
use energlens.Calendar.{date, day_number, inclusive_days, overlap_days}
use energlens.Calendar.Days.{inclusive_days-eq, overlap_days-eq, common_days}
use energlens.Calendar.Keys.{IsMonth}
use energlens.Examples.{summer_zone, summer_zone-IsSteady}

inclusive_days-eq_example :
    inclusive_days summer_zone (date 2024 3 20) (date 2024 5 4)
    ≡ sub_ℕ (day_number (date 2024 5 4) + 1) (day_number (date 2024 3 20))
inclusive_days-eq_example =
    inclusive_days-eq summer_zone (date 2024 3 20) (date 2024 5 4) summer_zone-IsSteady

overlap_days-eq_example :
    overlap_days summer_zone (date 2024 3 20) (date 2024 5 4) (date 2024 4 1) (date 2024 4 30)
    ≡ pos (
        common_days
          (day_number (date 2024 3 20))
          (day_number (date 2024 5 4))
          (day_number (date 2024 4 1))
          (day_number (date 2024 4 30)))
overlap_days-eq_example =
    overlap_days-eq summer_zone (date 2024 3 20) (date 2024 5 4) (date 2024 4 1) (date 2024 4 30)
      summer_zone-IsSteady

december-IsMonth : IsMonth 2023 12
december-IsMonth = record { year_in = omega arith; month_in = omega arith }

january-IsMonth : IsMonth 2024 1
january-IsMonth = record { year_in = omega arith; month_in = omega arith }
