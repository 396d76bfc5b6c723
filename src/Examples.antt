-- ===== src/Examples.antt =====
-- Bills, zones and states for the runs of the model below this module.
mod Dates
mod Buckets
mod Figures
mod App
mod Flights
mod Choices
mod Charts
mod Middles
mod Requests
mod Visits
mod Screens
mod Clicking
mod Money
mod Lookback
mod Outlook
use energlens.Common.{
  ℕ, ◌+◌, ◌≤◌, refl, Bool, true, false, Option, none, some, List, [], ◌∷◌, Text, codes, All,
  if◌then◌else◌, ltb, leb, ◌&&◌, arith,
}
use energlens.Number.Fixed.{Fixed, fixed}
use energlens.Calendar.{
  Date, date, Zone, inclusive_days, day_number, month_length, is_leap, days_before_month,
  days_before_year,
}
use energlens.Calendar.Days.{IsSteady, IsDate}
use energlens.Api.{Bill, manual, electricity, invoice}
use energlens.Bills.{ParsedBill}
use energlens.Months.Totals.{IsProper}

-- A clock that is an hour off for part of the year.
abbrev pub summer_zone : Zone
summer_zone = record { shift = λ d. if leb 738976 d && ltb d 739186 then 0 else 3_600_000 }

pub summer_zone-IsSteady : IsSteady summer_zone
summer_zone-IsSteady = record { near = λ d e. ground arith }

abbrev pub kwh_price : ℕ → Option Fixed
kwh_price m = some (fixed.lit m 2)

abbrev pub bill_of : Text → Date → Date → ℕ → ParsedBill Fixed
bill_of id start end kwh = record {
  id = id;
  period_start = start;
  period_end = end;
  days = inclusive_days summer_zone start end;
  consumption = some (fixed.lit kwh 0);
  unit_price = kwh_price 80;
  fixed_charges = some (fixed.lit 20 0);
  taxes = none;
  total = fixed.lit (kwh + 20) 0;
  currency = codes "RON";
  source = manual;
  provider_name = none;
}

abbrev pub winter_bill : ParsedBill Fixed
winter_bill = bill_of (codes "w") (date 2023 12 15) (date 2024 2 10) 300

abbrev pub spring_bill : ParsedBill Fixed
spring_bill = bill_of (codes "s") (date 2024 3 20) (date 2024 5 4) 150

abbrev pub two_bills : List (ParsedBill Fixed)
two_bills = winter_bill ∷ spring_bill ∷ []

pub winter_bill-IsProper : IsProper winter_bill
unfolding day_number month_length is_leap days_before_month days_before_year
winter_bill-IsProper = record {
  start_date = record { year_in = omega arith; month_in = omega arith; day_in = omega arith };
  end_date = record { year_in = omega arith; month_in = omega arith; day_in = omega arith };
  ordered = omega arith;
  end_year = omega arith;
}

pub spring_bill-IsProper : IsProper spring_bill
unfolding day_number month_length is_leap days_before_month days_before_year
spring_bill-IsProper = record {
  start_date = record { year_in = omega arith; month_in = omega arith; day_in = omega arith };
  end_date = record { year_in = omega arith; month_in = omega arith; day_in = omega arith };
  ordered = omega arith;
  end_year = omega arith;
}

pub two_bills-IsProper : All IsProper two_bills
two_bills-IsProper = (winter_bill-IsProper, (spring_bill-IsProper, tt))
