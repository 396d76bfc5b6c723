-- ===== src/Calendar.antt =====
-- The `Date` helpers of frontend/src/lib/metrics.ts: `inclusiveDays`, `daysInMonth`,
-- `periodKey`, `overlapDays`. `Date` is the language's. A value is a local midnight: a calendar
-- day with the time zone's shift on that day, in milliseconds.
pub mod Days
pub mod Keys
use energlens.Common.{
  ℕ, zero, suc, ◌+◌, ◌-◌, ◌*◌, ◌/◌, ◌%◌, ◌≤◌, ◌<◌, ◌≡◌, Bool, true, false, not, ◌&&◌, ◌||◌, Option,
  none, some, List, [], ◌∷◌, ◌++◌, Text, of_ℕ, pad_zeros, number, split_dash, if◌then◌else◌, ltb,
  leb, ◌==◌,
}
use energlens.Common.Int.{ℤ, pos, negsuc, sub_ℕ, ◌+ℤ◌, div_floor}

pub record Date : Type 0 where
  pub day : ℕ
  pub month : ℕ
  pub year : ℕ

abbrev pub date : ℕ → ℕ → ℕ → Date
date y m d = record { year = y; month = m; day = d }

unfoldable pub is_leap : ℕ → Bool
is_leap y = (y % 4 == 0) && (not (y % 100 == 0) || (y % 400 == 0))

-- The days of a calendar month.
unfoldable pub month_length : ℕ → ℕ → ℕ
unfolding is_leap
month_length y m =
    if (m == 11) || (m == 9) || (m == 6) || (m == 4)
    then 30
    else if m == 2
    then 28 + (if is_leap y then 1 else 0)
    else 31

-- The days of year y before its month m.
unfoldable pub days_before_month : ℕ → ℕ → ℕ
days_before_month y zero = 0
days_before_month y (suc m) = days_before_month y m + (if m == 0 then 0 else month_length y m)

unfoldable pub days_before_year : ℕ → ℕ
days_before_year y = let p = y - 1 in p * 365 + p / 4 - p / 100 + p / 400

unfoldable pub day_number : Date → ℕ
day_number d = days_before_year d.year + days_before_month d.year d.month + d.day

-- `new Date(year, …)` reads a year below 100 as one of the 1900s.
unfoldable pub full_year : ℕ → ℕ
full_year y = if ltb y 100 then 1900 + y else y

-- `new Date(year, month - 1, day)`
unfoldable pub local_date : ℕ → ℕ → ℕ → Date
unfolding full_year
local_date y m d = date (full_year y) m d

-- The time zone: how far after a fixed time of day the local midnight of a day comes, by the
-- day's number.
pub record Zone : Type 0 where
  pub shift : ℕ → ℕ

abbrev pub ms_per_day : ℕ
ms_per_day = 24 * 60 * 60 * 1000

-- `date.getTime()`, counted from a day before all dates in use.
unfoldable pub time : Zone → Date → ℕ
time z d = day_number d * ms_per_day + z.shift (day_number d)

unfoldable pub inclusive_days : Zone → Date → Date → ℤ
unfolding time
inclusive_days z start end =
    let doubled = sub_ℕ (2 * time z end + ms_per_day) (2 * time z start) in
    div_floor doubled (2 * ms_per_day) +ℤ pos 1

unfoldable pub days_in_month : ℕ → ℕ → ℕ
unfolding full_year
days_in_month y m = month_length (full_year y) m

unfoldable pub period_key : ℕ → ℕ → Text
period_key y m = pad_zeros 4 (of_ℕ y) ++ (b'-' ∷ pad_zeros 2 (of_ℕ m))

-- `period.split('-').map(Number)`, its first two fields; `none` if one is missing or NaN.
unfoldable pub period_parts : Text → Option (ℕ × ℕ)
period_parts s = parts (split_dash s)
  where
    pair : Option ℕ → Option ℕ → Option (ℕ × ℕ)
    pair (some y) (some m) = some (y, m)
    pair _ _ = none

    parts : Text × List Text → Option (ℕ × ℕ)
    parts (y, []) = none
    parts (y, m ∷ _) = pair (number y) (number m)

unfoldable pub overlap_days : Zone → Date → Date → Date → Date → ℤ
unfolding time inclusive_days
overlap_days z a_start a_end b_start b_end =
    let start = if ltb (time z b_start) (time z a_start) then a_start else b_start in
    let end = if ltb (time z a_end) (time z b_end) then a_end else b_end in
    if leb (time z start) (time z end) then inclusive_days z start end else pos 0

-- The step of a month counter: `if (month === 12) { year += 1; month = 1 } else { month += 1 }`.
unfoldable pub next_month : ℕ × ℕ → ℕ × ℕ
next_month (y, m) = if m == 12 then (y + 1, 1) else (y, m + 1)
