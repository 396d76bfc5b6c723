-- ===== src/Pages/Periods.antt =====
-- What the pages share: the range control of DashboardPage.tsx and ComparePage.tsx, the month that a
-- bill is filed under, the currency, and the date that `toISOString` writes for a local midnight.
use energlens.Common.{
  ℕ, zero, suc, ◌-◌, ◌*◌, Option, none, some, List, ◌∷◌, ◌++◌, Text, codes, of_ℕ, pad_zeros,
  if◌then◌else◌, ltb, ◌==◌, last_n,
}
use energlens.Calendar.{Date, Zone, date, day_number, month_length}
use energlens.Api.{Place}
use energlens.Bills.{ParsedBill}
use energlens.Forms.Initial.{iso_text}
use energlens.Session.Preferences.{DefaultRange, range12, range24, range_all}

-- `RANGE_MONTHS[range]`
unfoldable pub range_months : DefaultRange → Option ℕ
range_months range12 = some 12
range_months range24 = some 24
range_months range_all = none

-- `months === null ? allBuckets : allBuckets.slice(-months)`
unfoldable pub in_window : {A : Type 0} → Option ℕ → List A → List A
in_window none buckets = buckets
in_window (some months) buckets = last_n months buckets

-- The month of a bill's last day.
unfoldable pub month_text : Date → Text
month_text d = of_ℕ d.year ++ (b'-' ∷ pad_zeros 2 (of_ℕ d.month))

-- The same month a year before.
unfoldable pub year_ago_text : Date → Text
year_ago_text d = year_text d.year ++ (b'-' ∷ pad_zeros 2 (of_ℕ d.month))
  where
    year_text : ℕ → Text
    year_text zero = codes "-1"
    year_text (suc y) = of_ℕ y

-- `place.data?.currency_code ?? bill?.currency ?? 'EUR'`
unfoldable pub currency_of : {F : Type 0} → Option Place → Option (ParsedBill F) → Text
currency_of (some place) bill = place.currency_code
currency_of none (some bill) = bill.currency
currency_of none none = codes "EUR"

-- The calendar day before.
abbrev pub day_before : Date → Date
day_before d =
    if ltb 1 d.day
    then date d.year d.month (d.day - 1)
    else if d.month == 1
    then date (d.year - 1) 12 31
    else date d.year (d.month - 1) (month_length d.year (d.month - 1))

-- The shift of a zone that is level with Greenwich, if a zone's shifts are counted from the midnight
-- of the zone furthest east, fourteen hours ahead.
abbrev pub greenwich : ℕ
greenwich = 14 * 60 * 60 * 1000

-- The day in Greenwich at a local midnight.
abbrev pub utc_date : Zone → Date → Date
utc_date z d = if ltb (z.shift (day_number d)) greenwich then day_before d else d

-- `date.toISOString().slice(0, 10)`
unfoldable pub utc_day_text : Zone → Date → Text
utc_day_text z d = iso_text (utc_date z d)
