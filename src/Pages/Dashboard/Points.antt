-- ===== src/Pages/Dashboard/Points.antt =====
-- The date of a point of the per-bill view: the zone decides whether it is the bill's own.
use energlens.Common.{
  ℕ, zero, suc, ◌+◌, ◌-◌, ◌/◌, ◌<◌, ◌≤◌, ◌≡◌, refl, true, ltb, ◌==◌, arith, Bool-cases, inl, inr,
}
use energlens.Calendar.{
  Date, Zone, date, day_number, time, ms_per_day, month_length, days_before_month, next_month,
}
use energlens.Calendar.Days.{IsDate, first_day-next_month, day_number-eq}
use energlens.Number.{Number}
use energlens.Bills.{ParsedBill}
use energlens.Forms.Initial.{iso_text}
use energlens.Pages.Dashboard.{bill_point}
use energlens.Pages.Periods.{day_before, utc_date, greenwich, utc_day_text}

month_before :
    (y m : ℕ) → 2 ≤ m → days_before_month y (m - 1) + month_length y (m - 1) ≡ days_before_month y m
unfolding days_before_month
month_before y (suc (suc m)) h = ground arith
month_before y (suc zero) h = absurd (omega arith)
month_before y zero h = absurd (omega arith)

year_before : (y : ℕ) → 1 ≤ y → day_number (date y 12 31) + 1 ≡ day_number (date (y + 1) 1 1)
unfolding next_month month_length
year_before y h =
    omega (arith, first_day-next_month y 12 h (omega arith) (omega arith), day_number-eq y 12 31)

before :
    (y m d : ℕ)
    → 100 ≤ y
    → 1 ≤ m
    → 1 ≤ d
    → day_number (day_before (date y m d)) + 1 ≡ day_number (date y m d)
unfolding day_number
before y m d hy hm hd = elim (Bool-cases (ltb 1 d)) [
  | inl e ↦ rw e (ground arith)
  | inr e ↦
      let one : d ≡ 1 = ground arith in
      elim (Bool-cases (m == 1)) [
        | inl f ↦
            let first : m ≡ 1 = ground arith in
            let again : y - 1 + 1 ≡ y = omega arith in
            let start = year_before (y - 1) (omega arith) in rw (one, first) (rw again at start)
        | inr f ↦ rw (e, f) (ground (arith, month_before y m (ground arith)))
      ]
]

module _ (z : Zone) (d : Date) (valid : IsDate d) where
  -- The day before is one day earlier.
  day_number-day_before : day_number (day_before d) + 1 ≡ day_number d
  day_number-day_before = before d.year d.month d.day valid.year_in valid.month_in.0 valid.day_in.0

  day_number-utc_date :
      z.shift (day_number d) < greenwich + ms_per_day
      → day_number (utc_date z d) ≡ (time z d - greenwich) / ms_per_day
  unfolding time
  day_number-utc_date h = elim (Bool-cases (ltb (z.shift (day_number d)) greenwich)) [
    | inl e ↦ rw e (ground (arith, day_number-day_before))
    | inr e ↦ rw e (ground arith)
  ]

-- In a zone ahead of Greenwich, the point of a bill in the per-bill view is dated the day before the
-- bill's last day: the day it was in Greenwich at that day's local midnight.
pub bill_point-ahead :
    {F : Type 0} ⦃n : Number F⦄ (z : Zone) (bill : ParsedBill F)
    → IsDate bill.period_end
    → z.shift (day_number bill.period_end) < greenwich
    → ((bill_point z bill).period ≡ iso_text (day_before bill.period_end))
      × (day_number (day_before bill.period_end) + 1 ≡ day_number bill.period_end)
      × (day_number (day_before bill.period_end)
          ≡ (time z bill.period_end - greenwich) / ms_per_day)
unfolding bill_point utc_day_text
bill_point-ahead z bill valid ahead =
    let east : ltb (z.shift (day_number bill.period_end)) greenwich ≡ true = ground arith in
    let utc = day_number-utc_date z bill.period_end valid (omega arith) in
    (rw east refl, day_number-day_before z bill.period_end valid, rw east at utc)
