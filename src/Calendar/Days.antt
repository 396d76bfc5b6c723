-- ===== src/Calendar/Days.antt =====
-- Day numbers: what `inclusiveDays` and `overlapDays` count in a zone with summer time, and how
-- the months of the calendar follow one another.
use native.Mathlib.Decide.{dec_lt}
use mathlib.Core.Path.{ap₂}
use native.Mathlib.Numerals.{add-one}
use energlens.Common.{
  ◌↔◌, ◌⊎◌, inl, inr, ap, ◌∙◌, ltb, leb, ℕ, ◌+◌, ◌-◌, ◌≤◌, ◌<◌, ◌≡◌, refl, arith, min, max,
  if◌then◌else◌,
}
use energlens.Common.Int.{pos, sub_ℕ, ◌+ℤ◌, div_floor}
use energlens.Calendar.{
  Date, date, Zone, day_number, time, inclusive_days, month_length, overlap_days, next_month,
  full_year, days_before_month, days_before_year, is_leap,
}

-- The midnights of two days are shifted by amounts less than twelve hours apart.
pub record IsSteady (z : Zone) : Type 0 where
  pub near : (d e : ℕ) → z.shift d < z.shift e + 43_200_000

pub record IsDate (d : Date) : Type 0 where
  pub year_in : 100 ≤ d.year
  pub month_in : (1 ≤ d.month) × (d.month ≤ 12)
  pub day_in : (1 ≤ d.day) × (d.day ≤ month_length d.year d.month)

-- In a zone whose shifts stay less than twelve hours apart, `inclusiveDays` is the exact count of
-- calendar days from the first to the last, both included, whatever the clock did in between.
pub inclusive_days-eq :
    (z : Zone) (s e : Date)
    → IsSteady z
    → inclusive_days z s e ≡ sub_ℕ (day_number e + 1) (day_number s)
unfolding inclusive_days div_floor ◌+ℤ◌
inclusive_days-eq z s e steady =
    ground
      (arith, steady.near (day_number s) (day_number e), steady.near (day_number e) (day_number s))

-- Local midnights come in the order of their days.
pub time_lt_iff :
    (z : Zone) (s e : Date) → IsSteady z → (time z s < time z e) ↔ (day_number s < day_number e)
unfolding time
time_lt_iff z s e steady = (
  λ h. later h (elim (dec_lt (day_number s) (day_number e)) [
    | yes p ↦ inl p
    | no p ↦ elim (dec_lt (day_number e) (day_number s)) [
      | yes q ↦ inr (inl q)
      | no q ↦ inr (inr (omega arith))
    ]
  ]),
  λ h. omega (arith, steady.near (day_number s) (day_number e)),
)
  where
    later :
        time z s < time z e
        → (day_number s < day_number e)
          ⊎ ((day_number e < day_number s) ⊎ (day_number s ≡ day_number e))
        → day_number s < day_number e
    later h (inl p) = p
    later h (inr (inl p)) = absurd (omega (arith, steady.near (day_number e) (day_number s)))
    later h (inr (inr p)) = absurd (omega (arith, ap z.shift p))

pub time_le_iff :
    (z : Zone) (s e : Date) → IsSteady z → (time z s ≤ time z e) ↔ (day_number s ≤ day_number e)
time_le_iff z s e steady =
    let (forth, back) = time_lt_iff z e s steady in
    (
      λ h. elim (dec_lt (day_number e) (day_number s)) [
        | yes p ↦ absurd (omega (arith, back p))
        | no p ↦ omega arith
      ],
      λ h. elim (dec_lt (time z e) (time z s)) [
        | yes p ↦ absurd (omega (arith, forth p))
        | no p ↦ omega arith
      ],
    )

-- The days that two ranges of days share.
abbrev pub common_days : ℕ → ℕ → ℕ → ℕ → ℕ
common_days s e first last = min e last + 1 - max s first

-- The later of two days, and the earlier, as `overlapDays` picks them.
later_day :
    (z : Zone) (a c : Date)
    → IsSteady z
    → day_number (if ltb (time z c) (time z a) then a else c) ≡ max (day_number a) (day_number c)
later_day z a c steady = ground (arith, time_lt_iff z c a steady)

earlier_day :
    (z : Zone) (b d : Date)
    → IsSteady z
    → day_number (if ltb (time z b) (time z d) then b else d) ≡ min (day_number b) (day_number d)
earlier_day z b d steady = ground (arith, time_lt_iff z b d steady)

guarded_days :
    (z : Zone) (p q : Date)
    → IsSteady z
    → (if leb (time z p) (time z q) then inclusive_days z p q else pos 0)
      ≡ pos (day_number q + 1 - day_number p)
guarded_days z p q steady = ground (arith, time_le_iff z p q steady, inclusive_days-eq z p q steady)

-- In such a zone `overlapDays` counts the days that lie in both ranges, and is 0 if none does.
pub overlap_days-eq :
    (z : Zone) (a b c d : Date)
    → IsSteady z
    → overlap_days z a b c d
      ≡ pos (common_days (day_number a) (day_number b) (day_number c) (day_number d))
unfolding overlap_days
overlap_days-eq z a b c d steady =
    guarded_days z (if ltb (time z c) (time z a) then a else c)
      (if ltb (time z b) (time z d) then b else d) steady
    ∙ ap pos (ap₂ (λ p q. q + 1 - p) (later_day z a c steady) (earlier_day z b d steady))

pub month_length_pos : (y m : ℕ) → 28 ≤ month_length y m
unfolding month_length
month_length_pos y m = ground arith

-- The day number of the first of a month.
abbrev pub first_day : ℕ × ℕ → ℕ
first_day (y, m) = day_number (date y m 1)

twelve_months : (y : ℕ) → days_before_month y 13 ≡ (if is_leap y then 366 else 365)
unfolding days_before_month month_length
twelve_months y = ground arith

days_before_year-suc :
    (y : ℕ)
    → 1 ≤ y
    → days_before_year (y + 1) ≡ days_before_year y + (if is_leap y then 366 else 365)
unfolding days_before_year is_leap
days_before_year-suc y h = ground arith

days_before_month-suc :
    (y m : ℕ) → 1 ≤ m → days_before_month y (m + 1) ≡ days_before_month y m + month_length y m
unfolding days_before_month
days_before_month-suc y m h = rw (add-one m) (ground arith)

days_before_month-one : (y : ℕ) → days_before_month y 1 ≡ 0
unfolding days_before_month
days_before_month-one y = refl

-- One month ends where the next one begins.
pub first_day-next_month :
    (y m : ℕ)
    → 1 ≤ y
    → 1 ≤ m
    → m ≤ 12
    → first_day (next_month (y, m)) ≡ first_day (y, m) + month_length y m
unfolding next_month day_number
first_day-next_month y m hy h k = ground (
  arith,
  twelve_months y,
  days_before_year-suc y hy,
  days_before_month-suc y m h,
  days_before_month-one (y + 1),
)

pub day_number-eq : (y m d : ℕ) → day_number (date y m d) + 1 ≡ first_day (y, m) + d
unfolding day_number
day_number-eq y m d = omega arith

pub full_year-eq : (y : ℕ) → 100 ≤ y → full_year y ≡ y
unfolding full_year
full_year-eq y h = ground arith
