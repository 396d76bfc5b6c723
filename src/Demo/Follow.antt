-- ===== src/Demo/Follow.antt =====
-- The periods of the demo bills follow one another.
use energlens.Common.{
  ℕ, zero, suc, ◌+◌, ◌-◌, ◌*◌, ◌≤◌, ◌<◌, ◌≡◌, refl, List, [], ◌∷◌, ap, sym, ◌∙◌, arith, Text,
}
use mathlib.Core.List.{reverse_aux}
use energlens.Number.{Number}
use energlens.Calendar.{date, day_number, days_in_month, next_month, month_length}
use energlens.Calendar.Days.{first_day-next_month, day_number-eq, full_year-eq, month_length_pos}
use energlens.Months.Spans.{IsModern, next_month-IsModern}
use energlens.Api.{Bill}
use energlens.Demo.{
  DayOffset, whole_months, from_fifteenth, SeedParams, month_before, months_back, months_ending_at,
  add_days, carried, period_start_of, period_end_of, seed_bill, seed_from, seed_bills,
}

-- Months that follow each other.
abbrev Consecutive : List (ℕ × ℕ) → Type 0
Consecutive [] = Unit
Consecutive (a ∷ []) = IsModern a
Consecutive (a ∷ b ∷ rest) = IsModern a × (b ≡ next_month a) × Consecutive (b ∷ rest)

-- The same of a list, whose first month comes after the given one.
abbrev After : ℕ × ℕ → List (ℕ × ℕ) → Type 0
After at [] = Unit
After at (b ∷ rest) = (b ≡ next_month at) × Consecutive (b ∷ rest)

After-cons :
    (at : ℕ × ℕ) (rest : List (ℕ × ℕ)) → IsModern at → After at rest → Consecutive (at ∷ rest)
After-cons at [] v h = v
After-cons at (b ∷ rest) v h = (v, h.0, h.1)

-- Enough years for n months before this one.
abbrev pub HasRoom : ℕ → ℕ × ℕ → Type 0
HasRoom n (y, m) = (1 ≤ m) × (m ≤ 12) × (1200 + n ≤ 12 * y + m)

month_before_lem :
    (n : ℕ) (at : ℕ × ℕ)
    → HasRoom (suc n) at
    → HasRoom n (month_before at) × IsModern at × (at ≡ next_month (month_before at))
unfolding next_month
month_before_lem n (y, m) r = ground arith

-- The loop gathers months that lead up to the ones gathered already.
gathered :
    (n : ℕ) (at : ℕ × ℕ) (acc : List (ℕ × ℕ))
    → HasRoom n at
    → After at acc
    → Consecutive acc
    → Consecutive (reverse_aux (months_back n at) acc)
gathered zero at acc r h c = c
gathered (suc n) at acc r h c =
    let (r', v, e) = month_before_lem n at r in
    let c' = After-cons at acc v h in gathered n (month_before at) (at ∷ acc) r' (e, c') c'

months_ending_at-Consecutive :
    (n : ℕ) (end : ℕ × ℕ) → HasRoom n end → Consecutive (months_ending_at n end)
unfolding months_ending_at
months_ending_at-Consecutive n end r = gathered n end [] r tt tt

days_in_month-eq : (y m : ℕ) → 100 ≤ y → days_in_month y m ≡ month_length y m
unfolding days_in_month
days_in_month-eq y m h = ap (λ y. month_length y m) (full_year-eq y h)

carried-inside : (fuel y m d : ℕ) → d ≤ days_in_month y m → carried fuel (y, m) d ≡ date y m d
carried-inside zero y m d h = refl
carried-inside (suc fuel) y m d h = ground arith

carried-over :
    (fuel y m d : ℕ)
    → days_in_month y m < d
    → carried (suc fuel) (y, m) d ≡ carried fuel (next_month (y, m)) (d - days_in_month y m)
carried-over fuel y m d h = ground arith

-- The 14th of the next month, which the day count of a month reaches from the 15th.
add_days-fourteenth :
    (y m : ℕ)
    → IsModern (y, m)
    → add_days y m 15 (days_in_month y m - 1) ≡ date (next_month (y, m)).0 (next_month (y, m)).1 14
unfolding add_days
add_days-fourteenth y m v =
    let (y', m') = next_month (y, m) in
    let w : IsModern (y', m') = next_month-IsModern (y, m) v in
    let days = days_in_month y m in
    let long : 28 ≤ days = omega (arith, days_in_month-eq y m v.0, month_length_pos y m) in
    let long' : 28 ≤ days_in_month y' m' =
      omega (arith, days_in_month-eq y' m' w.0, month_length_pos y' m') in
    ap (λ y. carried (15 + (days - 1)) (y, m) (15 + (days - 1))) (full_year-eq y v.0)
    ∙ ap (λ f. carried f (y, m) (15 + (days - 1))) (fuel_eq days (omega arith))
    ∙ carried-over (13 + days) y m (15 + (days - 1)) (omega arith)
    ∙ ap (carried (13 + days) (next_month (y, m))) (rest_eq days (omega arith))
    ∙ carried-inside (13 + days) y' m' 14 (omega arith)
  where
    fuel_eq : (days : ℕ) → 28 ≤ days → 15 + (days - 1) ≡ suc (13 + days)
    fuel_eq days h = omega arith

    rest_eq : (days : ℕ) → 28 ≤ days → 15 + (days - 1) - days ≡ 14
    rest_eq days h = omega arith

-- A period ends on the day before the next month's begins.
period_end_of-next :
    (o : DayOffset) (at : ℕ × ℕ)
    → IsModern at
    → day_number (period_end_of o at) + 1 ≡ day_number (period_start_of o (next_month at))
unfolding period_end_of period_start_of
period_end_of-next whole_months (y, m) v = omega (
  arith,
  day_number-eq y m (days_in_month y m),
  days_in_month-eq y m v.0,
  first_day-next_month y m (omega arith) v.1 v.2,
)
period_end_of-next from_fifteenth (y, m) v =
    let (y', m') = next_month (y, m) in
    omega (
      arith,
      ap day_number (add_days-fourteenth y m v),
      day_number-eq y' m' 14,
      day_number-eq y' m' 15,
    )

-- Each bill begins on the day after the one before it ends.
abbrev pub IsTiled : List Bill → Type 0
IsTiled [] = Unit
IsTiled (b ∷ []) = Unit
IsTiled (b ∷ b' ∷ rest) =
    (day_number b.period_end + 1 ≡ day_number b'.period_start) × IsTiled (b' ∷ rest)

module _ {F : Type 0} ⦃n : Number F⦄ (pi : F) (cos : F → F) (to_fixed : ℕ → F → Text) where
  seed_from-IsTiled :
      (params : SeedParams F) (place_id : Text) (i : ℕ) (months : List (ℕ × ℕ))
      → Consecutive months
      → IsTiled (seed_from pi cos to_fixed params place_id i months)
  unfolding seed_bill
  seed_from-IsTiled params place_id i [] c = tt
  seed_from-IsTiled params place_id i (a ∷ []) c = tt
  seed_from-IsTiled params place_id i (a ∷ b ∷ rest) c =
      let (v, e, c') = c in
      (
        period_end_of-next params.day_offset a v
            ∙ ap (λ m. day_number (period_start_of params.day_offset m)) (sym e),
        seed_from-IsTiled params place_id (suc i) (b ∷ rest) c',
      )

  -- Whatever the place and the window, if the window begins after the year 100, each demo bill begins on
  -- the day after the one before it ends.
  pub seed_bills-IsTiled :
      (params : SeedParams F) (place_id : Text) (months : ℕ) (end : ℕ × ℕ)
      → HasRoom months end
      → IsTiled (seed_bills pi cos to_fixed params place_id months end)
  unfolding seed_bills
  seed_bills-IsTiled params place_id months end r =
      seed_from-IsTiled params place_id 0 (months_ending_at months end)
        (months_ending_at-Consecutive months end r)
