-- ===== src/Examples/Money.antt =====
-- A run of the theorem on the money of the months, with a bill of fifty days over three months, whose
-- shares are whole ten-thousandths.
use energlens.Common.{
  ℕ, ◌+◌, ◌*◌, ◌/◌, ◌≡◌, refl, ap, ◌∙◌, some, none, [], ◌∷◌, codes, arith, false,
}
use energlens.Common.Int.{pos, int_laws, ◌*ℤ◌, div_floor, div_trunc, abs, sub_ℕ, ltb_ℤ, eq_of_parts}
use mathlib.Core.Path.{ap₂}
use mathlib.Core.Bool.{xor}
use energlens.Number.Fixed.{Fixed, fixed}
use energlens.Calendar.{
  date, inclusive_days, day_number, month_length, is_leap, days_before_month, days_before_year,
}
use energlens.Calendar.Days.{inclusive_days-eq}
use energlens.Bills.{ParsedBill}
use energlens.Months.{Entries, spread_bills, monthly_buckets, to_buckets}
use energlens.Months.Totals.{IsProper}
use energlens.Months.Conserved.{
  IsSum, Splits, IsSplit, part_of, sum_of, cost_of, monthly_buckets-cost,
}
use energlens.Examples.{summer_zone, summer_zone-IsSteady, bill_of}

add_assoc : (x y z : Fixed) → fixed.add (fixed.add x y) z ≡ fixed.add x (fixed.add y z)
add_assoc (some a) (some b) (some c) = ap some (eq_of_parts _ _ (omega int_laws))
add_assoc (some a) (some b) none = refl
add_assoc (some a) none z = refl
add_assoc none y z = refl

add_comm : (x y : Fixed) → fixed.add x y ≡ fixed.add y x
add_comm (some a) (some b) = ap some (eq_of_parts _ _ (omega int_laws))
add_comm (some a) none = refl
add_comm none (some b) = refl
add_comm none none = refl

add_zero : (x : Fixed) → fixed.add x (fixed.lit 0 0) ≡ x
add_zero (some a) = ap some (eq_of_parts _ _ (omega int_laws))
add_zero none = refl

fixed-IsSum : IsSum Fixed
fixed-IsSum = record { add_assoc = add_assoc; add_comm = add_comm; add_zero = add_zero }

mul_pos : (a b : ℕ) → pos a *ℤ pos b ≡ pos (a * b)
unfolding ◌*ℤ◌
mul_pos a b = ground arith

sub_zero : (q : ℕ) → sub_ℕ q 0 ≡ pos q
sub_zero q = ground arith

div_trunc_pos : (a b : ℕ) → div_trunc (pos a) (pos b) ≡ pos (a / b)
unfolding div_trunc xor
div_trunc_pos a b =
    let up : ltb_ℤ (pos a) (pos 0) ≡ false = ground arith in
    let up' : ltb_ℤ (pos b) (pos 0) ≡ false = ground arith in
    rw (up, up')
      (sub_zero (abs (pos a) / abs (pos b)) ∙ ap pos (ap₂ ◌/◌ (omega arith) (omega arith)))

-- k days of fifty are 2k per cent of a hundred.
part : (k : ℕ) → part_of (fixed.lit 100 0) (pos 50) k ≡ some (pos (20000 * k))
unfolding div_floor
part k =
    let share : fixed.div (fixed.of_ℤ (pos k)) (fixed.of_ℤ (pos 50)) ≡ some (pos (200 * k)) =
      rw (mul_pos k 10000, mul_pos (k * 10000) 10000, mul_pos 50 10000, div_trunc_pos)
        (ap (λ q. some (pos q)) (omega arith)) in
    rw (share, mul_pos) (ap (λ q. some (pos q)) (omega arith))

hundred_in_fifty : Splits (fixed.lit 100 0) (pos 50)
hundred_in_fifty = record {
  no_day = part 0;
  more_days = λ k l. rw (part (k + l), part k, part l) (ap some (eq_of_parts _ _ (omega int_laws)));
  all_days = part 50;
}

abbrev cold_bill : ParsedBill Fixed
cold_bill = bill_of (codes "c") (date 2024 1 12) (date 2024 3 1) 80

abbrev mild_bill : ParsedBill Fixed
mild_bill = bill_of (codes "m") (date 2024 3 2) (date 2024 4 20) 80

cold_bill-IsProper : IsProper cold_bill
unfolding day_number month_length is_leap days_before_month days_before_year
cold_bill-IsProper = record {
  start_date = record { year_in = omega arith; month_in = omega arith; day_in = omega arith };
  end_date = record { year_in = omega arith; month_in = omega arith; day_in = omega arith };
  ordered = omega arith;
  end_year = omega arith;
}

mild_bill-IsProper : IsProper mild_bill
unfolding day_number month_length is_leap days_before_month days_before_year
mild_bill-IsProper = record {
  start_date = record { year_in = omega arith; month_in = omega arith; day_in = omega arith };
  end_date = record { year_in = omega arith; month_in = omega arith; day_in = omega arith };
  ordered = omega arith;
  end_year = omega arith;
}

fifty :
    (inclusive_days summer_zone (date 2024 1 12) (date 2024 3 1) ≡ pos 50)
    × (inclusive_days summer_zone (date 2024 3 2) (date 2024 4 20) ≡ pos 50)
unfolding day_number month_length is_leap days_before_month days_before_year
fifty = (
  inclusive_days-eq summer_zone (date 2024 1 12) (date 2024 3 1) summer_zone-IsSteady,
  inclusive_days-eq summer_zone (date 2024 3 2) (date 2024 4 20) summer_zone-IsSteady,
)

cold_bill-IsSplit : IsSplit summer_zone cold_bill
cold_bill-IsSplit = record { days_eq = refl; splits = rw (fifty.0) hundred_in_fifty }

mild_bill-IsSplit : IsSplit summer_zone mild_bill
mild_bill-IsSplit = record { days_eq = refl; splits = rw (fifty.1) hundred_in_fifty }

monthly_buckets-cost_example :
    (es : Entries Fixed) × (spread_bills summer_zone (cold_bill ∷ mild_bill ∷ []) [] ≡ some es)
    × (monthly_buckets summer_zone (cold_bill ∷ mild_bill ∷ []) ≡ some (to_buckets es))
    × (cost_of es ≡ sum_of (λ b. b.total) (cold_bill ∷ mild_bill ∷ []))
monthly_buckets-cost_example =
    monthly_buckets-cost fixed-IsSum summer_zone summer_zone-IsSteady (cold_bill ∷ mild_bill ∷ [])
      (cold_bill-IsProper, (mild_bill-IsProper, tt)) (cold_bill-IsSplit, (mild_bill-IsSplit, tt))
