-- ===== src/Examples/Buckets.antt =====
-- Runs of the theorems on the months: two bills, one over the turn of a year and one over a change
-- of the clock, with a month between them that has no bill.
use energlens.Common.{◌&&◌, any, filter_by, is_some, or_else, ◌∙◌}
use energlens.Months.{Accumulator, new_bucket}
use energlens.Bills.{energy_charge}
use energlens.Calendar.{
  local_date, full_year, days_in_month, month_length, is_leap, overlap_days, day_number,
  days_before_year, days_before_month,
}
use energlens.Common.Int.{◌+ℤ◌, div_floor}
use energlens.Months.Known.{shares, monthly_buckets-known}
use energlens.Common.{
  ℕ, suc, ◌-◌, ◌≡◌, refl, true, Option, none, some, List, [], ◌∷◌, All, codes, text_lt, map, arith,
}
use energlens.Common.Int.{pos}
use mathlib.Core.Option
use energlens.Number.Fixed.{Fixed, fixed}
use energlens.Calendar.{date, period_key, inclusive_days}
use energlens.Calendar.Keys.{IsMonth, text_lt-period_key}
use energlens.Months.{
  MonthBucket, monthly_buckets, month_overlap, to_bucket, bucket_at, fill_months,
}
use energlens.Months.Walk.{months_from, rounds, month_index}
use energlens.Months.Proration.{handed_out, handed_out-eq-days}
use energlens.Months.Totals.{month_total}
use energlens.Months.Buckets.{
  IsOfMonth, InOrder, monthly_buckets-InOrder, bucket_at-monthly_buckets,
}
use energlens.Months.Fill.{present, fill_months-eq}
use energlens.Examples.{
  summer_zone, summer_zone-IsSteady, winter_bill, winter_bill-IsProper, two_bills,
  two_bills-IsProper,
}

monthly_buckets-InOrder_example :
    (out : List (MonthBucket Fixed)) × (monthly_buckets summer_zone two_bills ≡ some out)
    × All IsOfMonth out
    × InOrder out
monthly_buckets-InOrder_example =
    monthly_buckets-InOrder summer_zone two_bills summer_zone-IsSteady two_bills-IsProper

pub bucketed :
    (out : List (MonthBucket Fixed)) × (monthly_buckets summer_zone two_bills ≡ some out)
    × All IsOfMonth out
    × InOrder out
bucketed = monthly_buckets-InOrder summer_zone two_bills summer_zone-IsSteady two_bills-IsProper

pub january-IsMonth : IsMonth 2024 1
january-IsMonth = record { year_in = omega arith; month_in = omega arith }

bucket_at-monthly_buckets_example :
    bucket_at (period_key 2024 1) bucketed.0
    ≡ Option.map
        (λ sum. to_bucket (period_key 2024 1, sum))
        (month_total summer_zone two_bills (2024, 1) none)
bucket_at-monthly_buckets_example =
    bucket_at-monthly_buckets summer_zone two_bills 2024 1 summer_zone-IsSteady two_bills-IsProper
      january-IsMonth (omega arith) bucketed.1

handed_out-eq-days_example :
    pos (
      handed_out summer_zone summer_zone-IsSteady winter_bill
        (months_from (rounds (2023, 12) (2024, 2)) (2023, 12)))
    ≡ inclusive_days summer_zone (date 2023 12 15) (date 2024 2 10)
handed_out-eq-days_example =
    handed_out-eq-days summer_zone summer_zone-IsSteady winter_bill winter_bill-IsProper.start_date
      winter_bill-IsProper.end_date winter_bill-IsProper.ordered

abbrev pub bucket : ℕ → ℕ → MonthBucket Fixed
bucket y m = record {
  period = period_key y m;
  year = y;
  month = m;
  cost = fixed.lit 50 0;
  kwh = some (fixed.lit 60 0);
  effective = some (fixed.lit 83 2);
  unit_price = none;
  energy = none;
  fixed = none;
  taxes = none;
  per_day = fixed.lit 2 0;
  bill_ids = codes "b" ∷ [];
}

pub december-IsMonth : IsMonth 2023 12
december-IsMonth = record { year_in = omega arith; month_in = omega arith }

pub february-IsMonth : IsMonth 2024 2
february-IsMonth = record { year_in = omega arith; month_in = omega arith }

pub december_first : text_lt (period_key 2023 12) (period_key 2024 2) ≡ true
december_first =
    (text_lt-period_key 2023 12 2024 2 december-IsMonth february-IsMonth).1 (omega arith)

fill_months-eq_example :
    (out : List (Option (MonthBucket Fixed))) × (fill_months 5 (bucket 2023 12 ∷ bucket 2024 2 ∷ [])
      ≡ some out)
    × (out
        ≡ map
            (λ m. bucket_at (period_key m.0 m.1) (bucket 2023 12 ∷ bucket 2024 2 ∷ []))
            (months_from (suc (month_index (2024, 2) - month_index (2023, 12))) (2023, 12)))
    × (present out ≡ bucket 2023 12 ∷ bucket 2024 2 ∷ [])
fill_months-eq_example =
    fill_months-eq (bucket 2023 12) (bucket 2024 2 ∷ []) 5
      ((december-IsMonth, refl), ((february-IsMonth, refl), tt)) ((december_first, tt), (tt, tt))
      (omega arith)

abbrev january : Option (Accumulator Fixed)
january = month_total summer_zone two_bills (2024, 1) none

abbrev pub january_bucket : MonthBucket Fixed
january_bucket = to_bucket (period_key 2024 1, or_else january new_bucket)

pub january_bucket-here :
    Option.map (λ sum. to_bucket (period_key 2024 1, sum)) january ≡ some january_bucket
unfolding month_total month_overlap overlap_days local_date full_year days_in_month month_length
    is_leap day_number days_before_year days_before_month ◌+ℤ◌ div_floor
january_bucket-here = refl

monthly_buckets-known_example :
    (january_bucket.bill_ids ≡ map (λ c. c.id) (filter_by (shares summer_zone (2024, 1)) two_bills))
    × (is_some january_bucket.kwh
        ≡ any (λ c. shares summer_zone (2024, 1) c && is_some c.consumption) two_bills)
    × (is_some january_bucket.energy
        ≡ any (λ c. shares summer_zone (2024, 1) c && is_some (energy_charge c)) two_bills)
    × (is_some january_bucket.fixed
        ≡ any (λ c. shares summer_zone (2024, 1) c && is_some c.fixed_charges) two_bills)
    × (is_some january_bucket.taxes
        ≡ any (λ c. shares summer_zone (2024, 1) c && is_some c.taxes) two_bills)
monthly_buckets-known_example =
    monthly_buckets-known summer_zone two_bills 2024 1 january_bucket summer_zone-IsSteady
      two_bills-IsProper january-IsMonth (omega arith) bucketed.1
      (bucket_at-monthly_buckets summer_zone two_bills 2024 1 summer_zone-IsSteady
          two_bills-IsProper january-IsMonth (omega arith) bucketed.1
        ∙ january_bucket-here)
