-- ===== src/Demo.antt =====
-- frontend/src/lib/fixtures.ts: the bills of an imaginary place, which the sign-in page draws. The cosine and
-- `toFixed` are the language's, and parameters.
pub mod Follow
use energlens.Common.{
  ℕ, zero, suc, ◌+◌, ◌-◌, ◌*◌, Bool, none, some, List, [], ◌∷◌, ◌++◌, reverse, Text, codes, of_ℕ,
  pad_zeros, if◌then◌else◌, leb, ◌==◌,
}
use energlens.Number.{Number}
use energlens.Calendar.{Date, date, days_in_month, full_year, next_month}
use energlens.Api.{Bill, electricity, script, invoice}
use energlens.Bills.{round}

-- 0 for calendar months, 15 for the 15th to the 14th
pub data DayOffset : Type 0 where
  whole_months from_fifteenth : DayOffset

pub record SeedParams (F : Type 0) : Type 0 where
  pub base_kwh : F
  pub winter_extra_kwh : F
  pub start_price : F
  pub price_step : F
  pub fixed : F
  pub currency : Text
  pub day_offset : DayOffset

abbrev pub seed_end : ℕ × ℕ
seed_end = (2026, 7)

abbrev pub seed_months : ℕ
seed_months = 24

-- The step of the loop of `monthsEndingAt`.
abbrev pub month_before : ℕ × ℕ → ℕ × ℕ
month_before (y, m) = if m == 1 then (y - 1, 12) else (y, m - 1)

-- The loop of `monthsEndingAt`, the latest month first.
abbrev pub months_back : ℕ → ℕ × ℕ → List (ℕ × ℕ)
months_back zero at = []
months_back (suc n) at = at ∷ months_back n (month_before at)

unfoldable pub months_ending_at : ℕ → ℕ × ℕ → List (ℕ × ℕ)
months_ending_at n end = reverse (months_back n end)

-- `new Date(year, month - 1, day)` with a day past the end of the month, which goes on into the next.
abbrev pub carried : ℕ → ℕ × ℕ → ℕ → Date
carried zero (y, m) d = date y m d
carried (suc fuel) (y, m) d =
    let later = carried fuel (next_month (y, m)) (d - days_in_month y m) in
    if leb d (days_in_month y m) then date y m d else later

-- `iso` of a date: the year as it is, month and day with two digits.
abbrev iso : Date → Text
iso d = of_ℕ d.year ++ (b'-' ∷ pad_zeros 2 (of_ℕ d.month)) ++ (b'-' ∷ pad_zeros 2 (of_ℕ d.day))

unfoldable pub add_days : ℕ → ℕ → ℕ → ℕ → Date
add_days y m d days = carried (d + days) (full_year y, m) (d + days)

-- `periodStart` and `periodEnd`
unfoldable pub period_start_of : DayOffset → ℕ × ℕ → Date
period_start_of whole_months (y, m) = date y m 1
period_start_of from_fifteenth (y, m) = date y m 15

unfoldable pub period_end_of : DayOffset → ℕ × ℕ → Date
period_end_of whole_months (y, m) = date y m (days_in_month y m)
period_end_of from_fifteenth (y, m) = add_days y m 15 (days_in_month y m - 1)

module _ {F : Type 0} ⦃n : Number F⦄ where
  open n use {lit, add, sub, mul, div}

  abbrev pub main_residence : SeedParams F
  main_residence = record {
    base_kwh = lit 160 0;
    winter_extra_kwh = lit 190 0;
    start_price = lit 155 3;
    price_step = lit 22 4;
    fixed = lit 59 1;
    currency = codes "EUR";
    day_offset = whole_months;
  }

  abbrev pub second_home : SeedParams F
  second_home = record {
    base_kwh = lit 45 0;
    winter_extra_kwh = lit 90 0;
    start_price = lit 65 2;
    price_step = lit 8 3;
    fixed = lit 12 0;
    currency = codes "RON";
    day_offset = from_fifteenth;
  }

  -- `Math.PI`, `Math.cos` and `x.toFixed(places)`
  module _ (pi : F) (cos : F → F) (to_fixed : ℕ → F → Text) where
    -- The bill of month i.
    unfoldable pub seed_bill : SeedParams F → Text → ℕ → ℕ × ℕ → Bill
    seed_bill params place_id i (year, month) =
        let angle = div (mul (mul (lit 2 0) pi) (lit (month - 1) 0)) (lit 12 0) in
        let seasonal = div (add (lit 1 0) (cos angle)) (lit 2 0) in
        let kwh = round (add params.base_kwh (mul params.winter_extra_kwh seasonal)) 1 in
        let price = round (add params.start_price (mul params.price_step (lit i 0))) 4 in
        let subtotal = add (mul kwh price) params.fixed in
        let taxes = mul subtotal (lit 19 2) in
        let total = round (add subtotal taxes) 2 in
        let start = period_start_of params.day_offset (year, month) in
        let end = period_end_of params.day_offset (year, month) in
        let midnight = iso end ++ codes "T00:00:00Z" in
        record {
          id = place_id ++ codes "-bill-" ++ of_ℕ i;
          place_id = place_id;
          utility_type = electricity;
          period_start = start;
          period_end = end;
          consumption = some (to_fixed 3 kwh);
          unit = codes "kWh";
          unit_price = some (to_fixed 6 price);
          fixed_charges = some (to_fixed 2 (round params.fixed 2));
          taxes = some (to_fixed 2 (round taxes 2));
          total_amount = to_fixed 2 total;
          currency_code = params.currency;
          provider_name = none;
          raw_file_ref = none;
          source = script;
          notes = none;
          provider_invoice_series = none;
          provider_invoice_number = none;
          issued_on = none;
          due_on = none;
          net_amount = none;
          vat_base = none;
          vat_rate = none;
          vat_amount = none;
          balance_brought_forward = none;
          total_due = some (to_fixed 2 total);
          read_method = none;
          document_type = invoice;
          corrects_bill_id = none;
          customer_code = none;
          provider_tax_id = none;
          document_id = none;
          created_at = midnight;
          updated_at = midnight;
        }

    abbrev pub seed_from : SeedParams F → Text → ℕ → List (ℕ × ℕ) → List Bill
    seed_from params place_id i [] = []
    seed_from params place_id i (at ∷ rest) =
        seed_bill params place_id i at ∷ seed_from params place_id (suc i) rest

    unfoldable pub seed_bills : SeedParams F → Text → ℕ → ℕ × ℕ → List Bill
    seed_bills params place_id months end =
        seed_from params place_id 0 (months_ending_at months end)

    unfoldable pub seed_bills_newest_first : SeedParams F → Text → ℕ → ℕ × ℕ → List Bill
    seed_bills_newest_first params place_id months end =
        reverse (seed_bills params place_id months end)
