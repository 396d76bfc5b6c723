-- ===== src/Months.antt =====
-- Monthly buckets, the middle part of frontend/src/lib/metrics.ts: `monthlyBuckets` and
-- `fillMonths`. The `Map` is a list of entries in the order of insertion. Each `while` loop takes
-- fuel, and `none` means that the fuel ran out.
pub mod Walk
pub mod Spans
pub mod Proration
pub mod Entries
pub mod Totals
pub mod Buckets
pub mod Fill
pub mod Known
pub mod Conserved
use energlens.Common.{
  ℕ, zero, suc, ◌+◌, ◌-◌, ◌*◌, ◌≡◌, Bool, true, false, ◌&&◌, ◌||◌, Option, none, some, List, [],
  ◌∷◌, ◌++◌, map, Text, text_eq, text_lt, if◌then◌else◌, ltb, leb, ◌==◌, or_else, last_of,
}
use energlens.Common.Int.{ℤ, pos, ltb_ℤ}
use energlens.Common.Sort.{sort}
use energlens.Number.{Number}
use energlens.Calendar.{
  Date, Zone, overlap_days, local_date, days_in_month, period_key, period_parts, next_month,
}
use energlens.Bills.{ParsedBill, energy_charge, round}

pub record MonthBucket (F : Type 0) : Type 0 where
  pub period : Text
  pub year : ℕ
  pub month : ℕ
  pub cost : F
  pub kwh : Option F
  pub effective : Option F
  pub unit_price : Option F
  pub energy : Option F
  pub fixed : Option F
  pub taxes : Option F
  pub per_day : F
  pub bill_ids : List Text

pub record Accumulator (F : Type 0) : Type 0 where
  pub cost : F
  pub kwh : F
  pub has_kwh : Bool
  pub energy : F
  pub has_energy : Bool
  pub fixed : F
  pub has_fixed : Bool
  pub taxes : F
  pub has_taxes : Bool
  pub bill_ids : List Text

-- The entries of `acc`.
abbrev pub Entries : Type 0 → Type 0
Entries F = List (Text × Accumulator F)

-- The comparator of the entries' sort.
abbrev pub key_before : {F : Type 0} → Text × Accumulator F → Text × Accumulator F → Bool
key_before (a, _) (b, _) = text_lt a b

-- `while (year < endYear || (year === endYear && month <= endMonth))`, with a body that works on
-- the state before the counter moves on.
unfoldable pub month_loop {ℓ} : {S : Type ℓ} → (ℕ × ℕ → S → S) → ℕ × ℕ → ℕ → ℕ × ℕ → S → Option S
month_loop body (end_year, end_month) zero at s = none
month_loop body (end_year, end_month) (suc fuel) (year, month) s =
    let rest =
      month_loop body (end_year, end_month) fuel (next_month (year, month))
        (body (year, month) s) in
    if ltb year end_year || (year == end_year && leb month end_month) then rest else some s

-- The months from the start to the end, and one more to leave the loop.
unfoldable pub loop_fuel : ℕ × ℕ → ℕ × ℕ → ℕ
loop_fuel (year, month) (end_year, end_month) =
    suc (12 * end_year + end_month + 1 - (12 * year + month))

module _ {F : Type 0} ⦃n : Number F⦄ where
  open n use {lit, of_ℤ, add, mul, div, lt}

  unfoldable pub new_bucket : Accumulator F
  new_bucket = record {
    cost = lit 0 0;
    kwh = lit 0 0;
    has_kwh = false;
    energy = lit 0 0;
    has_energy = false;
    fixed = lit 0 0;
    has_fixed = false;
    taxes = lit 0 0;
    has_taxes = false;
    bill_ids = [];
  }

  -- `bucketFor(key)`, and then a change of the bucket that it returns.
  unfoldable pub at_bucket : Text → (Accumulator F → Accumulator F) → Entries F → Entries F
  at_bucket key change [] = (key, change new_bucket) ∷ []
  at_bucket key change ((k, b) ∷ rest) =
      if text_eq k key then (k, change b) ∷ rest else (k, b) ∷ at_bucket key change rest

  -- `if (x !== null) { sum += x * share; has = true }`
  abbrev add_share : Option F → F → F → F
  add_share none share sum = sum
  add_share (some x) share sum = add sum (mul x share)

  abbrev pub seen : Option F → Bool → Bool
  seen none has = has
  seen (some x) has = true

  unfoldable pub contribute : ParsedBill F → F → Accumulator F → Accumulator F
  contribute bill share bucket = record {
    cost = add bucket.cost (mul bill.total share);
    bill_ids = bucket.bill_ids ++ (bill.id ∷ []);
    kwh = add_share bill.consumption share bucket.kwh;
    has_kwh = seen bill.consumption bucket.has_kwh;
    energy = add_share (energy_charge bill) share bucket.energy;
    has_energy = seen (energy_charge bill) bucket.has_energy;
    fixed = add_share bill.fixed_charges share bucket.fixed;
    has_fixed = seen bill.fixed_charges bucket.has_fixed;
    taxes = add_share bill.taxes share bucket.taxes;
    has_taxes = seen bill.taxes bucket.has_taxes;
  }

  -- The overlap of a bill with a month.
  unfoldable pub month_overlap : Zone → ParsedBill F → ℕ × ℕ → ℤ
  month_overlap z bill (year, month) =
      overlap_days z bill.period_start bill.period_end (local_date year month 1)
        (local_date year month (days_in_month year month))

  -- The loop's body.
  unfoldable pub visit_month : Zone → ParsedBill F → ℕ × ℕ → Entries F → Entries F
  visit_month z bill (year, month) acc =
      let overlap = month_overlap z bill (year, month) in
      if ltb_ℤ (pos 0) overlap
      then at_bucket (period_key year month) (contribute bill (div (of_ℤ overlap) (of_ℤ bill.days)))
          acc
      else acc

  -- `for (const bill of bills)`
  unfoldable pub spread_bill : Zone → ParsedBill F → Entries F → Option (Entries F)
  spread_bill z bill acc =
      let start : ℕ × ℕ = (bill.period_start.year, bill.period_start.month) in
      let end : ℕ × ℕ = (bill.period_end.year, bill.period_end.month) in
      month_loop (visit_month z bill) end (loop_fuel start end) start acc

  unfoldable pub spread_bills : Zone → List (ParsedBill F) → Entries F → Option (Entries F)
  spread_bills z [] acc = some acc
  spread_bills z (bill ∷ bills) acc = elim (spread_bill z bill acc) [
    | none ↦ none
    | some acc' ↦ spread_bills z bills acc'
  ]

  abbrev pub when : Bool → F → Option F
  when b x = if b then some x else none

  unfoldable pub to_bucket : Text × Accumulator F → MonthBucket F
  to_bucket (period, bucket) =
      let (year, month) = or_else (period_parts period) (0, 0) in
      let divisible = bucket.has_kwh && lt (lit 0 0) bucket.kwh in
      record {
        period = period;
        year = year;
        month = month;
        cost = round bucket.cost 2;
        kwh = when bucket.has_kwh (round bucket.kwh 2);
        effective = when divisible (round (div bucket.cost bucket.kwh) 4);
        unit_price = when (divisible && bucket.has_energy) (round (div bucket.energy bucket.kwh) 4);
        energy = when bucket.has_energy (round bucket.energy 2);
        fixed = when bucket.has_fixed (round bucket.fixed 2);
        taxes = when bucket.has_taxes (round bucket.taxes 2);
        per_day = round (div bucket.cost (lit (days_in_month year month) 0)) 2;
        bill_ids = bucket.bill_ids;
      }

  abbrev pub to_buckets : Entries F → List (MonthBucket F)
  to_buckets entries = map to_bucket (sort key_before entries)

  unfoldable pub monthly_buckets : Zone → List (ParsedBill F) → Option (List (MonthBucket F))
  monthly_buckets z bills = elim (spread_bills z bills []) [
    | none ↦ none
    | some entries ↦ some (to_buckets entries)
  ]

  -- `byPeriod.get(key)`: a later bucket of the same period replaces an earlier one.
  unfoldable pub bucket_at : Text → List (MonthBucket F) → Option (MonthBucket F)
  bucket_at key [] = none
  bucket_at key (b ∷ bs) = elim (bucket_at key bs) [
    | some later ↦ some later
    | none ↦ if text_eq b.period key then some b else none
  ]

  -- The `for (;;)` of `fillMonths`, with the last bucket's year and month.
  unfoldable pub fill_loop :
      List (MonthBucket F) → ℕ × ℕ → ℕ → ℕ × ℕ → Option (List (Option (MonthBucket F)))
  fill_loop buckets (last_year, last_month) zero at = none
  fill_loop buckets (last_year, last_month) (suc fuel) (year, month) =
      let rest = fill_loop buckets (last_year, last_month) fuel (next_month (year, month)) in
      let here = bucket_at (period_key year month) buckets in
      if year == last_year && month == last_month
      then some (here ∷ [])
      else elim rest [ none ↦ none | some out ↦ some (here ∷ out) ]

  unfoldable pub fill_months : ℕ → List (MonthBucket F) → Option (List (Option (MonthBucket F)))
  fill_months fuel [] = some []
  fill_months fuel (b ∷ bs) =
      let last = last_of b bs in fill_loop (b ∷ bs) (last.year, last.month) fuel (b.year, b.month)
