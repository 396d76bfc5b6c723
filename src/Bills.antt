-- ===== src/Bills.antt =====
-- Parsed bills, the first part of frontend/src/lib/metrics.ts: `ParsedBill`, `parseBill`,
-- `parseBills`, the derivations over one bill, `pctChange` and `round`. `null` is `none`.
pub mod Order
use energlens.Common.{
  ℕ, ◌≡◌, Bool, true, false, not, ◌||◌, Option, none, some, List, [], ◌∷◌, map, Text, if◌then◌else◌,
  filter_map, ltb,
}
use energlens.Common.Int.{ℤ}
use energlens.Common.Sort.{sort}
use energlens.Number.{Number}
use energlens.Calendar.{Date, Zone, time, inclusive_days}
use energlens.Api.{Bill, BillSource}

pub record ParsedBill (F : Type 0) : Type 0 where
  pub id : Text
  pub period_start : Date
  pub period_end : Date
  pub days : ℤ
  pub consumption : Option F
  pub unit_price : Option F
  pub fixed_charges : Option F
  pub taxes : Option F
  pub total : F
  pub currency : Text
  pub source : BillSource
  pub provider_name : Option Text

module _ {F : Type 0} ⦃n : Number F⦄ where
  open n use {
    lit, of_ℤ, add, sub, mul, div, abs, floor, ceil, pow10, lt, le, eq, is_finite, of_text,
  }

  -- `num`
  unfoldable pub parse_number : Option Text → Option F
  parse_number none = none
  parse_number (some s) = let x = of_text s in if is_finite x then some x else none

  unfoldable pub parse_bill : Zone → Bill → ParsedBill F
  parse_bill z bill = record {
    id = bill.id;
    period_start = bill.period_start;
    period_end = bill.period_end;
    days = inclusive_days z bill.period_start bill.period_end;
    consumption = parse_number bill.consumption;
    unit_price = parse_number bill.unit_price;
    fixed_charges = parse_number bill.fixed_charges;
    taxes = parse_number bill.taxes;
    total = of_text bill.total_amount;
    currency = bill.currency_code;
    source = bill.source;
    provider_name = bill.provider_name;
  }

  -- The comparator of `parseBills`, as what comes strictly first.
  unfoldable pub starts_before : Zone → ParsedBill F → ParsedBill F → Bool
  starts_before z a b = ltb (time z a.period_start) (time z b.period_start)

  unfoldable pub parse_bills : Zone → List Bill → List (ParsedBill F)
  parse_bills z bills = sort (starts_before z) (map (parse_bill z) bills)

  unfoldable pub effective_price : ParsedBill F → Option F
  effective_price bill = price bill.consumption
    where
      price : Option F → Option F
      price none = none
      price (some kwh) = if le kwh (lit 0 0) then none else some (div bill.total kwh)

  unfoldable pub effective_price_series : List (ParsedBill F) → List F
  effective_price_series bills = filter_map effective_price bills

  abbrev both : (F → F → F) → Option F → Option F → Option F
  both f (some a) (some b) = some (f a b)
  both f _ _ = none

  unfoldable pub energy_charge : ParsedBill F → Option F
  energy_charge bill = both mul bill.consumption bill.unit_price

  unfoldable pub cost_per_day : ParsedBill F → F
  cost_per_day bill = div bill.total (of_ℤ bill.days)

  unfoldable pub pct_change : F → F → Option F
  pct_change from to =
      if not (is_finite from) || eq from (lit 0 0)
      then none
      else some (mul (div (sub to from) (abs from)) (lit 100 0))

  -- `round(value, places)`
  unfoldable pub round : F → ℕ → F
  round value places =
      let factor = pow10 (lit places 0) in
      let scaled = mul value factor in
      let nudged = add scaled (if le (lit 0 0) scaled then lit 1 9 else n.neg (lit 1 9)) in
      let rounded =
        if le (lit 0 0) nudged then floor (add nudged (lit 5 1)) else ceil (sub nudged (lit 5 1)) in
      div rounded factor
