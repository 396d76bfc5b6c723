-- ===== src/Pages/Dashboard.antt =====
-- frontend/src/pages/DashboardPage.tsx: what the place's dashboard derives from its bills, and the state
-- of its controls. `null` of a point's number is `none`.
pub mod Points
pub mod Range
use energlens.Common.{
  ℕ, ◌≡◌, Bool, true, false, not, ◌&&◌, Option, none, some, List, [], ◌∷◌, ◌++◌, map, Text, codes,
  of_ℕ, text_lt, if◌then◌else◌, length, filter_by, reverse, take, last_of, ◌==◌,
}
use mathlib.Core.Option
use energlens.Number.{Number}
use energlens.Format.{
  Intl, Value, nothing, amount, dash, minus_sign, fmt_currency, fmt_number, fmt_period,
}
use energlens.Api.{Bill, Place, BillSource}
use energlens.Calendar.{Zone}
use energlens.Bills.{ParsedBill, effective_price, energy_charge, cost_per_day, pct_change}
use energlens.Months.{MonthBucket}
use energlens.Metrics.Windows.{Delta, no_delta, yoy_delta, TrailingComparison}
use energlens.Metrics.Headline.{to_value}
use energlens.Metrics.Trends.{ContractRateChange}
use energlens.Session.Preferences.{DefaultRange}
use energlens.Pages.Periods.{in_window, range_months, month_text, year_ago_text, utc_day_text}

pub data Granularity : Type 0 where
  by_month by_bill : Granularity

pub record Controls : Type 0 where
  pub range : DefaultRange
  pub granularity : Granularity
  pub adding_bill : Bool

abbrev first_of : {A : Type 0} → List A → Option A
first_of [] = none
first_of (x ∷ xs) = some x

abbrev pub last_item : {A : Type 0} → List A → Option A
last_item [] = none
last_item (x ∷ xs) = some (last_of x xs)

-- `[address_line1, city, …].filter(Boolean).join(' · ')`
unfoldable pub meta_line : Option Place → ℕ → Text
meta_line place count = joined (
    filter_by is_written
      (address place ++ (if count == 0 then [] else (of_ℕ count ++ codes " bills") ∷ [])))
  where
    is_written : Text → Bool
    is_written [] = false
    is_written (c ∷ cs) = true

    address : Option Place → List Text
    address none = []
    address (some p) = p.address_line1 ∷ p.city ∷ []

    joined : List Text → Text
    joined [] = []
    joined (s ∷ []) = s
    joined (s ∷ t ∷ ts) = s ++ codes " · " ++ joined (t ∷ ts)

pub record Cell : Type 0 where
  pub label : Text
  pub value : Text
  pub note : Option Text

module _ {F : Type 0} ⦃n : Number F⦄ where
  open n use {lit, lt, le, abs}

  -- `billsAsPoints`
  unfoldable pub bill_point : Zone → ParsedBill F → MonthBucket F
  bill_point z bill = record {
    period = utc_day_text z bill.period_end;
    year = bill.period_end.year;
    month = bill.period_end.month;
    cost = bill.total;
    kwh = bill.consumption;
    effective = effective_price bill;
    unit_price = bill.unit_price;
    energy = energy_charge bill;
    fixed = bill.fixed_charges;
    taxes = bill.taxes;
    per_day = cost_per_day bill;
    bill_ids = bill.id ∷ [];
  }

  unfoldable pub bills_as_points : Zone → List (ParsedBill F) → List (MonthBucket F)
  bills_as_points z bills = map (bill_point z) bills

  -- A bill whose month is not before the first one shown.
  abbrev pub from_month : Text → ParsedBill F → Bool
  from_month earliest b = not (text_lt (month_text b.period_end) earliest)

  unfoldable pub bills_in_range :
      Option ℕ → List (ParsedBill F) → List (MonthBucket F) → List (ParsedBill F)
  bills_in_range none parsed buckets = parsed
  bills_in_range (some months) parsed [] = parsed
  bills_in_range (some months) parsed (first ∷ buckets) = filter_by (from_month first.period) parsed

  -- `heroRows`
  unfoldable pub hero_rows :
      Zone → Controls → List (ParsedBill F) → List (MonthBucket F) → List (MonthBucket F)
  hero_rows z controls parsed all_buckets =
      let months = range_months controls.range in
      let buckets = in_window months all_buckets in
      elim controls.granularity [
        | by_month ↦ buckets
        | by_bill ↦ bills_as_points z (bills_in_range months parsed buckets)
      ]

  unfoldable pub last_bill_yoy : List (ParsedBill F) → List (MonthBucket F) → Delta F
  last_bill_yoy parsed all_buckets = elim (last_item parsed) [
    | none ↦ no_delta
    | some bill ↦ yoy_delta all_buckets (month_text bill.period_end) (λ b. some b.cost)
  ]

  unfoldable pub all_in_since_start : List (MonthBucket F) → Option F
  all_in_since_start [] = none
  all_in_since_start (first ∷ buckets) = change first.effective (last_of first buckets).effective
    where
      change : Option F → Option F → Option F
      change (some from) (some to) = pct_change from to
      change _ _ = none

  unfoldable pub recent_bills : List (ParsedBill F) → List (ParsedBill F)
  recent_bills parsed = take 5 (reverse parsed)

  module _ (intl : Intl F) where
    abbrev field : {A : Type 0} → (A → Value F) → Option A → Value F
    field f none = nothing
    field f (some x) = f x

    -- The row of figures: the delta and the cell.
    unfoldable pub stat_cells :
        Text
        → List (ParsedBill F)
        → List (MonthBucket F)
        → TrailingComparison F
        → List (Option F × Cell)
    stat_cells currency parsed all_buckets comparison =
        let last_bill = last_item parsed in
        let yoy = (last_bill_yoy parsed all_buckets).pct in
        ((
          yoy,
          record {
            label = codes "Last bill";
            value = fmt_currency intl (field (λ b. amount b.total) last_bill) currency 2;
            note =
                Option.map (λ b. codes "vs " ++ fmt_period intl (year_ago_text b.period_end))
                  last_bill;
          },
        )
          ∷ (
            all_in_since_start all_buckets,
            record {
              label = codes "All-in €/kWh";
              value =
                  fmt_currency intl (field (λ b. to_value b.effective) (last_item all_buckets))
                    currency 4;
              note =
                  Option.map (λ b. codes "since " ++ fmt_period intl b.period)
                    (first_of all_buckets);
            },
          )
          ∷ (
            comparison.cost.pct,
            record {
              label = codes "12-mo spend";
              value = fmt_currency intl (amount comparison.current.cost) currency 0;
              note = some (
                  if comparison.partial
                  then codes "over " ++ of_ℕ comparison.current.months ++ codes " mo"
                  else codes "vs prior 12 mo");
            },
          )
          ∷ (
            comparison.kwh.pct,
            record {
              label = codes "12-mo use";
              value = fmt_number intl (to_value comparison.current.kwh) 0;
              note =
                  some
                    (if unchanged comparison.kwh.pct then codes "kWh, unchanged" else codes "kWh");
            },
          )
          ∷ (
            yoy,
            record {
              label = codes "Cost per day";
              value = fmt_currency intl (field (λ b. amount (cost_per_day b)) last_bill) currency 2;
              note = some (codes "period-normalized");
            },
          )
          ∷ [])
      where
        unchanged : Option F → Bool
        unchanged none = false
        unchanged (some pct) = lt (abs pct) (lit 5 2)

    -- The figure beside the tariff curves.
    unfoldable pub evidence_figure : Text → ContractRateChange F → Text
    evidence_figure currency rate = elim rate.abs [
      | none ↦ dash
      | some x ↦
          (if le (lit 0 0) x then b'+' else minus_sign)
          ∷ fmt_currency intl (amount (abs x)) currency 4
    ]

    -- A row of the table of recent bills: its cells, the change on the year before and the source.
    unfoldable pub bill_row :
        Text → List (MonthBucket F) → ParsedBill F → List Text × Option F × BillSource
    bill_row currency all_buckets bill =
        let period = month_text bill.period_end in
        (
          fmt_period intl period
              ∷ fmt_number intl (to_value bill.consumption) 1
              ∷ fmt_currency intl (to_value (effective_price bill)) currency 4
              ∷ fmt_currency intl (to_value (energy_charge bill)) currency 2
              ∷ fmt_currency intl (to_value bill.fixed_charges) currency 2
              ∷ fmt_currency intl (to_value bill.taxes) currency 2
              ∷ fmt_currency intl (amount bill.total) currency 2
              ∷ [],
          (yoy_delta all_buckets period (λ b. some b.cost)).pct,
          bill.source,
        )
