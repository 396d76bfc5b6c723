-- ===== src/Pages/BillDetail.antt =====
-- frontend/src/pages/BillDetailPage.tsx: one bill beside the run of the others. `to_fixed` is the language's.
pub mod Month
use mathlib.Core.Option
use energlens.Common.{
  ℕ, ◌≡◌, Bool, true, false, not, ◌&&◌, ◌||◌, Option, none, some, List, [], ◌∷◌, ◌++◌, map, any,
  find, Text, codes, text_eq, if◌then◌else◌, length, is_some, take, drop, or_else,
}
use energlens.Common.Int.{ℤ}
use energlens.Number.{Number}
use energlens.Format.{Intl, amount, dash, fmt_currency, fmt_number, fmt_period, fmt_date}
use energlens.Calendar.{Zone}
use energlens.Axis.{Domain, zero_based_domain, max_of}
use energlens.Bills.{ParsedBill, effective_price, energy_charge}
use energlens.Client.{Thrown}
use energlens.Compare.{ChartTokens}
use energlens.Metrics.Comparisons.{BillComparison, BillComparisons}
use energlens.Metrics.Headline.{to_value}
use energlens.Pages.Periods.{month_text, year_ago_text, utc_day_text}

-- `s.includes(t)`
abbrev contains : Text → Text → Bool
contains [] t = text_eq t []
contains (c ∷ s) t = text_eq (take (length t) (c ∷ s)) t || contains s t

pub data DetailView (F : Type 0) : Type 0 where
  failed : Thrown → DetailView F
  skeleton missing : DetailView F
  shown : ParsedBill F → DetailView F

pub record Part (F : Type 0) : Type 0 where
  pub label : Text
  pub value : F
  pub color : Text

pub record RunRow (F : Type 0) : Type 0 where
  pub id : Text
  pub period : Text
  pub total : F

module _ {F : Type 0} ⦃n : Number F⦄ where
  open n use {lit, add, abs, lt, le}

  unfoldable pub period_of : ParsedBill F → Text
  period_of bill = month_text bill.period_end

  -- The branches of the page, in their order.
  unfoldable pub detail_view : Option Thrown → Bool → List (ParsedBill F) → Text → DetailView F
  detail_view (some e) is_pending parsed bill_id = failed e
  detail_view none true parsed bill_id = skeleton
  detail_view none false parsed bill_id = elim (find (λ b. text_eq b.id bill_id) parsed) [
    | none ↦ missing
    | some bill ↦ shown bill
  ]

  unfoldable pub subtotal : ParsedBill F → Option F
  subtotal bill = sum (energy_charge bill) bill.fixed_charges
    where
      sum : Option F → Option F → Option F
      sum (some energy) (some fixed) = some (add energy fixed)
      sum _ _ = none

  -- `composition`: all three parts, or nothing
  unfoldable pub parts : ChartTokens → ParsedBill F → Option (List (Part F))
  parts tokens bill = three (energy_charge bill) bill.fixed_charges bill.taxes
    where
      three : Option F → Option F → Option F → Option (List (Part F))
      three (some energy) (some fixed) (some taxes) = some (
          record { label = codes "Energy"; value = energy; color = tokens.acc }
          ∷ record { label = codes "Fixed"; value = fixed; color = tokens.amber }
          ∷ record { label = codes "Taxes"; value = taxes; color = tokens.barfill }
          ∷ [])
      three _ _ _ = none

  -- The width of a part in the bar: `Math.max(0, part.value)`.
  unfoldable pub part_flex : Part F → F
  part_flex part = max_of (lit 0 0) (part.value ∷ [])

  unfoldable pub run_rows : List (ParsedBill F) → List (RunRow F)
  run_rows parsed = map (λ b. record { id = b.id; period = period_of b; total = b.total }) parsed

  unfoldable pub year_ago_period : ParsedBill F → Text
  year_ago_period bill = year_ago_text bill.period_end

  unfoldable pub has_year_ago : ParsedBill F → List (RunRow F) → Bool
  has_year_ago bill rows = any (λ r. text_eq r.period (year_ago_period bill)) rows

  unfoldable pub run_domain : List (RunRow F) → Domain F
  run_domain rows = zero_based_domain (map (λ r. some r.total) rows) (lit 3 0)

  -- The fill of a bar of the run.
  unfoldable pub run_fill : ChartTokens → ParsedBill F → RunRow F → Text
  run_fill tokens bill row =
      if text_eq row.id bill.id
      then tokens.acc
      else if text_eq row.period (year_ago_period bill)
      then tokens.amber
      else tokens.barfill

  module _ (intl : Intl F) where
    -- `ComparisonCell`: nothing to compare with, or the change and what it is against
    unfoldable pub comparison_cell : Text → BillComparison F → Option (Option F × Text)
    comparison_cell currency c = elim c.against [
      | none ↦ none
      | some against ↦ some (
        c.delta.pct,
        codes "vs "
            ++ fmt_currency intl (to_value c.against_value) currency 4
            ++ codes " · "
            ++ (if contains against (codes "average") then against else fmt_period intl against),
      )
    ]

    -- The line of dates under the title; `days` is printed as it is.
    unfoldable pub span_text : Zone → ParsedBill F → Text
    span_text z bill =
        fmt_date intl (utc_day_text z bill.period_start)
        ++ codes " – "
        ++ fmt_date intl (utc_day_text z bill.period_end)

    -- The derivation beside "Energy".
    unfoldable pub derivation : Text → ParsedBill F → Option Text
    derivation currency bill = product bill.consumption bill.unit_price
      where
        product : Option F → Option F → Option Text
        product (some kwh) (some price) = some (
            fmt_number intl (amount kwh) 1
            ++ codes " kWh × "
            ++ fmt_currency intl (amount price) currency 4)
        product _ _ = none

    -- The line items, the unknown ones as a dash.
    unfoldable pub line_items : Text → ParsedBill F → List (Text × Text)
    line_items currency bill =
        (codes "Energy", fmt_currency intl (to_value (energy_charge bill)) currency 2)
        ∷ (codes "Fixed charges", fmt_currency intl (to_value bill.fixed_charges) currency 2)
        ∷ (codes "Subtotal", fmt_currency intl (to_value (subtotal bill)) currency 2)
        ∷ (codes "Taxes", fmt_currency intl (to_value bill.taxes) currency 2)
        ∷ (codes "Total", fmt_currency intl (amount bill.total) currency 2)
        ∷ []

    -- `x !== null && Math.abs(x) >= 5`
    abbrev moved : Option F → Option F
    moved none = none
    moved (some x) = if le (lit 5 0) (abs x) then some x else none

    -- `reading`
    unfoldable pub reading : (ℕ → F → Text) → BillComparisons F → Option F → Text → Text
    reading to_fixed comparisons none currency =
        codes
          "Without a consumption figure this bill cannot be compared on price — add the kWh and the comparisons above fill in."
    reading to_fixed comparisons (some effective) currency =
        codes "At "
        ++ fmt_currency intl (amount effective) currency 4
        ++ (if not (is_some yoy) && not (is_some average)
            then codes
                " per kWh, this is the start of the record — later bills get measured against it."
            else story (moved yoy) (moved average))
      where
        yoy : Option F
        yoy = comparisons.same_month_last_year.delta.pct

        average : Option F
        average = comparisons.twelve_month_average.delta.pct

        story : Option F → Option F → Text
        story (some x) _ =
            codes " per kWh, this month cost "
            ++ to_fixed 1 (abs x)
            ++ codes "% "
            ++ (if lt (lit 0 0) x then codes "more" else codes "less")
            ++ codes
                " per unit than the same month a year ago — a like-for-like comparison, since the season is the same."
        story none (some x) =
            codes " per kWh, this month is "
            ++ to_fixed 1 (abs x)
            ++ codes "% "
            ++ (if lt (lit 0 0) x then codes "above" else codes "below")
            ++ codes " the twelve months before it."
        story none none = codes " per kWh, this month is in line with what came before it."
