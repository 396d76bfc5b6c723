-- ===== src/Examples/Figures.antt =====
-- Runs of the theorems on the bills, the figures of the dashboard and the axes.
use energlens.Common.{
  ℕ, ◌-◌, ◌*◌, ◌≡◌, ◌&&◌, not, refl, false, none, some, List, [], ◌∷◌, ◌++◌, All, Text, codes, map,
  ◌==◌, length, min, ltb, filter_by, is_some, text_eq, of_ℕ, arith,
}
use mathlib.Core.List.{Perm}
use energlens.Number.Fixed.{Fixed, fixed, fixed-IsOrdered}
use energlens.Calendar.{date, period_key}
use energlens.Api.{Bill, manual, electricity, invoice}
use energlens.Bills.{parse_bill, parse_bills}
use energlens.Bills.Order.{start_day, IsOldestFirst, parse_bills-IsSorted}
use energlens.Months.{MonthBucket}
use energlens.Metrics.Windows.{
  trailing_comparison, window_totals, delta, trailing_comparison-windows,
}
use energlens.Metrics.Composition.{Item}
use energlens.Common.{none}
use energlens.Format.{Intl}
use energlens.Metrics.Comparisons.{cheapest_other, cheapest_other-least, price}
use energlens.Examples.{summer_zone, summer_zone-IsSteady}

abbrev pub paper : Text → ℕ → Bill
paper id month = record {
  id = id;
  place_id = codes "p";
  utility_type = electricity;
  period_start = date 2024 month 1;
  period_end = date 2024 month 28;
  consumption = some (codes "120");
  unit = codes "kWh";
  unit_price = none;
  fixed_charges = none;
  taxes = none;
  total_amount = codes "100";
  currency_code = codes "RON";
  provider_name = none;
  raw_file_ref = none;
  source = manual;
  notes = none;
  provider_invoice_series = none;
  provider_invoice_number = none;
  issued_on = none;
  due_on = none;
  net_amount = none;
  vat_base = none;
  vat_rate = none;
  vat_amount = none;
  balance_brought_forward = none;
  total_due = none;
  read_method = none;
  document_type = invoice;
  corrects_bill_id = none;
  customer_code = none;
  provider_tax_id = none;
  document_id = none;
  created_at = [];
  updated_at = [];
}

abbrev papers : List Bill
papers = paper (codes "b") 5 ∷ paper (codes "a") 3 ∷ paper (codes "c") 5 ∷ []

parse_bills-IsSorted_example :
    Perm (parse_bills {F = Fixed} summer_zone papers) (map (parse_bill summer_zone) papers)
    × IsOldestFirst (parse_bills {F = Fixed} summer_zone papers)
    × ((day : ℕ)
        → filter_by (λ b. start_day b == day) (parse_bills {F = Fixed} summer_zone papers)
          ≡ filter_by (λ b. start_day b == day) (map (parse_bill summer_zone) papers))
parse_bills-IsSorted_example = parse_bills-IsSorted summer_zone summer_zone-IsSteady papers

abbrev pub bucket : ℕ → ℕ → MonthBucket Fixed
bucket m cents = record {
  period = period_key 2024 m;
  year = 2024;
  month = m;
  cost = fixed.lit 50 0;
  kwh = some (fixed.lit 60 0);
  effective = some (fixed.lit cents 2);
  unit_price = none;
  energy = none;
  fixed = none;
  taxes = none;
  per_day = fixed.lit 2 0;
  bill_ids = codes "b" ∷ [];
}

abbrev buckets : List (MonthBucket Fixed)
buckets = bucket 1 83 ∷ bucket 2 80 ∷ bucket 3 91 ∷ []

trailing_comparison-windows_example :
    (older : List (MonthBucket Fixed)) × (before : List (MonthBucket Fixed)) × (latest : List
      (MonthBucket Fixed))
    × (older ++ (before ++ latest) ≡ buckets)
    × (length latest ≡ min 2 (length buckets))
    × (length before ≡ min 2 (length buckets - 2))
    × ((trailing_comparison buckets 2).current ≡ window_totals latest)
    × ((trailing_comparison buckets 2).prior ≡ window_totals before)
    × ((trailing_comparison buckets 2).cost
        ≡ delta
            (some (trailing_comparison buckets 2).prior.cost)
            (some (trailing_comparison buckets 2).current.cost))
    × ((trailing_comparison buckets 2).kwh
        ≡ delta
            (trailing_comparison buckets 2).prior.kwh
            (trailing_comparison buckets 2).current.kwh)
    × ((trailing_comparison buckets 2).effective
        ≡ delta
            (trailing_comparison buckets 2).prior.effective
            (trailing_comparison buckets 2).current.effective)
    × ((trailing_comparison buckets 2).partial ≡ ltb (length buckets) (2 * 2))
trailing_comparison-windows_example = trailing_comparison-windows buckets 2 (omega arith)

abbrev items : List (Item Fixed)
items =
    record {
      energy = some (fixed.lit 60 0);
      fixed = some (fixed.lit 20 0);
      taxes = none;
      total = fixed.lit 90 0;
    }
    ∷ []

cheapest_other-least_example :
    All
      (λ b. fixed.lt (price b) (price (bucket 2 80)) ≡ false)
      (filter_by (λ b. is_some b.effective && not (text_eq b.period (period_key 2024 3))) buckets)
unfolding cheapest_other period_key of_ℕ
cheapest_other-least_example =
    cheapest_other-least fixed-IsOrdered buckets (period_key 2024 3) (bucket 2 80) refl

abbrev pub silent_intl : Intl Fixed
silent_intl = record {
  currency = λ code digits x. codes "1";
  decimal = λ digits x. codes "1";
  month_year = λ y m. [];
  month_short_year = λ y m. [];
  month_only = λ m. [];
  day_month_year = λ s. s;
  day_month = λ s. s;
}
