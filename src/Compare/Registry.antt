-- ===== src/Compare/Registry.antt =====
-- The registry `METRICS`.
use energlens.Common.{ℕ, true, false, Option, some, List, [], ◌∷◌, ◌++◌, Text, codes}
use energlens.Number.{Number}
use energlens.Format.{Intl, amount, fmt_currency, fmt_number}
use energlens.Months.{MonthBucket}
use energlens.Compare.{
  MetricId, total, kwh, eff, price, energy, taxes, per_day, mix, AxisKind, zero_axis, padded_axis,
  MetricDescriptor,
}

module _ {F : Type 0} ⦃n : Number F⦄ (intl : Intl F) where
  abbrev money : ℕ → F → Text → Text
  money digits v currency = fmt_currency intl (amount v) currency digits

  abbrev plain : ℕ → F → Text → Text
  plain digits v currency = fmt_number intl (amount v) digits

  abbrev metric :
      MetricId
      → Text
      → Text
      → (MonthBucket F → Option F)
      → AxisKind
      → (F → Text → Text)
      → (F → Text → Text)
      → (F → Text → Text)
      → MetricDescriptor F
  metric i l s f a full big tick = record {
    id = i;
    label = l;
    short = s;
    select = f;
    axis = a;
    full = full;
    big = big;
    tick = tick;
    is_mix_view = false;
  }

  unfoldable pub metrics : List (MetricDescriptor F)
  metrics =
      metric total (codes "Total cost") (codes "COST") (λ b. some b.cost) zero_axis (money 2)
        (money 0) (money 0)
      ∷ metric kwh (codes "Consumption") (codes "kWh") (λ b. b.kwh) zero_axis
          (λ v c. plain 1 v c ++ codes " kWh") (plain 0) (plain 0)
      ∷ metric eff (codes "All-in price") (codes "€/kWh") (λ b. b.effective) padded_axis (money 4)
          (money 4) (money 2)
      ∷ metric price (codes "Contract price") (codes "UNIT") (λ b. b.unit_price) padded_axis
          (money 4) (money 4) (money 2)
      ∷ metric energy (codes "Energy charge") (codes "ENERGY") (λ b. b.energy) zero_axis (money 2)
          (money 0) (money 0)
      ∷ metric taxes (codes "Taxes") (codes "TAX") (λ b. b.taxes) zero_axis (money 2) (money 0)
          (money 0)
      ∷ metric per_day (codes "Cost per day") (codes "€/DAY") (λ b. some b.per_day) zero_axis
          (money 2) (money 2) (money 1)
      ∷ record (metric mix (codes "Bill composition") (codes "MIX") (λ b. some b.cost) zero_axis
          (money 2) (money 2) (money 2)) { is_mix_view = true }
      ∷ []
