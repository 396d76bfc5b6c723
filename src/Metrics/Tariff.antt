-- ===== src/Metrics/Tariff.antt =====
-- `median` and `tariffShape`.
use energlens.Common.{
  ℕ, ◌-◌, ◌/◌, ◌%◌, Bool, Option, none, some, List, if◌then◌else◌, ◌==◌, or_else, length,
  filter_map, get_elem?,
}
use energlens.Common.Sort.{sort}
use energlens.Number.{Number}
use energlens.Bills.{ParsedBill, energy_charge}
use energlens.Metrics.Trends.{contract_rate_change}

pub record TariffShape (F : Type 0) : Type 0 where
  pub fixed_per_bill : Option F
  pub tax_rate : Option F
  pub first_unit_price : Option F
  pub latest_unit_price : Option F

module _ {F : Type 0} ⦃n : Number F⦄ where
  open n use {lit, add, sub, div, lt}

  -- The comparator `(a, b) => a - b`, as what comes strictly first.
  abbrev pub smaller : F → F → Bool
  smaller a b = lt (sub a b) (lit 0 0)

  -- `sorted[i]`
  abbrev pub item : List F → ℕ → F
  item xs i = or_else (get_elem? xs i) (lit 0 0)

  unfoldable pub median : List F → Option F
  median values =
      let sorted = sort smaller values in
      let mid = length sorted / 2 in
      if length values == 0
      then none
      else if length sorted % 2 == 0
      then some (div (add (item sorted (mid - 1)) (item sorted mid)) (lit 2 0))
      else some (item sorted mid)

  -- The tax rate of one bill, if the loop does not `continue`.
  unfoldable pub tax_rate_of : ParsedBill F → Option F
  tax_rate_of bill = rate bill.taxes (energy_charge bill) bill.fixed_charges
    where
      rate : Option F → Option F → Option F → Option F
      rate (some taxes) (some energy) (some fixed) =
          let base = add energy fixed in if lt (lit 0 0) base then some (div taxes base) else none
      rate _ _ _ = none

  unfoldable pub tariff_shape : List (ParsedBill F) → TariffShape F
  tariff_shape bills =
      let rate = contract_rate_change bills in
      record {
        fixed_per_bill = median (filter_map (λ b. b.fixed_charges) bills);
        tax_rate = median (filter_map tax_rate_of bills);
        first_unit_price = rate.first;
        latest_unit_price = rate.latest;
      }
