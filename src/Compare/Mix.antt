-- ===== src/Compare/Mix.antt =====
-- `buildMix`: every component of a month divided by the kWh it was spread over.
use energlens.Common.{Option, none, some, List, map, Text, codes, if◌then◌else◌, or_else}
use energlens.Number.{Number}
use energlens.Months.{MonthBucket}
use energlens.Axis.{Domain, zero_based_domain}
use energlens.Compare.{month_label}

pub record MixRow (F : Type 0) : Type 0 where
  -- `none` is `undefined`, for a month that is none of the twelve.
  pub x : Option Text
  pub energy : Option F
  pub standing : Option F
  pub tax : Option F

pub record Mix (F : Type 0) : Type 0 where
  pub rows : List (MixRow F)
  pub domain : Domain F
  pub note : Text

module _ {F : Type 0} ⦃n : Number F⦄ where
  open n use {lit, add, div, le}

  abbrev per_kwh : F → Option F → Option F
  per_kwh kwh none = none
  per_kwh kwh (some x) = some (div x kwh)

  abbrev empty_row : MonthBucket F → MixRow F
  empty_row b = record { x = month_label b.month; energy = none; standing = none; tax = none }

  unfoldable pub mix_row : MonthBucket F → MixRow F
  mix_row b = elim b.kwh [
    | none ↦ empty_row b
    | some kwh ↦ if le kwh (lit 0 0) then empty_row b else record {
      x = month_label b.month;
      energy = b.unit_price;
      standing = per_kwh kwh b.fixed;
      tax = per_kwh kwh b.taxes;
    }
  ]

  unfoldable pub row_total : MixRow F → Option F
  row_total r = elim r.energy [
    | none ↦ none
    | some energy ↦ some (add (add energy (or_else r.standing (lit 0 0))) (or_else r.tax (lit 0 0)))
  ]

  unfoldable pub build_mix : List (MonthBucket F) → Mix F
  build_mix buckets =
      let rows = map mix_row buckets in
      record {
        rows = rows;
        domain = zero_based_domain (map row_total rows) (lit 4 0);
        note =
            codes
              "Every component divided by the kWh it was spread over. The standing-charge band swells in light months, which is why cutting consumption raises your headline price per unit.";
      }
