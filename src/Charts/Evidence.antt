-- ===== src/Charts/Evidence.antt =====
-- frontend/src/components/charts/RateEvidence.tsx: the points of the bills and the two curves that the
-- tariff implies. The loop of a curve takes fuel, and `none` means that the fuel ran out.
use energlens.Common.{
  ℕ, zero, suc, ◌+◌, ◌-◌, ◌==◌, ◌<◌, ◌≡◌, refl, arith, true, false, ◌&&◌, Option, none, some, List,
  [], ◌∷◌, ◌++◌, map, map_from, filter_map, filter_by, Text, if◌then◌else◌, length,
}
use energlens.Number.{Number}
use energlens.Axis.{Domain, zero_based_domain, padded_domain, max_of, min_of}
use energlens.Bills.{ParsedBill, effective_price}
use energlens.Compare.{ChartTokens}
use energlens.Compare.Modes.{alpha}
use energlens.Metrics.Tariff.{TariffShape}

-- A point of the scatter.
pub record ScatterPoint (F : Type 0) : Type 0 where
  pub kwh : F
  pub eff : F
  pub fill : Text
  pub r : F

pub record CurvePoint (F : Type 0) : Type 0 where
  pub kwh : F
  pub model : F

module _ {F : Type 0} ⦃n : Number F⦄ where
  open n use {lit, add, sub, mul, div, floor, ceil, le, to_text}

  -- `0.22 + (i / Math.max(1, bills.length - 1)) * 0.78`
  unfoldable pub dot_alpha : ℕ → ℕ → F
  dot_alpha count i =
      add (lit 22 2) (mul (div (lit i 0) (max_of (lit 1 0) (lit (count - 1) 0 ∷ []))) (lit 78 2))

  unfoldable pub dot_of : ChartTokens → ℕ → ℕ → ParsedBill F → Option (ScatterPoint F)
  dot_of tokens count i bill = pair (effective_price bill) bill.consumption
    where
      pair : Option F → Option F → Option (ScatterPoint F)
      pair (some eff) (some kwh) = some (record {
        kwh = kwh;
        eff = eff;
        fill = alpha tokens.acc_rgb (to_text (dot_alpha count i));
        r = if i + 1 == count then lit 5 0 else lit 4 0;
      })
      pair _ _ = none

  -- `points`
  unfoldable pub dots : ChartTokens → List (ParsedBill F) → List (ScatterPoint F)
  dots tokens bills = filter_map (λ o. o) (map_from 0 (dot_of tokens (length bills)) bills)

  -- `kMin` and `kMax`; with no points these are the infinities of an empty `Math.min`.
  unfoldable pub k_range : F → F → List (ScatterPoint F) → F × F
  k_range infinity neg_infinity points = (
    max_of (lit 0 0) (mul (min_of infinity (map (λ p. p.kwh) points)) (lit 9 1) ∷ []),
    mul (max_of neg_infinity (map (λ p. p.kwh) points)) (lit 106 2),
  )

  -- `(1 + taxRate) * (price + fixedPerBill / k)`
  unfoldable pub model_at : F → F → F → F → CurvePoint F
  model_at tax_rate price fixed k = record {
    kwh = k;
    model = mul (add (lit 1 0) tax_rate) (add price (div fixed k));
  }

  -- `for (let k = …; k <= kMax; k += step) out.push(…)`
  unfoldable pub curve_loop : (F → CurvePoint F) → F → F → ℕ → F → Option (List (CurvePoint F))
  curve_loop point step k_max zero k = none
  curve_loop point step k_max (suc fuel) k =
      let rest = curve_loop point step k_max fuel (add k step) in
      if le k k_max then (elim rest [ none ↦ none | some out ↦ some (point k ∷ out) ]) else some []

  -- `curveFor(price)`
  unfoldable pub curve_for : ℕ → TariffShape F → F × F → Option F → Option (List (CurvePoint F))
  curve_for fuel tariff (k_min, k_max) price = curve price tariff.fixed_per_bill tariff.tax_rate
    where
      curve : Option F → Option F → Option F → Option (List (CurvePoint F))
      curve (some p) (some fixed) (some tax_rate) =
          let step = max_of (lit 1 0) (div (sub k_max k_min) (lit 40 0) ∷ []) in
          curve_loop (model_at tax_rate p fixed) step k_max fuel (add k_min step)
      curve _ _ _ = some []

  -- The vertical domain: the points and both curves.
  unfoldable pub y_domain :
      List (ScatterPoint F) → List (CurvePoint F) → List (CurvePoint F) → Domain F
  y_domain points old_curve new_curve =
      padded_domain
        (map (λ p. some p.eff) points
          ++ map (λ c. some c.model) old_curve
          ++ map (λ c. some c.model) new_curve)
        (lit 3 0) (lit 15 3)

  -- The horizontal ticks that are drawn, and the domain of that axis.
  unfoldable pub x_axis : List (ScatterPoint F) → F × F → List F × F × F
  x_axis points (k_min, k_max) = (
    filter_by (λ t. le k_min t && le t k_max)
        (zero_based_domain (map (λ p. some p.kwh) points) (lit 4 0)).ticks,
    floor k_min,
    ceil k_max,
  )

  -- `k`, `k + step`, … : the first `count` values of the loop's variable, and the one after them
  abbrev pub steps_from : F → ℕ → F → List F
  steps_from step zero k = []
  steps_from step (suc count) k = k ∷ steps_from step count (add k step)

  abbrev pub after_steps : F → ℕ → F → F
  after_steps step zero k = k
  after_steps step (suc count) k = after_steps step count (add k step)

  abbrev pub AllUpTo : F → List F → Type 0
  AllUpTo k_max [] = Unit
  AllUpTo k_max (k ∷ ks) = (le k k_max ≡ true) × AllUpTo k_max ks

  -- If the loop's variable stays up to the end of the range for some count of steps and is past it after
  -- them, then with more fuel than these steps the curve is returned, and it has exactly the points
  -- of the model at these steps, in their order.
  pub curve_loop-steps :
      (point : F → CurvePoint F) (step k_max : F) (count fuel : ℕ) (k : F)
      → AllUpTo k_max (steps_from step count k)
      → le (after_steps step count k) k_max ≡ false
      → count < fuel
      → curve_loop point step k_max fuel k ≡ some (map point (steps_from step count k))
  unfolding curve_loop
  curve_loop-steps point step k_max count zero k ups past h = absurd (omega arith)
  curve_loop-steps point step k_max zero (suc fuel) k ups past h = rw past refl
  curve_loop-steps point step k_max (suc count) (suc fuel) k (up, ups) past h =
      let later =
        curve_loop-steps point step k_max count fuel (add k step) ups past (omega arith) in
      rw (up, later) refl
