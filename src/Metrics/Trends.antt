-- ===== src/Metrics/Trends.antt =====
-- `indexToFirst`, `contractRateChange`, `cumulativeExcess` and `forecast`.
use energlens.Common.{
  ℕ, zero, suc, ◌≡◌, refl, ap, Bool, false, not, Option, none, some, List, [], ◌∷◌, Text, text_eq,
  if◌then◌else◌, ltb, or_else, is_some, length, filter_by, find, last_n, last_of, map,
}
use energlens.Common.{true, false, ◌∙◌}
use energlens.Number.{Number}
use energlens.Calendar.{period_key, next_month}
use energlens.Bills.{ParsedBill, pct_change, round}
use energlens.Months.{MonthBucket}
use energlens.Metrics.Windows.{key_of_year_before}

pub record ContractRateChange (F : Type 0) : Type 0 where
  pub first : Option F
  pub latest : Option F
  pub abs : Option F
  pub pct : Option F

-- A month's value; of a `ForecastPoint` too, whose `estimated` is always true.
pub record Point (F : Type 0) : Type 0 where
  pub period : Text
  pub value : F

module _ {F : Type 0} ⦃n : Number F⦄ where
  open n use {lit, add, sub, mul, div, eq}

  -- `v !== null && v !== 0`
  abbrev pub usable : Option F → Bool
  usable none = false
  usable (some v) = not (eq v (lit 0 0))

  abbrev scaled : F → Option F → Option F
  scaled base none = none
  scaled base (some v) = some (mul (div v base) (lit 100 0))

  unfoldable pub index_to_first : List (Option F) → List (Option F)
  index_to_first values = elim (find usable values) [
    | some (some base) ↦ map (scaled base) values
    | _ ↦ map (λ v. none) values
  ]

  unfoldable pub contract_rate_change : List (ParsedBill F) → ContractRateChange F
  contract_rate_change bills = elim (filter_by (λ b. is_some b.unit_price) bills) [
    | [] ↦ record { first = none; latest = none; abs = none; pct = none }
    | p ∷ ps ↦ ends p.unit_price (last_of p ps).unit_price
  ]
    where
      ends : Option F → Option F → ContractRateChange F
      ends (some first) (some latest) = record {
        first = some first;
        latest = some latest;
        abs = some (sub latest first);
        pct = pct_change first latest;
      }
      ends _ _ = record { first = none; latest = none; abs = none; pct = none }

  -- `running += (bucket.effective - baseline) * bucket.kwh`, if neither is null
  unfoldable pub excess : F → MonthBucket F → F → F
  excess baseline bucket running = plus bucket.effective bucket.kwh
    where
      plus : Option F → Option F → F
      plus (some price) (some kwh) = add running (mul (sub price baseline) kwh)
      plus _ _ = running

  unfoldable pub excess_loop : F → F → List (MonthBucket F) → List (Point F)
  excess_loop baseline running [] = []
  excess_loop baseline running (bucket ∷ buckets) =
      let after = excess baseline bucket running in
      record { period = bucket.period; value = round after 2 } ∷ excess_loop baseline after buckets

  unfoldable pub cumulative_excess : List (MonthBucket F) → List (Point F)
  cumulative_excess buckets = elim (find (λ b. is_some b.effective) buckets) [
    | none ↦ []
    | some first ↦ elim first.effective [
      | none ↦ []
      | some baseline ↦ excess_loop baseline (lit 0 0) buckets
    ]
  ]

  -- `!lastYear || lastYear.kwh === null` is the case of `none`.
  abbrev pub kwh_of : Option (MonthBucket F) → Option F
  kwh_of none = none
  kwh_of (some last_year) = last_year.kwh

  -- `break`, or the push and the rounds after it
  unfoldable pub emit : Option F → ℕ × ℕ → F → List (Point F) → List (Point F)
  emit none month price rest = []
  emit (some kwh) month price rest =
      record { period = period_key month.0 month.1; value = round (mul price kwh) 2 } ∷ rest

  -- The `for` of `forecast`: the month and price before the step.
  unfoldable pub forecast_loop : List (MonthBucket F) → F → ℕ → ℕ × ℕ → F → List (Point F)
  forecast_loop buckets drift zero at price = []
  forecast_loop buckets drift (suc count) at price =
      let month = next_month at in
      let price' = add price drift in
      let rest = forecast_loop buckets drift count month price' in
      let twin = find (λ b. text_eq b.period (key_of_year_before month.0 month.1)) buckets in
      emit (kwh_of twin) month price' rest

  abbrev pub price_of : MonthBucket F → F
  price_of b = or_else b.effective (lit 0 0)

  -- The drift per step over a window of priced months.
  unfoldable pub drift_of : List (MonthBucket F) → F
  drift_of [] = lit 0 0
  drift_of (b ∷ bs) =
      if ltb 0 (length bs)
      then div (sub (price_of (last_of b bs)) (price_of b)) (lit (length bs) 0)
      else lit 0 0

  unfoldable pub forecast_of : List (MonthBucket F) → List (MonthBucket F) → ℕ → List (Point F)
  forecast_of [] buckets count = []
  forecast_of (p ∷ []) buckets count = []
  forecast_of (p ∷ q ∷ qs) buckets count =
      let latest = last_of p (q ∷ qs) in
      forecast_loop buckets (drift_of (last_n 4 (p ∷ q ∷ qs))) count (latest.year, latest.month)
        (price_of latest)

  unfoldable pub forecast : List (MonthBucket F) → ℕ → List (Point F)
  forecast buckets count = forecast_of (filter_by (λ b. is_some b.effective) buckets) buckets count

module _ {F : Type 0} ⦃n : Number F⦄ where
  is_some-scaled :
      (base : F) (values : List (Option F))
      → map is_some (map (scaled base) values) ≡ map is_some values
  is_some-scaled base [] = refl
  is_some-scaled base (none ∷ values) = ap (λ bs. false ∷ bs) (is_some-scaled base values)
  is_some-scaled base (some v ∷ values) = ap (λ bs. true ∷ bs) (is_some-scaled base values)

  -- If some value is neither null nor zero, indexing keeps every null and makes none: the places of the
  -- nulls are the same before and after, also those before the first such value.
  pub index_to_first-nulls :
      (values : List (Option F)) (base : F)
      → find usable values ≡ some (some base)
      → map is_some (index_to_first values) ≡ map is_some values
  unfolding index_to_first
  index_to_first-nulls values base h =
      let indexed : index_to_first values ≡ map (scaled base) values =
        rw (h, index_to_first) refl in
      ap (map is_some) indexed ∙ is_some-scaled base values
