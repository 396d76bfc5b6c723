-- ===== src/Metrics/Outlook.antt =====
-- The points that the loop of `forecast` pushes, by their places.
use energlens.Common.{
  ℕ, zero, suc, ◌≤◌, ◌<◌, ◌≡◌, refl, Bool, true, ◌&&◌, Option, none, some, List, text_eq,
  if◌then◌else◌, is_some, length, find, get_elem?, arith,
}
use energlens.Number.{Number}
use energlens.Calendar.{period_key, next_month}
use energlens.Bills.{round}
use energlens.Months.{MonthBucket}
use energlens.Months.Walk.{advance}
use energlens.Metrics.Windows.{key_of_year_before}
use energlens.Metrics.Trends.{Point, kwh_of, emit, forecast_loop}

module _ {F : Type 0} ⦃n : Number F⦄ where
  -- The kWh of the same calendar month a year before.
  abbrev pub usage : List (MonthBucket F) → ℕ × ℕ → Option F
  usage buckets (y, m) = kwh_of (find (λ b. text_eq b.period (key_of_year_before y m)) buckets)

  -- Do k months, from one on, all have such a usage?
  abbrev pub all_known : List (MonthBucket F) → ℕ → ℕ × ℕ → Bool
  all_known buckets zero at = true
  all_known buckets (suc k) at = is_some (usage buckets at) && all_known buckets k (next_month at)

  -- A price after k more steps of a drift.
  abbrev pub rise : F → ℕ → F → F
  rise drift zero price = price
  rise drift (suc k) price = rise drift k (n.add price drift)

  abbrev point : ℕ × ℕ → F → Option F → Option (Point F)
  point at price none = none
  point at price (some kwh) =
      some (record { period = period_key at.0 at.1; value = round (n.mul price kwh) 2 })

  -- What stands at place i, where the place 0 is that of the month `at`: that price times last year's
  -- usage, unless the usage of the month or of one before it is not known.
  abbrev pub outlook_at : List (MonthBucket F) → F → ℕ × ℕ → F → ℕ → Option (Point F)
  outlook_at buckets drift at price i =
      if all_known buckets i at
      then point (advance i at) (rise drift i price) (usage buckets (advance i at))
      else none

  pub get_elem?-forecast_loop :
      (buckets : List (MonthBucket F)) (drift : F) (count i : ℕ) (at : ℕ × ℕ) (price : F)
      → i < count
      → get_elem? (forecast_loop buckets drift count at price) i
        ≡ outlook_at buckets drift (next_month at) (n.add price drift) i
  unfolding forecast_loop advance emit
  get_elem?-forecast_loop buckets drift zero i at price h = absurd (omega arith)
  get_elem?-forecast_loop buckets drift (suc count) i at price h =
      by_usage (usage buckets (next_month at)) i
        (λ j k. get_elem?-forecast_loop buckets drift count j (next_month at) (n.add price drift) k)
        refl h
    where
      by_usage :
          (kwh : Option F) (i : ℕ)
          → ((j : ℕ)
              → j < count
              → get_elem? (forecast_loop buckets drift count (next_month at) (n.add price drift)) j
                ≡ outlook_at buckets drift
                    (next_month (next_month at))
                    (n.add (n.add price drift) drift)
                    j)
          → usage buckets (next_month at) ≡ kwh
          → i < suc count
          → get_elem?
              (emit
                (usage buckets (next_month at))
                (next_month at)
                (n.add price drift)
                (forecast_loop buckets drift count (next_month at) (n.add price drift)))
              i
            ≡ outlook_at buckets drift (next_month at) (n.add price drift) i
      by_usage none zero later e h = rw e refl
      by_usage none (suc i) later e h = rw e refl
      by_usage (some kwh) zero later e h = rw e refl
      by_usage (some kwh) (suc i) later e h = rw e (later i (omega arith))

  pub length-forecast_loop :
      (buckets : List (MonthBucket F)) (drift : F) (count : ℕ) (at : ℕ × ℕ) (price : F)
      → length (forecast_loop buckets drift count at price) ≤ count
  unfolding forecast_loop emit
  length-forecast_loop buckets drift zero at price = omega arith
  length-forecast_loop buckets drift (suc count) at price =
      let rest = forecast_loop buckets drift count (next_month at) (n.add price drift) in
      let fits = length-forecast_loop buckets drift count (next_month at) (n.add price drift) in
      by_usage (usage buckets (next_month at)) rest fits
    where
      by_usage :
          (kwh : Option F) (rest : List (Point F))
          → length rest ≤ count
          → length (emit kwh (next_month at) (n.add price drift) rest) ≤ suc count
      by_usage none rest fits = omega arith
      by_usage (some kwh) rest fits = omega arith
