-- ===== src/Examples/Outlook.antt =====
-- A run of the theorem on the forecast: three months of 2023, three of 2024, and the months after them.
use energlens.Common.{
  ℕ, ◌≤◌, ◌≡◌, refl, none, List, [], ◌∷◌, length, get_elem?, ltb, if◌then◌else◌, map, of_ℕ, arith,
  inl,
}
use energlens.Number.Fixed.{Fixed, fixed}
use energlens.Calendar.{period_key, next_month}
use energlens.Months.{MonthBucket}
use energlens.Metrics.Trends.{forecast, forecast_of, forecast_loop, emit, drift_of}
use energlens.Metrics.Windows.{key_of_year_before}
use energlens.Metrics.Outlook.{outlook_at}
use energlens.Metrics.Forecast.{IsWindow, get_elem?-forecast}
use energlens.Examples.Figures.{bucket}

-- The month of 2023.
abbrev year_before : ℕ → ℕ → MonthBucket Fixed
year_before m cents = record (bucket m cents) { period = period_key 2023 m; year = 2023 }

abbrev priced : List (MonthBucket Fixed)
priced =
    year_before 4 70
    ∷ year_before 5 71
    ∷ year_before 6 72
    ∷ bucket 1 83
    ∷ bucket 2 80
    ∷ bucket 3 90
    ∷ []

priced-IsWindow :
    IsWindow priced
      (year_before 4 70 ∷ year_before 5 71 ∷ [])
      (year_before 6 72)
      (bucket 1 83)
      (bucket 2 80 ∷ bucket 3 90 ∷ [])
priced-IsWindow = record { split = refl; at_most = omega arith; no_more = inl refl }

abbrev drift : Fixed
drift = fixed.div (fixed.sub (fixed.lit 90 2) (fixed.lit 72 2)) (fixed.lit 3 0)

get_elem?-forecast_example :
    (get_elem? (forecast priced 4) 1 ≡ (
      if ltb 1 4
      then outlook_at priced drift (next_month (2024, 3)) (fixed.add (fixed.lit 90 2) drift) 1
      else none))
    × (length (forecast priced 4) ≤ 4)
get_elem?-forecast_example =
    get_elem?-forecast priced (year_before 4 70 ∷ year_before 5 71 ∷ []) (year_before 6 72)
      (bucket 1 83) (bucket 2 80 ∷ bucket 3 90 ∷ []) 4 1 priced-IsWindow

-- The forecast of the run has three points: July 2023 is not there.
forecast_run :
    map (λ p. p.period) (forecast priced 4)
    ≡ period_key 2024 4 ∷ period_key 2024 5 ∷ period_key 2024 6 ∷ []
unfolding forecast forecast_of forecast_loop emit drift_of next_month key_of_year_before period_key
    of_ℕ
forecast_run = refl
