-- ===== src/Charts/Order.antt =====
-- `nextMonth` of fill.ts against the month counter of lib/metrics.ts.
use energlens.Common.{
  ℕ, ◌+◌, ◌≤◌, ◌<◌, ◌≡◌, ◌∙◌, ap, some, ◌==◌, of_ℕ, pad_zeros, codes, ◌++◌, ◌∷◌, arith, inl, inr,
  Bool-cases,
}
use energlens.Calendar.{period_key, next_month}
use energlens.Calendar.Keys.{period_parts-period_key, of_ℕ-four}
use energlens.Charts.{next_period, month_after}

month_after-eq :
    (y m : ℕ)
    → 1000 ≤ y
    → y < 9999
    → 1 ≤ m
    → m ≤ 12
    → month_after (some (y, m)) ≡ some (period_key (next_month (y, m)).0 (next_month (y, m)).1)
unfolding month_after next_month period_key of_ℕ
month_after-eq y m h k low high = elim (Bool-cases (m == 12)) [
  | inl e ↦ rw e (ap (λ s. some (s ++ codes "-01")) (of_ℕ-four (y + 1) (omega arith) (omega arith)))
  | inr e ↦ rw e (
      ap (λ s. some (s ++ (b'-' ∷ pad_zeros 2 (of_ℕ (m + 1)))))
        (of_ℕ-four y (omega arith) (omega arith)))
]

-- For a month of the years 1000 to 9998 the text that `nextMonth` builds is the key of the month after.
pub next_period-period_key :
    (y m : ℕ)
    → 1000 ≤ y
    → y < 9999
    → 1 ≤ m
    → m ≤ 12
    → next_period (period_key y m) ≡ some (period_key (next_month (y, m)).0 (next_month (y, m)).1)
unfolding next_period
next_period-period_key y m h k low high =
    ap month_after
      (period_parts-period_key y m (record { year_in = omega arith; month_in = (low, high) }))
    ∙ month_after-eq y m h k low high
