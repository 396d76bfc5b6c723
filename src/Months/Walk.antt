-- ===== src/Months/Walk.antt =====
-- The month counter of `monthlyBuckets`: the loop ends with the fuel that it is given, and runs
-- its body once for each month from the first to the last.
use energlens.Common.{
  ℕ, zero, suc, ◌+◌, ◌-◌, ◌*◌, ◌≤◌, ◌<◌, ◌≡◌, refl, ap, some, List, [], ◌∷◌, foldl, arith, length,
  Bool-cases, ltb, leb, ◌==◌, ◌&&◌, ◌||◌, inl, inr,
}
use energlens.Calendar.{next_month}
use energlens.Months.{month_loop, loop_fuel}

-- Twelve to a year.
abbrev pub month_index : ℕ × ℕ → ℕ
month_index (y, m) = 12 * y + m

abbrev pub InYear : ℕ × ℕ → Type 0
InYear (y, m) = (1 ≤ m) × (m ≤ 12)

-- k months, one after the other.
unfoldable pub months_from : ℕ → ℕ × ℕ → List (ℕ × ℕ)
months_from zero at = []
months_from (suc k) at = at ∷ months_from k (next_month at)

unfoldable pub advance : ℕ → ℕ × ℕ → ℕ × ℕ
advance zero at = at
advance (suc k) at = advance k (next_month at)

pub next_month_index :
    (at : ℕ × ℕ)
    → InYear at
    → InYear (next_month at) × (month_index (next_month at) ≡ month_index at + 1)
unfolding next_month
next_month_index (y, m) v = ground arith

pub advance_index :
    (k : ℕ) (at : ℕ × ℕ)
    → InYear at
    → InYear (advance k at) × (month_index (advance k at) ≡ month_index at + k)
unfolding advance
advance_index zero at v = (v, omega arith)
advance_index (suc k) at v =
    let (v', e) = next_month_index at v in
    let (w, f) = advance_index k (next_month at) v' in (w, omega arith)

pub month_index_inj : (a b : ℕ × ℕ) → InYear a → InYear b → month_index a ≡ month_index b → a ≡ b
month_index_inj (y, m) (y', m') v w e = ground arith

pub length-months_from : (k : ℕ) (at : ℕ × ℕ) → length (months_from k at) ≡ k
unfolding months_from
length-months_from zero at = refl
length-months_from (suc k) at = ap suc (length-months_from k (next_month at))

-- The rounds that the loop makes.
abbrev pub rounds : ℕ × ℕ → ℕ × ℕ → ℕ
rounds at end = month_index end + 1 - month_index at

module _ {ℓ} {S : Type ℓ} (body : ℕ × ℕ → S → S) where
  month_loop-rounds :
      (end : ℕ × ℕ) (k fuel : ℕ) (at : ℕ × ℕ) (s : S)
      → InYear end
      → InYear at
      → k ≡ rounds at end
      → k < fuel
      → month_loop body end fuel at s ≡ some (foldl (λ t m. body m t) s (months_from k at))
  unfolding month_loop months_from
  month_loop-rounds (ey, em) k zero at s w v e h = absurd (omega arith)
  month_loop-rounds (ey, em) zero (suc fuel) (y, m) s w v e h = ground arith
  month_loop-rounds (ey, em) (suc k) (suc fuel) (y, m) s w v e h =
      let (v', e') = next_month_index (y, m) v in
      let rest =
        month_loop-rounds (ey, em) k fuel (next_month (y, m)) (body (y, m) s) w v' (omega arith)
          (omega arith) in
      elim (Bool-cases (ltb y ey || (y == ey && leb m em))) [
        | inl t ↦ rw t rest
        | inr t ↦ absurd (ground arith)
      ]

  -- With the fuel that `monthlyBuckets` gives it, the loop ends, and its body has run once for each
  -- month from the first to the last, in order.
  pub month_loop-eq :
      (end at : ℕ × ℕ) (s : S)
      → InYear end
      → InYear at
      → month_loop body end (loop_fuel at end) at s
        ≡ some (foldl (λ t m. body m t) s (months_from (rounds at end) at))
  unfolding loop_fuel
  month_loop-eq end at s w v =
      month_loop-rounds end (rounds at end) (loop_fuel at end) at s w v refl (omega arith)
