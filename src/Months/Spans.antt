-- ===== src/Months/Spans.antt =====
-- The first and the last day of a month, for months that follow each other.
use energlens.Common.{ℕ, zero, suc, ◌+◌, ◌-◌, ◌≤◌, ◌<◌, ◌≡◌, ap, arith, if◌then◌else◌, ltb}
use energlens.Common.Int.{pos, sub_ℕ}
use energlens.Calendar.{month_length, next_month}
use energlens.Calendar.Days.{first_day, first_day-next_month, month_length_pos}
use energlens.Months.Walk.{
  InYear, month_index, advance, next_month_index, advance_index, month_index_inj,
}

-- A month that `new Date` does not move to another century.
abbrev pub IsModern : ℕ × ℕ → Type 0
IsModern (y, m) = (100 ≤ y) × (1 ≤ m) × (m ≤ 12)

abbrev pub last_day : ℕ × ℕ → ℕ
last_day (y, m) = first_day (y, m) + month_length y m - 1

pub modern_year : (y : ℕ) → 100 ≤ y → (if ltb y 100 then 1900 + y else y) ≡ y
modern_year y h = ground arith

pub pos-sub : (a b : ℕ) → b ≤ a → pos (a - b) ≡ sub_ℕ a b
pos-sub a b h = ground arith

pub nonempty : (at : ℕ × ℕ) → first_day at ≤ last_day at
nonempty (y, m) = omega (arith, month_length_pos y m)

pub next_month-IsModern : (at : ℕ × ℕ) → IsModern at → IsModern (next_month at)
unfolding next_month
next_month-IsModern (y, m) v = ground arith

pub first_day-lt : (at : ℕ × ℕ) → IsModern at → first_day (next_month at) ≡ last_day at + 1
first_day-lt (y, m) v =
    omega (arith, first_day-next_month y m (omega arith) v.1 v.2, month_length_pos y m)

pub first_day-advance : (k : ℕ) (at : ℕ × ℕ) → IsModern at → first_day at ≤ first_day (advance k at)
unfolding advance
first_day-advance zero at v = omega arith
first_day-advance (suc k) (y, m) v = omega (
  arith,
  first_day-next_month y m (omega arith) v.1 v.2,
  first_day-advance k (next_month (y, m)) (next_month-IsModern (y, m) v),
)

-- A later month begins after an earlier one ends.
pub last_day-lt :
    (a b : ℕ × ℕ) → IsModern a → InYear b → month_index a < month_index b → last_day a < first_day b
unfolding advance
last_day-lt a b v w h =
    let k = month_index b - month_index a - 1 in
    let v' : IsModern (next_month a) = next_month-IsModern a v in
    let (in_year, e) = next_month_index a (v.1, v.2) in
    let (in_year', e') = advance_index k (next_month a) in_year in
    let same : advance k (next_month a) ≡ b = month_index_inj _ b in_year' w (omega arith) in
    omega (arith, first_day-lt a v, first_day-advance k (next_month a) v', ap first_day same)
