-- ===== src/Charts.antt =====
-- The data behind the charts: frontend/src/components/charts/fill.ts and chartStatus.ts. A `for`
-- over months takes fuel, and `none` means that the fuel ran out.
pub mod Order
pub mod Tooltips
pub mod Evidence
pub mod Panels
use energlens.Common.{
  ℕ, zero, suc, ◌+◌, ◌≡◌, refl, Bool, true, false, not, Option, none, some, List, [], ◌∷◌, ◌++◌,
  map, Text, codes, text_eq, text_lt, of_ℕ, pad_zeros, if◌then◌else◌, ltb, ◌==◌, last_of, filter_by,
  length, or_else,
}
use energlens.Common.Sort.{sort}
use energlens.Calendar.{period_parts}
use energlens.Api.{SeriesPoint, CompareSeries}

pub data ChartStatus : Type 0 where
  pending error empty ready : ChartStatus

unfoldable pub chart_status : Bool → Bool → Bool → ChartStatus
chart_status is_error is_pending has_data =
    if is_error then error else if is_pending then pending else if has_data then ready else empty

-- `nextMonth(period)`; a period whose fields are not numbers has none.
unfoldable pub month_after : Option (ℕ × ℕ) → Option Text
month_after none = none
month_after (some (year, month)) = some (
    if month == 12
    then of_ℕ (year + 1) ++ codes "-01"
    else of_ℕ year ++ (b'-' ∷ pad_zeros 2 (of_ℕ (month + 1))))

unfoldable pub next_period : Text → Option Text
next_period period = month_after (period_parts period)

-- `for (let m = first; m <= last; m = nextMonth(m))`: the periods that it visits
unfoldable pub periods_to : Text → ℕ → Text → Option (List Text)
periods_to last zero m = none
periods_to last (suc fuel) m =
    let next : Option (List Text) = elim (next_period m) [
      | none ↦ some []
      | some m' ↦ periods_to last fuel m'
    ] in
    if text_lt last m then some [] else elim next [ none ↦ none | some later ↦ some (m ∷ later) ]

abbrev head_or_empty : List Text → Text
head_or_empty [] = []
head_or_empty (s ∷ ss) = s

abbrev last_or_empty : List Text → Text
last_or_empty [] = []
last_or_empty (s ∷ ss) = last_of s ss

-- A row: its period, and a cell for the place of each series.
abbrev pub CompareRow : Type 0 → Type 0
CompareRow F = Text × List (Text × Option F)

module _ {F : Type 0} where
  -- `byPeriod.get(m) ?? null`
  unfoldable pub point_at : Text → List (SeriesPoint F) → Option F
  point_at m [] = none
  point_at m (p ∷ ps) = elim (point_at m ps) [
    | some later ↦ some later
    | none ↦ if text_eq p.period m then some p.value else none
  ]

  unfoldable pub month_rows : ℕ → List (SeriesPoint F) → Option (List (Text × Option F))
  month_rows fuel [] = some []
  month_rows fuel (p ∷ ps) = elim (periods_to (last_of p ps).period fuel p.period) [
    | none ↦ none
    | some periods ↦ some (map (λ m. (m, point_at m (p ∷ ps))) periods)
  ]

  abbrev first_period : CompareSeries F → Text
  first_period s = elim s.points [ [] ↦ [] | p ∷ ps ↦ p.period ]

  abbrev last_period : CompareSeries F → Text
  last_period s = elim s.points [ [] ↦ [] | p ∷ ps ↦ (last_of p ps).period ]

  abbrev rows_over : List (CompareSeries F) → List Text → List (CompareRow F)
  rows_over with_data periods =
      map (λ m. (m, map (λ s. (s.place_id, point_at m s.points)) with_data)) periods

  unfoldable pub compare_rows : ℕ → List (CompareSeries F) → Option (List (CompareRow F))
  compare_rows fuel series =
      let with_data = filter_by (λ s. ltb 0 (length s.points)) series in
      let first = head_or_empty (sort text_lt (map first_period with_data)) in
      let last = last_or_empty (sort text_lt (map last_period with_data)) in
      if length with_data == 0 then some [] else elim (periods_to last fuel first) [
        | none ↦ none
        | some periods ↦ some (rows_over with_data periods)
      ]
