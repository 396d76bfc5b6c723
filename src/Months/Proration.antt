-- ===== src/Months/Proration.antt =====
-- How `monthlyBuckets` spreads the days of a bill: every day of its period goes to one month.
use native.Mathlib.Decide.{dec_lt}
use energlens.Common.{
  ℕ, zero, suc, ◌+◌, ◌-◌, ◌≤◌, ◌<◌, ◌≡◌, sym, ap, ◌∙◌, List, [], ◌∷◌, All, arith, min, max, inl,
  inr, ◌⊎◌,
}
use energlens.Common.Int.{pos, pos_part}
use energlens.Number.{Number}
use energlens.Calendar.{
  date, Zone, day_number, month_length, next_month, local_date, days_in_month, inclusive_days,
}
use energlens.Calendar.Days.{
  IsSteady, IsDate, common_days, overlap_days-eq, inclusive_days-eq, first_day, day_number-eq,
  month_length_pos,
}
use energlens.Bills.{ParsedBill}
use energlens.Months.{month_overlap}
use energlens.Months.Walk.{
  month_index, months_from, advance, next_month_index, advance_index, month_index_inj, rounds,
}
use energlens.Months.Spans.{
  IsModern, last_day, modern_year, pos-sub, nonempty, next_month-IsModern, first_day-lt,
  last_day-lt,
}

module _ {F : Type 0} ⦃n : Number F⦄ (z : Zone) (steady : IsSteady z) (bill : ParsedBill F) where
  open bill use {period_start, period_end}

  month_overlap-eq :
      (at : ℕ × ℕ)
      → IsModern at
      → month_overlap z bill at
        ≡ pos (
            common_days
              (day_number period_start)
              (day_number period_end)
              (first_day at)
              (last_day at))
  unfolding month_overlap local_date days_in_month
  month_overlap-eq (y, m) v = rw (modern_year y v.0) (
      overlap_days-eq z period_start period_end (date y m 1) (date y m (month_length y m)) steady
      ∙ ap
          (λ d.
            pos
              (common_days (day_number period_start) (day_number period_end) (first_day (y, m)) d))
          (omega (arith, day_number-eq y m (month_length y m), month_length_pos y m)))

  -- The days that the loop hands out over some months.
  unfoldable pub handed_out : List (ℕ × ℕ) → ℕ
  handed_out [] = 0
  handed_out (at ∷ later) = pos_part (month_overlap z bill at) + handed_out later

  -- A day cut back to the period of the bill, its end excluded.
  abbrev clip : ℕ → ℕ
  clip f = min (max f (day_number period_start)) (day_number period_end + 1)

  handed_out-clip :
      (k : ℕ) (at : ℕ × ℕ)
      → IsModern at
      → day_number period_start ≤ day_number period_end
      → handed_out (months_from k at) + clip (first_day at) ≡ clip (first_day (advance k at))
  unfolding handed_out months_from advance
  handed_out-clip zero at v h = omega arith
  handed_out-clip (suc k) at v h = omega (
    arith,
    ap pos_part (month_overlap-eq at v),
    first_day-lt at v,
    handed_out-clip k (next_month at) (next_month-IsModern at v) h,
  )

  module _ (s_date : IsDate period_start) (e_date : IsDate period_end)
      (ordered : day_number period_start ≤ day_number period_end) where
    abbrev pub first_month : ℕ × ℕ
    first_month = (period_start.year, period_start.month)

    abbrev pub last_month : ℕ × ℕ
    last_month = (period_end.year, period_end.month)

    -- The first month has begun when the bill starts, and the last has not ended when it ends.
    start_in :
        (first_day first_month ≤ day_number period_start)
        × (day_number period_start ≤ last_day first_month)
    start_in =
        let open_day = day_number-eq period_start.year period_start.month period_start.day in
        omega (arith, open_day, s_date.day_in)

    end_in :
        (first_day last_month ≤ day_number period_end)
        × (day_number period_end ≤ last_day last_month)
    end_in =
        let open_day = day_number-eq period_end.year period_end.month period_end.day in
        omega (arith, open_day, e_date.day_in)

    start-IsModern : IsModern first_month
    start-IsModern = (s_date.year_in, s_date.month_in.0, s_date.month_in.1)

    end-IsModern : IsModern last_month
    end-IsModern = (e_date.year_in, e_date.month_in.0, e_date.month_in.1)

    pub months_ordered : month_index first_month ≤ month_index last_month
    months_ordered = elim (dec_lt (month_index last_month) (month_index first_month)) [
      | no p ↦ omega arith
      | yes p ↦ absurd (
          omega (
            arith,
            start_in,
            end_in,
            last_day-lt last_month first_month end-IsModern s_date.month_in p,
          ))
    ]

    -- The month after the loop's last one.
    after_last : advance (rounds first_month last_month) first_month ≡ next_month last_month
    after_last =
        let (in_year, e) =
          advance_index (rounds first_month last_month) first_month s_date.month_in in
        let (in_year', e') = next_month_index last_month e_date.month_in in
        month_index_inj _ _ in_year in_year' (omega (arith, months_ordered))

    -- The overlaps of the months that the loop visits add up to the bill's own count of days: every
    -- day of the period is handed to one month, and none twice.
    pub handed_out-eq-days :
        pos (handed_out (months_from (rounds first_month last_month) first_month))
        ≡ inclusive_days z period_start period_end
    handed_out-eq-days =
        let all =
          handed_out-clip (rounds first_month last_month) first_month start-IsModern ordered in
        let shut = rw after_last at all in
        let total : handed_out (months_from (rounds first_month last_month) first_month)
            ≡ day_number period_end + 1 - day_number period_start =
          omega (arith, shut, start_in, end_in, first_day-lt last_month end-IsModern) in
        ap pos total
        ∙ pos-sub (day_number period_end + 1) (day_number period_start) (omega arith)
        ∙ sym (inclusive_days-eq z period_start period_end steady)

    overlap_pos :
        (at : ℕ × ℕ)
        → IsModern at
        → month_index first_month ≤ month_index at
        → month_index at ≤ month_index last_month
        → 1 ≤ pos_part (month_overlap z bill at)
    overlap_pos at v from to =
        let begun : first_day at ≤ day_number period_end =
          elim (dec_lt (month_index at) (month_index last_month)) [
            | yes p ↦ omega (
              arith,
              end_in,
              last_day-lt at last_month v e_date.month_in p,
              first_day-lt at v,
              nonempty at,
            )
            | no p ↦
                let same = month_index_inj at last_month (v.1, v.2) e_date.month_in (omega arith) in
                omega (arith, end_in, ap first_day same)
          ] in
        let open_still : day_number period_start ≤ last_day at =
          elim (dec_lt (month_index first_month) (month_index at)) [
            | yes p ↦ omega (
              arith,
              start_in,
              last_day-lt first_month at start-IsModern (v.1, v.2) p,
              nonempty at,
            )
            | no p ↦
                let same =
                  month_index_inj at first_month (v.1, v.2) s_date.month_in (omega arith) in
                omega (arith, start_in, ap last_day same)
          ] in
        omega (arith, ap pos_part (month_overlap-eq at v), nonempty at)

    all_positive :
        (k : ℕ) (at : ℕ × ℕ)
        → IsModern at
        → month_index first_month ≤ month_index at
        → month_index at + k ≡ month_index last_month + 1
        → All (λ m. 1 ≤ pos_part (month_overlap z bill m)) (months_from k at)
    unfolding months_from
    all_positive zero at v from e = tt
    all_positive (suc k) at v from e =
        let (_, step) = next_month_index at (v.1, v.2) in
        (
          overlap_pos at v from (omega arith),
          all_positive k (next_month at) (next_month-IsModern at v) (omega arith) (omega arith),
        )

    -- No month that the loop visits is skipped by its test of the overlap: each shares at least one
    -- day with the bill.
    pub month_overlap_pos :
        All
          (λ m. 1 ≤ pos_part (month_overlap z bill m))
          (months_from (rounds first_month last_month) first_month)
    month_overlap_pos =
        all_positive (rounds first_month last_month) first_month start-IsModern (omega arith)
          (omega (arith, months_ordered))

    -- The bill has a day in the month of its last day.
    pub last_overlap : 1 ≤ pos_part (month_overlap z bill last_month)
    last_overlap =
        let days = ap pos_part (month_overlap-eq last_month end-IsModern) in
        omega (arith, days, start_in, end_in, ordered)

    -- A month before the first or after the last shares no day with the bill.
    pub outside_overlap :
        (at : ℕ × ℕ)
        → IsModern at
        → (month_index at < month_index first_month) ⊎ (month_index last_month < month_index at)
        → month_overlap z bill at ≡ pos 0
    outside_overlap at v (inl h) =
        month_overlap-eq at v
        ∙ ap pos
            (omega (arith, start_in, last_day-lt at first_month v s_date.month_in h, nonempty at))
    outside_overlap at v (inr h) =
        month_overlap-eq at v
        ∙ ap pos (
            omega (arith, end_in, last_day-lt last_month at end-IsModern (v.1, v.2) h, nonempty at))
