-- ===== src/Months/Totals.antt =====
-- The specification of `monthlyBuckets`: the bucket of a month is the sum, over the bills in their
-- order, of what each bill contributes to that month alone.
use native.Mathlib.Decide.{dec_lt}
use energlens.Common.{
  ℕ, zero, suc, ◌+◌, ◌≤◌, ◌<◌, ◌≡◌, refl, sym, ap, ◌∙◌, false, Option, some, List, [], ◌∷◌, foldl,
  arith, if◌then◌else◌, or_else, Bool-cases, inl, inr, Text, text_eq, text_eq_refl, text_eq→eq, ◌⊎◌,
  ◌≢◌,
}
use energlens.Common.Int.{pos, ltb_ℤ}
use energlens.Number.{Number}
use energlens.Calendar.{Zone, day_number, period_key, next_month}
use energlens.Calendar.Days.{IsSteady, IsDate}
use energlens.Calendar.Keys.{IsMonth, period_key_inj}
use energlens.Bills.{ParsedBill}
use energlens.Months.{Accumulator, Entries, new_bucket, contribute, month_overlap, visit_month}
use energlens.Months.Walk.{
  InYear, month_index, months_from, next_month_index, month_index_inj, rounds,
}
use energlens.Months.Proration.{months_ordered, outside_overlap}
use energlens.Months.Spans.{IsModern}
use energlens.Months.Entries.{
  entry_at, entry_at-at_bucket, at_bucket-IsDistinct, at_bucket-KeysAre, IsDistinct, KeysAre,
}

-- A bill with a proper period, of years that `new Date` reads as they are written and that have
-- four digits at most.
pub record IsProper {F : Type 0} (bill : ParsedBill F) : Type 0 where
  pub start_date : IsDate bill.period_start
  pub end_date : IsDate bill.period_end
  pub ordered : day_number bill.period_start ≤ day_number bill.period_end
  pub end_year : bill.period_end.year < 10000

-- Past the year 9999.
abbrev pub end_of_time : ℕ
end_of_time = 120001

pub in_time : (at : ℕ × ℕ) → InYear at → month_index at < end_of_time → IsMonth at.0 at.1
in_time (y, m) v h = omega arith

pub other_key :
    (a b : ℕ × ℕ)
    → IsMonth a.0 a.1
    → IsMonth b.0 b.1
    → month_index a ≢ month_index b
    → text_eq (period_key a.0 a.1) (period_key b.0 b.1) ≡ false
other_key (y, m) (y', m') v w ne = elim (Bool-cases (text_eq (period_key y m) (period_key y' m'))) [
  | inl t ↦
      let (e, e') =
        period_key_inj y m y' m' v w (text_eq→eq (period_key y m) (period_key y' m') t) in
      absurd (omega arith)
  | inr t ↦ t
]

-- The keys are those of months.
abbrev pub IsKey : Text → Type 0
IsKey key = (y : ℕ) × (m : ℕ) × IsMonth y m × (key ≡ period_key y m)

abbrev pub IsGood : {F : Type 0} → Entries F → Type 0
IsGood es = IsDistinct es × KeysAre IsKey es

module _ {F : Type 0} ⦃n : Number F⦄ (z : Zone) where
  -- What a bill adds to one month.
  abbrev pub month_share : ParsedBill F → ℕ × ℕ → Option (Accumulator F) → Option (Accumulator F)
  month_share bill at sum =
      if ltb_ℤ (pos 0) (month_overlap z bill at)
      then some (
          contribute bill (n.div (n.of_ℤ (month_overlap z bill at)) (n.of_ℤ bill.days))
            (or_else sum new_bucket))
      else sum

  -- The whole of a month; `none` if no bill shares a day with it.
  unfoldable pub month_total :
      List (ParsedBill F) → ℕ × ℕ → Option (Accumulator F) → Option (Accumulator F)
  month_total [] at sum = sum
  month_total (bill ∷ bills) at sum = month_total bills at (month_share bill at sum)

  visit_same :
      (bill : ParsedBill F) (at : ℕ × ℕ) (es : Entries F)
      → entry_at (period_key at.0 at.1) (visit_month z bill at es)
        ≡ month_share bill at (entry_at (period_key at.0 at.1) es)
  unfolding visit_month
  visit_same bill (y, m) es = elim (Bool-cases (ltb_ℤ (pos 0) (month_overlap z bill (y, m)))) [
    | inl t ↦
        rw
          (
            t,
            entry_at-at_bucket (period_key y m) (period_key y m) _ es,
            text_eq_refl (period_key y m),
          )
          refl
    | inr t ↦ rw t refl
  ]

  visit_other :
      (bill : ParsedBill F) (key : Text) (here : ℕ × ℕ) (es : Entries F)
      → text_eq (period_key here.0 here.1) key ≡ false
      → entry_at key (visit_month z bill here es) ≡ entry_at key es
  unfolding visit_month
  visit_other bill key (y, m) es e =
      elim (Bool-cases (ltb_ℤ (pos 0) (month_overlap z bill (y, m)))) [
        | inl t ↦ rw (t, entry_at-at_bucket key (period_key y m) _ es, e) refl
        | inr t ↦ rw t refl
      ]

  module _ (bill : ParsedBill F) (at : ℕ × ℕ) (v : IsMonth at.0 at.1) where
    abbrev pub key_of : Text
    key_of = period_key at.0 at.1

    abbrev pub visits : ℕ → ℕ × ℕ → Entries F → Entries F
    visits k here es = foldl (λ t m. visit_month z bill m t) es (months_from k here)

    visits_outside :
        (k : ℕ) (here : ℕ × ℕ) (es : Entries F)
        → InYear here
        → month_index here + k ≤ end_of_time
        → (month_index at < month_index here) ⊎ (month_index here + k ≤ month_index at)
        → entry_at key_of (visits k here es) ≡ entry_at key_of es
    unfolding months_from
    visits_outside zero here es w b h = refl
    visits_outside (suc k) here es w b h =
        let (w', e) = next_month_index here w in
        visits_outside k (next_month here) (visit_month z bill here es) w' (omega arith)
          (omega arith)
        ∙ visit_other bill key_of here es
            (other_key here at (in_time here w (omega arith)) v (omega arith))

    visits_inside :
        (k : ℕ) (here : ℕ × ℕ) (es : Entries F)
        → InYear here
        → month_index here + k ≤ end_of_time
        → month_index here ≤ month_index at
        → month_index at < month_index here + k
        → entry_at key_of (visits k here es) ≡ month_share bill at (entry_at key_of es)
    unfolding months_from
    visits_inside zero here es w b low high = absurd (omega arith)
    visits_inside (suc k) here es w b low high =
        let (w', e) = next_month_index here w in
        elim (dec_lt (month_index here) (month_index at)) [
          | yes p ↦
              visits_inside k (next_month here) (visit_month z bill here es) w' (omega arith)
                (omega arith) (omega arith)
              ∙ ap (month_share bill at) (
                  visit_other bill key_of here es
                    (other_key here at (in_time here w (omega arith)) v (omega arith)))
          | no p ↦
              let same : here ≡ at = month_index_inj here at w v.month_in (omega arith) in
              visits_outside k (next_month here) (visit_month z bill here es) w' (omega arith)
                (inl (omega arith))
              ∙ rw same (visit_same bill at es)
        ]

    module _ (steady : IsSteady z) (modern : IsModern at) (proper : IsProper bill) where
      open proper use {start_date, end_date, ordered}

      abbrev pub start : ℕ × ℕ
      start = (bill.period_start.year, bill.period_start.month)

      abbrev pub end : ℕ × ℕ
      end = (bill.period_end.year, bill.period_end.month)

      no_share :
          (sum : Option (Accumulator F))
          → (month_index at < month_index start) ⊎ (month_index end < month_index at)
          → month_share bill at sum ≡ sum
      no_share sum h =
          rw (outside_overlap z steady bill start_date end_date ordered at modern h) refl

      -- All the visits of one bill together change a month by that month's share.
      pub visits_lem :
          (es : Entries F)
          → entry_at key_of (visits (rounds start end) start es)
            ≡ month_share bill at (entry_at key_of es)
      visits_lem es =
          let long = months_ordered z steady bill start_date end_date ordered in
          let bound : month_index start + rounds start end ≤ end_of_time =
            omega (arith, proper.end_year, end_date.month_in) in
          elim (dec_lt (month_index at) (month_index start)) [
            | yes p ↦
                visits_outside (rounds start end) start es start_date.month_in bound (inl p)
                ∙ sym (no_share (entry_at key_of es) (inl p))
            | no p ↦ elim (dec_lt (month_index end) (month_index at)) [
              | yes q ↦
                  visits_outside (rounds start end) start es start_date.month_in bound
                    (inr (omega arith))
                  ∙ sym (no_share (entry_at key_of es) (inr q))
              | no q ↦
                  visits_inside (rounds start end) start es start_date.month_in bound (omega arith)
                    (omega arith)
            ]
          ]

  visit_month-IsGood :
      (bill : ParsedBill F) (here : ℕ × ℕ) (es : Entries F)
      → IsMonth here.0 here.1
      → IsGood es
      → IsGood (visit_month z bill here es)
  unfolding visit_month
  visit_month-IsGood bill (y, m) es v (d, ks) =
      elim (Bool-cases (ltb_ℤ (pos 0) (month_overlap z bill (y, m)))) [
        | inl t ↦ rw t (
          at_bucket-IsDistinct (period_key y m) _ es d,
          at_bucket-KeysAre IsKey (period_key y m) _ es (y, m, v, refl) ks,
        )
        | inr t ↦ rw t (d, ks)
      ]

  pub visits-IsGood :
      (bill : ParsedBill F) (k : ℕ) (here : ℕ × ℕ) (es : Entries F)
      → InYear here
      → month_index here + k ≤ end_of_time
      → IsGood es
      → IsGood (foldl (λ t m. visit_month z bill m t) es (months_from k here))
  unfolding months_from
  visits-IsGood bill zero here es w b g = g
  visits-IsGood bill (suc k) here es w b g =
      let (w', e) = next_month_index here w in
      visits-IsGood bill k (next_month here) (visit_month z bill here es) w' (omega arith)
        (visit_month-IsGood bill here es (in_time here w (omega arith)) g)
