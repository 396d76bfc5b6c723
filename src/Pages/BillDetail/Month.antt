-- ===== src/Pages/BillDetail/Month.antt =====
-- The month that a bill's page and the dashboard's list of bills look up is one of `monthlyBuckets`.
use mathlib.Core.Option
use mathlib.Core.Path.{subst}
use energlens.Months.Entries.{skip-eq}
use energlens.Common.{
  ℕ, suc, ◌≤◌, ◌≡◌, refl, true, Option, none, some, List, [], ◌∷◌, ◌++◌, Text, text_eq, is_some,
  All, arith, Bool-cases, inl, inr,
}
use energlens.Common.Int.{pos, ltb_ℤ}
use energlens.Number.{Number}
use energlens.Calendar.{Zone, period_key}
use energlens.Calendar.Days.{IsSteady}
use energlens.Calendar.Keys.{IsMonth, of_ℕ-four}
use energlens.Bills.{ParsedBill}
use energlens.Months.{MonthBucket, monthly_buckets, month_overlap, bucket_at, Accumulator}
use energlens.Months.Totals.{IsProper, month_total, month_share}
use energlens.Months.Proration.{last_overlap}
use energlens.Months.Buckets.{bucket_at-monthly_buckets}
use energlens.Metrics.Comparisons.{find_index}
use energlens.Pages.Periods.{month_text}
use energlens.Pages.BillDetail.{period_of}

is_some-map :
    {A B : Type 0} (f : A → B) (o : Option A) → is_some o ≡ true → is_some (Option.map f o) ≡ true
is_some-map f none h = h
is_some-map f (some a) h = refl

module _ {F : Type 0} ⦃n : Number F⦄ (z : Zone) (steady : IsSteady z) where
  abbrev end_month : ParsedBill F → ℕ × ℕ
  end_month c = (c.period_end.year, c.period_end.month)

  end-IsMonth : (c : ParsedBill F) → IsProper c → IsMonth c.period_end.year c.period_end.month
  end-IsMonth c p = record { year_in = p.end_year; month_in = p.end_date.month_in }

  month_share-some :
      (c : ParsedBill F) (at : ℕ × ℕ) (sum : Option (Accumulator F))
      → is_some sum ≡ true
      → is_some (month_share z c at sum) ≡ true
  month_share-some c at sum h = elim (Bool-cases (ltb_ℤ (pos 0) (month_overlap z c at))) [
    | inl e ↦ rw e refl
    | inr e ↦ rw e h
  ]

  month_total-some :
      (bills : List (ParsedBill F)) (at : ℕ × ℕ) (sum : Option (Accumulator F))
      → is_some sum ≡ true
      → is_some (month_total z bills at sum) ≡ true
  unfolding month_total
  month_total-some [] at sum h = h
  month_total-some (c ∷ bills) at sum h =
      month_total-some bills at (month_share z c at sum) (month_share-some c at sum h)

  own_share :
      (c : ParsedBill F) (sum : Option (Accumulator F))
      → IsProper c
      → is_some (month_share z c (end_month c) sum) ≡ true
  own_share c sum p =
      let days = last_overlap z steady c p.start_date p.end_date p.ordered in
      let shares : ltb_ℤ (pos 0) (month_overlap z c (end_month c)) ≡ true = ground (arith, days) in
      rw shares refl

  -- The month of the last day of every bill of the list has a total.
  month_total-split :
      (before after : List (ParsedBill F)) (c : ParsedBill F) (sum : Option (Accumulator F))
      → IsProper c
      → is_some (month_total z (before ++ (c ∷ after)) (end_month c) sum) ≡ true
  unfolding month_total
  month_total-split [] after c sum p =
      month_total-some after (end_month c) (month_share z c (end_month c) sum) (own_share c sum p)
  month_total-split (b ∷ before) after c sum p =
      month_total-split before after c (month_share z b (end_month c) sum) p

  find_index-some :
      (key : Text) (i : ℕ) (bs : List (MonthBucket F))
      → is_some (bucket_at key bs) ≡ true
      → is_some (find_index (λ b. text_eq b.period key) i bs) ≡ true
  unfolding bucket_at find_index
  find_index-some key i [] h = h
  find_index-some key i (b ∷ bs) h = elim (Bool-cases (text_eq b.period key)) [
    | inl e ↦ rw e refl
    | inr e ↦
        let later = skip-eq (text_eq b.period key) b (bucket_at key bs) e in
        rw e (find_index-some key (suc i) bs (subst (λ o. is_some o ≡ true) later h))
  ]

  at_split :
      (before after : List (ParsedBill F)) (c : ParsedBill F)
      → All IsProper (before ++ (c ∷ after))
      → IsProper c
  at_split [] after c (p, ps) = p
  at_split (b ∷ before) after c (p, ps) = at_split before after c ps

  -- The page of a bill finds the month of the bill's last day among the months of the place, wherever the
  -- bill stands in the list: the zone is steady, the bills are proper, and the bill ends in the
  -- year 1000 or later.
  pub find_index-period_of :
      (before after : List (ParsedBill F)) (c : ParsedBill F) {out : List (MonthBucket F)}
      → All IsProper (before ++ (c ∷ after))
      → 1000 ≤ c.period_end.year
      → monthly_buckets z (before ++ (c ∷ after)) ≡ some out
      → is_some (find_index (λ b. text_eq b.period (period_of c)) 0 out) ≡ true
  unfolding period_of month_text period_key
  find_index-period_of before after c {out} ps late e =
      let p = at_split before after c ps in
      let bills = before ++ (c ∷ after) in
      let y = c.period_end.year in
      let m = c.period_end.month in
      let here =
        bucket_at-monthly_buckets z bills y m steady ps (end-IsMonth c p) p.end_date.year_in e in
      let found : is_some (bucket_at (period_key y m) out) ≡ true = rw here (
        is_some-map _ (month_total z bills (y, m) none)
          (month_total-split before after c none p)) in
      rw (of_ℕ-four y late p.end_year) (find_index-some (period_key y m) 0 out found)
