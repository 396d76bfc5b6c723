-- ===== src/Pages/Dashboard/Range.antt =====
-- The range control: the bills of the per-bill view and of the evidence against the months shown.
use native.Mathlib.Decide.{dec_lt}
use mathlib.Core.Path.{subst}
use mathlib.Core.Option.{some-injective}
use energlens.Common.{
  ℕ, zero, suc, ◌-◌, ◌≤◌, ◌≡◌, refl, sym, ap, ◌∙◌, Bool, true, false, Option, none, some, List, [],
  ◌∷◌, map, Text, ◌==◌, filter_by, drop, length, All, All-drop, arith, Bool-cases, inl, inr,
}
use energlens.Number.{Number}
use energlens.Calendar.{Zone, period_key}
use energlens.Calendar.Days.{IsSteady}
use energlens.Calendar.Keys.{IsMonth, text_lt-period_key, of_ℕ-four}
use energlens.Bills.{ParsedBill}
use energlens.Months.{MonthBucket, monthly_buckets, bucket_at}
use energlens.Months.Walk.{month_index}
use energlens.Months.Totals.{IsProper}
use energlens.Months.Proration.{outside_overlap}
use energlens.Months.Buckets.{InOrder, IsOfMonth, monthly_buckets-InOrder}
use energlens.Months.Fill.{month_of, slot_before, InOrder-Ascends}
use energlens.Months.Known.{shares, monthly_buckets-known}
use energlens.Pages.Periods.{in_window, month_text}
use energlens.Pages.Dashboard.{bills_in_range, from_month}

filter_by-absorb :
    {A : Type 0} (p q : A → Bool) (xs : List A)
    → All (λ x. p x ≡ true → q x ≡ true) xs
    → filter_by p (filter_by q xs) ≡ filter_by p xs
filter_by-absorb p q [] hs = refl
filter_by-absorb p q (x ∷ xs) (h, hs) = elim (Bool-cases (p x)) [
  | inl e ↦ rw (h e, e) (ap (◌∷◌ x) (filter_by-absorb p q xs hs))
  | inr e ↦ elim (Bool-cases (q x)) [
    | inl f ↦ rw (f, e) (filter_by-absorb p q xs hs)
    | inr f ↦ rw (f, e) (filter_by-absorb p q xs hs)
  ]
]

module _ {F : Type 0} where
  InOrder-drop : (k : ℕ) (bs : List (MonthBucket F)) → InOrder bs → InOrder (drop k bs)
  InOrder-drop zero bs o = o
  InOrder-drop (suc k) [] o = tt
  InOrder-drop (suc k) (b ∷ bs) (p, o) = InOrder-drop k bs o

module _ {F : Type 0} ⦃n : Number F⦄ where
  bucket_at-drop :
      (key : Text) (k : ℕ) (bs : List (MonthBucket F)) (b : MonthBucket F)
      → bucket_at key (drop k bs) ≡ some b
      → bucket_at key bs ≡ some b
  unfolding bucket_at
  bucket_at-drop key zero bs b h = h
  bucket_at-drop key (suc k) [] b h = h
  bucket_at-drop key (suc k) (c ∷ bs) b h = rw (bucket_at-drop key k bs b h) refl

  some_not_none : {b : MonthBucket F} → ◌≡◌ {A = Option (MonthBucket F)} (some b) none → ⊥
  some_not_none h = ground arith

  -- A month that is shown does not come before the first one shown.
  first_shown :
      (first : MonthBucket F) (rest : List (MonthBucket F)) (y m : ℕ) (b : MonthBucket F)
      → IsMonth y m
      → All IsOfMonth (first ∷ rest)
      → InOrder (first ∷ rest)
      → bucket_at (period_key y m) (first ∷ rest) ≡ some b
      → month_index (month_of first) ≤ month_index (y, m)
  first_shown first rest y m b v os io h =
      elim (dec_lt (month_index (y, m)) (month_index (month_of first))) [
        | no p ↦ omega arith
        | yes p ↦
            let gone =
              slot_before (first ∷ rest) (y, m) v os
                (omega arith, InOrder-Ascends first rest os io) in
            absurd (some_not_none (sym h ∙ gone))
      ]

  -- A bill with a day in a month ends in that month or later.
  ends_later :
      (z : Zone) (c : ParsedBill F) (y m : ℕ)
      → IsSteady z
      → IsProper c
      → 100 ≤ y
      → IsMonth y m
      → shares z (y, m) c ≡ true
      → month_index (y, m) ≤ month_index (c.period_end.year, c.period_end.month)
  ends_later z c y m steady p modern v h =
      elim (dec_lt (month_index (c.period_end.year, c.period_end.month)) (month_index (y, m))) [
        | no q ↦ omega arith
        | yes q ↦
            let none_left =
              outside_overlap z steady c p.start_date p.end_date p.ordered (y, m)
                (modern, v.month_in.0, v.month_in.1) (inr q) in
            let never : false ≡ true = rw none_left at h in absurd (ground arith)
      ]

  -- Its month's text is then not before an earlier month's period.
  kept :
      (z : Zone) (first : MonthBucket F) (y m : ℕ) (c : ParsedBill F)
      → IsSteady z
      → IsProper c
      → 1000 ≤ c.period_end.year
      → 100 ≤ y
      → IsMonth y m
      → IsOfMonth first
      → month_index (month_of first) ≤ month_index (y, m)
      → shares z (y, m) c ≡ true
      → from_month first.period c ≡ true
  unfolding month_text period_key
  kept z first y m c steady p late modern v (w, e) low h =
      let last = ends_later z c y m steady p modern v h in
      let order =
        text_lt-period_key c.period_end.year c.period_end.month first.year first.month
          (record { year_in = p.end_year; month_in = p.end_date.month_in }) w in
      rw (e, of_ℕ-four c.period_end.year late p.end_year) (ground (arith, order))

  All-kept :
      (z : Zone) (first : MonthBucket F) (y m : ℕ) (bills : List (ParsedBill F))
      → IsSteady z
      → All IsProper bills
      → All (λ c. 1000 ≤ c.period_end.year) bills
      → 100 ≤ y
      → IsMonth y m
      → IsOfMonth first
      → month_index (month_of first) ≤ month_index (y, m)
      → All (λ c. shares z (y, m) c ≡ true → from_month first.period c ≡ true) bills
  All-kept z first y m [] steady ps lates modern v o low = tt
  All-kept z first y m (c ∷ bills) steady (p, ps) (late, lates) modern v o low = (
    kept z first y m c steady p late modern v o low,
    All-kept z first y m bills steady ps lates modern v o low,
  )

  -- The window keeps the order, the months and the look-up.
  record IsWindow (out shown : List (MonthBucket F)) : Type 0 where
    pub months : All IsOfMonth shown
    pub ascending : InOrder shown
    pub found :
        (key : Text) (b : MonthBucket F) → bucket_at key shown ≡ some b → bucket_at key out ≡ some b

  drop-IsWindow :
      (k : ℕ) (out : List (MonthBucket F))
      → All IsOfMonth out
      → InOrder out
      → IsWindow out (drop k out)
  drop-IsWindow k out os io = record {
    months = All-drop IsOfMonth k out os;
    ascending = InOrder-drop k out io;
    found = λ key b h. bucket_at-drop key k out b h;
  }

  in_window-IsWindow :
      (months : Option ℕ) (out : List (MonthBucket F))
      → All IsOfMonth out
      → InOrder out
      → IsWindow out (in_window months out)
  unfolding in_window
  in_window-IsWindow none out os io = drop-IsWindow 0 out os io
  in_window-IsWindow (some months) out os io = elim (Bool-cases (months == 0)) [
    | inl e ↦ rw e (drop-IsWindow 0 out os io)
    | inr e ↦ rw e (drop-IsWindow (length out - months) out os io)
  ]

  none_lost :
      (z : Zone) (bills : List (ParsedBill F)) (months : Option ℕ) (y m : ℕ)
      {out shown : List (MonthBucket F)} (b : MonthBucket F)
      → IsSteady z
      → All IsProper bills
      → All (λ c. 1000 ≤ c.period_end.year) bills
      → IsMonth y m
      → 100 ≤ y
      → IsWindow out shown
      → bucket_at (period_key y m) shown ≡ some b
      → filter_by (shares z (y, m)) (bills_in_range months bills shown)
        ≡ filter_by (shares z (y, m)) bills
  unfolding bills_in_range
  none_lost z bills none y m b steady ps lates v modern w h = refl
  none_lost z bills (some k) y m {shown = []} b steady ps lates v modern w h = refl
  none_lost z bills (some k) y m {shown = first ∷ rest} b steady ps lates v modern w h =
      filter_by-absorb (shares z (y, m)) (from_month first.period) bills (
        All-kept z first y m bills steady ps lates modern v w.months.0
          (first_shown first rest y m b v w.months w.ascending h))

  -- Whatever range is chosen, every bill behind a month that is shown is among the bills of the range: the
  -- month's list of bills can be read off them. The zone is steady, the bills are proper and end in
  -- the year 1000 or later, and the months are those that `monthlyBuckets` makes of them.
  pub bills_in_range-known :
      (z : Zone) (bills : List (ParsedBill F)) (months : Option ℕ) (y m : ℕ)
      {out : List (MonthBucket F)} (b : MonthBucket F)
      → IsSteady z
      → All IsProper bills
      → All (λ c. 1000 ≤ c.period_end.year) bills
      → IsMonth y m
      → 100 ≤ y
      → monthly_buckets z bills ≡ some out
      → bucket_at (period_key y m) (in_window months out) ≡ some b
      → b.bill_ids
        ≡ map
            (λ c. c.id)
            (filter_by (shares z (y, m)) (bills_in_range months bills (in_window months out)))
  bills_in_range-known z bills months y m {out} b steady ps lates v modern e h =
      let (out', e', os, io) = monthly_buckets-InOrder z bills steady ps in
      let same : out' ≡ out = some-injective _ _ (sym e' ∙ e) in
      let w =
        in_window-IsWindow months out (subst (All IsOfMonth) same os) (subst InOrder same io) in
      let known =
        monthly_buckets-known z bills y m b steady ps v modern e (w.found (period_key y m) b h) in
      rw (none_lost z bills months y m b steady ps lates v modern w h) known.0
