-- ===== src/Months/Buckets.antt =====
-- What `monthlyBuckets` returns: it always ends, and its buckets are the months' totals in the
-- order of time.
use mathlib.Core.Option
use mathlib.Core.Option.{some-injective}
use energlens.Common.{
  ℕ, ◌≤◌, ◌≡◌, refl, sym, ap, ◌∙◌, true, none, some, List, [], ◌∷◌, map, foldl, All, arith, Text,
  text_lt,
}
use energlens.Common.Sort.{sort}
use energlens.Number.{Number}
use energlens.Calendar.{Zone, period_key}
use energlens.Calendar.Days.{IsSteady}
use energlens.Calendar.Keys.{IsMonth, period_parts-period_key}
use energlens.Bills.{ParsedBill}
use energlens.Months.{
  MonthBucket, Accumulator, Entries, spread_bill, spread_bills, monthly_buckets, to_bucket,
  to_buckets, key_before, visit_month, bucket_at,
}
use energlens.Months.Walk.{months_from, rounds, month_loop-eq}
use energlens.Months.Proration.{months_ordered}
use energlens.Months.Spans.{IsModern}
use energlens.Months.Entries.{
  entry_at, IsAscending, KeysAre, KeysAre-sort, sort-IsAscending, bucket_at-sort,
}
use energlens.Months.Totals.{
  IsProper, month_share, month_total, visits_lem, visits-IsGood, IsGood, IsKey,
}

module _ {F : Type 0} ⦃n : Number F⦄ (z : Zone) (steady : IsSteady z) where
  -- What one bill leaves behind.
  record Leaves (bill : ParsedBill F) (es : Entries F) : Type 0 where
    result : Entries F
    returns : spread_bill z bill es ≡ some result
    good : IsGood result
    totals :
        (at : ℕ × ℕ)
        → IsMonth at.0 at.1
        → IsModern at
        → entry_at (period_key at.0 at.1) result
          ≡ month_share z bill at (entry_at (period_key at.0 at.1) es)

  spread_bill-Leaves :
      (bill : ParsedBill F) (es : Entries F) → IsProper bill → IsGood es → Leaves bill es
  unfolding spread_bill
  spread_bill-Leaves bill es p g =
      let start : ℕ × ℕ = (bill.period_start.year, bill.period_start.month) in
      let end : ℕ × ℕ = (bill.period_end.year, bill.period_end.month) in
      let long = months_ordered z steady bill p.start_date p.end_date p.ordered in
      record {
        result = foldl (λ t m. visit_month z bill m t) es (months_from (rounds start end) start);
        returns =
            month_loop-eq (visit_month z bill) end start es p.end_date.month_in
              p.start_date.month_in;
        good =
            visits-IsGood z bill (rounds start end) start es p.start_date.month_in
              (omega (arith, long, p.end_year, p.end_date.month_in)) g;
        totals = λ at v modern. visits_lem z bill at v steady modern p es;
      }

  record LeavesAll (bills : List (ParsedBill F)) (es : Entries F) : Type 0 where
    result : Entries F
    returns : spread_bills z bills es ≡ some result
    good : IsGood result
    totals :
        (at : ℕ × ℕ)
        → IsMonth at.0 at.1
        → IsModern at
        → entry_at (period_key at.0 at.1) result
          ≡ month_total z bills at (entry_at (period_key at.0 at.1) es)

  spread_bills-LeavesAll :
      (bills : List (ParsedBill F)) (es : Entries F)
      → All IsProper bills
      → IsGood es
      → LeavesAll bills es
  unfolding spread_bills month_total
  spread_bills-LeavesAll [] es ps g = record {
    result = es;
    returns = refl;
    good = g;
    totals = λ at v modern. refl;
  }
  spread_bills-LeavesAll (bill ∷ bills) es (p, ps) g =
      let one = spread_bill-Leaves bill es p g in
      let rest = spread_bills-LeavesAll bills one.result ps one.good in
      record {
        result = rest.result;
        returns = rw (one.returns, spread_bills) rest.returns;
        good = rest.good;
        totals = λ at v modern.
            rest.totals at v modern ∙ ap (month_total z bills at) (one.totals at v modern);
      }

-- Periods strictly ascend.
abbrev pub InOrder : {F : Type 0} → List (MonthBucket F) → Type 0
InOrder [] = Unit
InOrder (b ∷ bs) = All (λ c. text_lt b.period c.period ≡ true) bs × InOrder bs

-- A bucket of the month that its period names.
abbrev pub IsOfMonth : {F : Type 0} → MonthBucket F → Type 0
IsOfMonth b = IsMonth b.year b.month × (b.period ≡ period_key b.year b.month)

module _ {F : Type 0} ⦃n : Number F⦄ where
  after_map :
      (k : Text) (es : Entries F)
      → All (λ f. text_lt k f.0 ≡ true) es
      → All (λ c. text_lt k c.period ≡ true) (map to_bucket es)
  unfolding to_bucket
  after_map k [] ps = tt
  after_map k (e ∷ es) (p, ps) = (p, after_map k es ps)

  InOrder-map : (es : Entries F) → IsAscending es → InOrder (map to_bucket es)
  unfolding to_bucket
  InOrder-map [] a = tt
  InOrder-map (e ∷ es) (p, ps) = (after_map e.0 es p, InOrder-map es ps)

  to_bucket-IsOfMonth : (e : Text × Accumulator F) → IsKey e.0 → IsOfMonth (to_bucket e)
  unfolding to_bucket
  to_bucket-IsOfMonth (k, b) (y, m, v, e) = rw (e, period_parts-period_key y m v) (v, refl)

  All-to_bucket : (es : Entries F) → KeysAre IsKey es → All IsOfMonth (map to_bucket es)
  All-to_bucket [] ks = tt
  All-to_bucket (e ∷ es) (k, ks) = (to_bucket-IsOfMonth e k, All-to_bucket es ks)

  -- On bills with proper periods, in a zone whose shifts stay less than twelve hours apart,
  -- `monthlyBuckets` ends; each of its buckets is of the month that its period names, and the periods
  -- ascend strictly.
  pub monthly_buckets-InOrder :
      (z : Zone) (bills : List (ParsedBill F))
      → IsSteady z
      → All IsProper bills
      → (out : List (MonthBucket F)) × (monthly_buckets z bills ≡ some out)
        × All IsOfMonth out
        × InOrder out
  unfolding monthly_buckets
  monthly_buckets-InOrder z bills steady ps =
      let all = spread_bills-LeavesAll z steady bills [] ps (tt, tt) in
      let (distinct, keys) = all.good in
      (
        to_buckets all.result,
        rw (all.returns, monthly_buckets) refl,
        All-to_bucket (sort key_before all.result) (KeysAre-sort IsKey all.result keys),
        InOrder-map (sort key_before all.result) (sort-IsAscending all.result distinct),
      )

  -- For every month of the years 100 to 9999 the buckets hold the sum, over the bills in their order,
  -- of each bill's share with that month, and no bucket if no bill shares a day with it.
  pub bucket_at-monthly_buckets :
      (z : Zone) (bills : List (ParsedBill F)) (y m : ℕ) {out : List (MonthBucket F)}
      → IsSteady z
      → All IsProper bills
      → IsMonth y m
      → 100 ≤ y
      → monthly_buckets z bills ≡ some out
      → bucket_at (period_key y m) out
        ≡ Option.map (λ sum. to_bucket (period_key y m, sum)) (month_total z bills (y, m) none)
  unfolding monthly_buckets entry_at
  bucket_at-monthly_buckets z bills y m {out} steady ps v modern e =
      let all = spread_bills-LeavesAll z steady bills [] ps (tt, tt) in
      let (distinct, keys) = all.good in
      let returned : monthly_buckets z bills ≡ some (to_buckets all.result) =
        rw (all.returns, monthly_buckets) refl in
      let same : out ≡ to_buckets all.result = some-injective _ _ (sym e ∙ returned) in
      rw same (
        bucket_at-sort (period_key y m) all.result distinct
        ∙ ap (Option.map (λ sum. to_bucket (period_key y m, sum)))
            (all.totals (y, m) v (modern, v.month_in.0, v.month_in.1)))
