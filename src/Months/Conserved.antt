-- ===== src/Months/Conserved.antt =====
-- No money is lost between the bills and the months: the amounts that `monthlyBuckets` of
-- frontend/src/lib/metrics.ts adds up, before it rounds them for display.
use energlens.Common.{
  ℕ, zero, suc, ◌+◌, ◌≡◌, refl, sym, ap, ◌∙◌, true, false, some, List, [], ◌∷◌, All, foldl, arith,
  Bool-cases, inl, inr, Text, text_eq,
}
use energlens.Common.Int.{ℤ, pos, negsuc, pos_part, ltb_ℤ}
use energlens.Number.{Number}
use energlens.Calendar.{Zone, period_key, next_month, inclusive_days}
use energlens.Calendar.Days.{IsSteady}
use energlens.Bills.{ParsedBill}
use energlens.Months.{
  Entries, new_bucket, contribute, at_bucket, month_overlap, visit_month, spread_bill, spread_bills,
  monthly_buckets, to_buckets,
}
use energlens.Months.Walk.{months_from, rounds, month_loop-eq}
use energlens.Months.Proration.{handed_out, handed_out-eq-days}
use energlens.Months.Totals.{IsProper}

-- Sums in which nothing is rounded.
pub record IsSum (F : Type 0) ⦃n : Number F⦄ : Type 0 where
  pub add_assoc : (x y z : F) → n.add (n.add x y) z ≡ n.add x (n.add y z)
  pub add_comm : (x y : F) → n.add x y ≡ n.add y x
  pub add_zero : (x : F) → n.add x (n.lit 0 0) ≡ x

module _ {F : Type 0} ⦃n : Number F⦄ where
  -- An amount that is a × (k / days) for k days of `days`.
  abbrev pub part_of : F → ℤ → ℕ → F
  part_of a days k = n.mul a (n.div (n.of_ℤ (pos k)) (n.of_ℤ days))

  -- An amount that can be split by days without rounding.
  pub record Splits (a : F) (days : ℤ) : Type 0 where
    pub no_day : part_of a days 0 ≡ n.lit 0 0
    pub more_days : (k l : ℕ) → part_of a days (k + l) ≡ n.add (part_of a days k) (part_of a days l)
    pub all_days : n.mul a (n.div (n.of_ℤ days) (n.of_ℤ days)) ≡ a

  abbrev pub sum_of {ℓ} : {A : Type ℓ} → (A → F) → List A → F
  sum_of f [] = n.lit 0 0
  sum_of f (x ∷ xs) = n.add (f x) (sum_of f xs)

  -- The cost of all months together.
  abbrev pub cost_of : Entries F → F
  cost_of es = sum_of (λ e. e.1.cost) es

  -- A bill whose days are counted as `parseBill` counts them, and whose total splits.
  pub record IsSplit (z : Zone) (bill : ParsedBill F) : Type 0 where
    pub days_eq : inclusive_days z bill.period_start bill.period_end ≡ bill.days
    pub splits : Splits bill.total bill.days

module _ {F : Type 0} ⦃n : Number F⦄ (sum : IsSum F) where
  open sum use {add_assoc, add_comm, add_zero}

  -- (a + b) + c = (a + c) + b
  add_right_comm : (a b c : F) → n.add (n.add a b) c ≡ n.add (n.add a c) b
  add_right_comm a b c = add_assoc a b c ∙ ap (n.add a) (add_comm b c) ∙ sym (add_assoc a c b)

  cost_of-at_bucket :
      (bill : ParsedBill F) (share : F) (key : Text) (es : Entries F)
      → cost_of (at_bucket key (contribute bill share) es)
        ≡ n.add (cost_of es) (n.mul bill.total share)
  unfolding at_bucket contribute new_bucket
  cost_of-at_bucket bill share key [] = add_zero (n.add (n.lit 0 0) (n.mul bill.total share))
  cost_of-at_bucket bill share key ((k, b) ∷ es) = elim (Bool-cases (text_eq k key)) [
    | inl t ↦ rw t (add_right_comm b.cost (n.mul bill.total share) (cost_of es))
    | inr t ↦ rw t (
        ap (n.add b.cost) (cost_of-at_bucket bill share key es)
        ∙ sym (add_assoc b.cost (cost_of es) (n.mul bill.total share)))
  ]

  module _ (z : Zone) (steady : IsSteady z) (bill : ParsedBill F)
      (splits : Splits bill.total bill.days) where
    no_days : (es : Entries F) → cost_of es ≡ n.add (cost_of es) (part_of bill.total bill.days 0)
    no_days es = sym (ap (n.add (cost_of es)) splits.no_day ∙ add_zero (cost_of es))

    cost_of-visit :
        (at : ℕ × ℕ) (es : Entries F)
        → cost_of (visit_month z bill at es)
          ≡ n.add (cost_of es) (part_of bill.total bill.days (pos_part (month_overlap z bill at)))
    unfolding visit_month
    cost_of-visit (y, m) es = by_overlap (month_overlap z bill (y, m)) refl
      where
        by_overlap :
            (o : ℤ)
            → month_overlap z bill (y, m) ≡ o
            → cost_of (visit_month z bill (y, m) es)
              ≡ n.add (cost_of es) (part_of bill.total bill.days (pos_part o))
        by_overlap (pos zero) e = rw e (no_days es)
        by_overlap (pos (suc k)) e =
            let shares : ltb_ℤ (pos 0) (pos (suc k)) ≡ true = ground arith in
            rw (e, shares) (cost_of-at_bucket bill _ (period_key y m) es)
        by_overlap (negsuc k) e =
            let skips : ltb_ℤ (pos 0) (negsuc k) ≡ false = ground arith in
            rw (e, skips) (no_days es)

    cost_of-visits :
        (k : ℕ) (at : ℕ × ℕ) (es : Entries F)
        → cost_of (foldl (λ t m. visit_month z bill m t) es (months_from k at))
          ≡ n.add
              (cost_of es)
              (part_of bill.total bill.days (handed_out z steady bill (months_from k at)))
    unfolding months_from handed_out
    cost_of-visits zero at es = no_days es
    cost_of-visits (suc k) at es =
        let later = handed_out z steady bill (months_from k (next_month at)) in
        let here = pos_part (month_overlap z bill at) in
        cost_of-visits k (next_month at) (visit_month z bill at es)
        ∙ ap (λ c. n.add c (part_of bill.total bill.days later)) (cost_of-visit at es)
        ∙ add_assoc (cost_of es) _ _
        ∙ ap (n.add (cost_of es)) (sym (splits.more_days here later))

    module _ (proper : IsProper bill)
        (days_eq : inclusive_days z bill.period_start bill.period_end ≡ bill.days) where
      open proper use {start_date, end_date, ordered}

      abbrev visited : List (ℕ × ℕ)
      visited =
          months_from
            (rounds (bill.period_start.year, bill.period_start.month)
              (bill.period_end.year, bill.period_end.month))
            (bill.period_start.year, bill.period_start.month)

      all_of_it : part_of bill.total bill.days (handed_out z steady bill visited) ≡ bill.total
      all_of_it =
          ap (λ d. n.mul bill.total (n.div (n.of_ℤ d) (n.of_ℤ bill.days)))
            (handed_out-eq-days z steady bill start_date end_date ordered ∙ days_eq)
          ∙ splits.all_days

      spread_bill-cost :
          (es : Entries F)
          → (es' : Entries F) × (spread_bill z bill es ≡ some es')
            × (cost_of es' ≡ n.add (cost_of es) bill.total)
      unfolding spread_bill
      spread_bill-cost es = (
        foldl (λ t m. visit_month z bill m t) es visited,
        month_loop-eq (visit_month z bill) (bill.period_end.year, bill.period_end.month)
            (bill.period_start.year, bill.period_start.month) es end_date.month_in
            start_date.month_in,
        cost_of-visits _ _ es ∙ ap (n.add (cost_of es)) all_of_it,
      )

  module _ (z : Zone) (steady : IsSteady z) where
    spread_bills-cost :
        (bills : List (ParsedBill F)) (es : Entries F)
        → All IsProper bills
        → All (IsSplit z) bills
        → (es' : Entries F) × (spread_bills z bills es ≡ some es')
          × (cost_of es' ≡ n.add (cost_of es) (sum_of (λ b. b.total) bills))
    unfolding spread_bills
    spread_bills-cost [] es ps ss = (es, refl, sym (add_zero (cost_of es)))
    spread_bills-cost (bill ∷ bills) es (p, ps) (s, ss) =
        let (es', done, cost) = spread_bill-cost z steady bill s.splits p s.days_eq es in
        let (es'', done', cost') = spread_bills-cost bills es' ps ss in
        (
          es'',
          rw (done, spread_bills) done',
          cost'
              ∙ ap (λ c. n.add c (sum_of (λ b. b.total) bills)) cost
              ∙ add_assoc (cost_of es) bill.total (sum_of (λ b. b.total) bills),
        )

    -- No money is lost or made up: in a steady zone and on proper bills, where sums are exact and the
    -- total of each bill splits by its days without rounding, `monthlyBuckets` ends, and the costs of the
    -- months, before they are rounded for display, add up to the totals of the bills.
    pub monthly_buckets-cost :
        (bills : List (ParsedBill F))
        → All IsProper bills
        → All (IsSplit z) bills
        → (es : Entries F) × (spread_bills z bills [] ≡ some es)
          × (monthly_buckets z bills ≡ some (to_buckets es))
          × (cost_of es ≡ sum_of (λ b. b.total) bills)
    unfolding monthly_buckets
    monthly_buckets-cost bills ps ss =
        let (es, done, cost) = spread_bills-cost bills [] ps ss in
        (es, done, rw (done, monthly_buckets) refl, cost ∙ add_comm _ _ ∙ add_zero _)
