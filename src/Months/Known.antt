-- ===== src/Months/Known.antt =====
-- What a month's bucket does not know: its nulls, and the bills behind it.
use mathlib.Core.Option
use mathlib.Core.Option.{some-injective}
use energlens.Common.{
  ℕ, ◌≤◌, ◌≡◌, refl, sym, ap, ◌∙◌, Bool, true, false, ◌||◌, ◌&&◌, Option, none, some, List, [], ◌∷◌,
  ◌++◌, map, filter_by, any, All, arith, Text, is_some, or_else, append_nil, append_assoc, inl, inr,
  Bool-cases,
}
use energlens.Common.Int.{pos, ltb_ℤ}
use energlens.Number.{Number}
use energlens.Calendar.{Zone, period_key}
use energlens.Calendar.Days.{IsSteady}
use energlens.Calendar.Keys.{IsMonth}
use energlens.Bills.{ParsedBill, energy_charge}
use energlens.Months.{
  MonthBucket, Accumulator, monthly_buckets, month_overlap, to_bucket, bucket_at, contribute,
  new_bucket, seen, when,
}
use energlens.Months.Totals.{IsProper, month_share, month_total}
use energlens.Months.Buckets.{bucket_at-monthly_buckets}

seen_or :
    {F : Type 0} ⦃n : Number F⦄ (o : Option F) (b r : Bool)
    → (seen o b || r) ≡ (b || (is_some o || r))
seen_or none b r = ground arith
seen_or (some x) b r = ground arith

is_some-when : {F : Type 0} ⦃n : Number F⦄ (b : Bool) (x : F) → is_some (when b x) ≡ b
is_some-when true x = refl
is_some-when false x = refl

module _ {F : Type 0} ⦃n : Number F⦄ (z : Zone) (at : ℕ × ℕ) where
  -- The bill shares a day with the month.
  abbrev pub shares : ParsedBill F → Bool
  shares bill = ltb_ℤ (pos 0) (month_overlap z bill at)

  abbrev total_of : List (ParsedBill F) → Option (Accumulator F) → Accumulator F
  total_of bills sum = or_else (month_total z bills at sum) new_bucket

  total_of-bill_ids :
      (bills : List (ParsedBill F)) (sum : Option (Accumulator F))
      → (total_of bills sum).bill_ids
        ≡ (or_else sum new_bucket).bill_ids ++ map (λ b. b.id) (filter_by shares bills)
  unfolding month_total contribute
  total_of-bill_ids [] sum = sym (append_nil _)
  total_of-bill_ids (bill ∷ bills) sum =
      let later = total_of-bill_ids bills (month_share z bill at sum) in
      elim (Bool-cases (shares bill)) [
        | inl e ↦
            rw e (rw e at later ∙ append_assoc (or_else sum new_bucket).bill_ids (bill.id ∷ []) _)
        | inr e ↦ rw e (rw e at later)
      ]

  total_of-flag :
      (flag : Accumulator F → Bool) (part : ParsedBill F → Option F)
      → ((bill : ParsedBill F) (share : F) (sum : Accumulator F)
          → flag (contribute bill share sum) ≡ seen (part bill) (flag sum))
      → (bills : List (ParsedBill F)) (sum : Option (Accumulator F))
      → flag (total_of bills sum)
        ≡ (flag (or_else sum new_bucket) || any (λ b. shares b && is_some (part b)) bills)
  unfolding month_total
  total_of-flag flag part step [] sum = ground arith
  total_of-flag flag part step (bill ∷ bills) sum =
      let later = total_of-flag flag part step bills (month_share z bill at sum) in
      let rest = any (λ b. shares b && is_some (part b)) bills in
      elim (Bool-cases (shares bill)) [
        | inl e ↦ rw e (
            rw e at later
            ∙ ap (λ f. f || rest) (step bill _ (or_else sum new_bucket))
            ∙ seen_or (part bill) (flag (or_else sum new_bucket)) rest)
        | inr e ↦ rw e (rw e at later)
      ]

module _ {F : Type 0} ⦃n : Number F⦄ where
  from_total :
      (key : Text) (total : Option (Accumulator F)) (b : MonthBucket F)
      → Option.map (λ sum. to_bucket (key, sum)) total ≡ some b
      → b ≡ to_bucket (key, or_else total new_bucket)
  from_total key none b h = absurd (ground arith)
  from_total key (some sum) b h = sym (some-injective _ _ h)

  -- A month's bucket names exactly the bills that share a day with it, in their order, and its kWh,
  -- energy, fixed charges and taxes are each null exactly if none of these bills carries the part.
  pub monthly_buckets-known :
      (z : Zone) (bills : List (ParsedBill F)) (y m : ℕ) {out : List (MonthBucket F)}
      (b : MonthBucket F)
      → IsSteady z
      → All IsProper bills
      → IsMonth y m
      → 100 ≤ y
      → monthly_buckets z bills ≡ some out
      → bucket_at (period_key y m) out ≡ some b
      → (b.bill_ids ≡ map (λ c. c.id) (filter_by (shares z (y, m)) bills))
        × (is_some b.kwh ≡ any (λ c. shares z (y, m) c && is_some c.consumption) bills)
        × (is_some b.energy ≡ any (λ c. shares z (y, m) c && is_some (energy_charge c)) bills)
        × (is_some b.fixed ≡ any (λ c. shares z (y, m) c && is_some c.fixed_charges) bills)
        × (is_some b.taxes ≡ any (λ c. shares z (y, m) c && is_some c.taxes) bills)
  unfolding to_bucket contribute new_bucket
  monthly_buckets-known z bills y m b steady proper v modern e at_key =
      let same =
        from_total (period_key y m) (month_total z bills (y, m) none) b
          (sym (bucket_at-monthly_buckets z bills y m steady proper v modern e) ∙ at_key) in
      rw same (
        total_of-bill_ids z (y, m) bills none,
        is_some-when _ _
            ∙ total_of-flag z (y, m) (λ a. a.has_kwh) (λ c. c.consumption) (λ c s a. refl) bills
                none,
        is_some-when _ _
            ∙ total_of-flag z (y, m) (λ a. a.has_energy) energy_charge (λ c s a. refl) bills none,
        is_some-when _ _
            ∙ total_of-flag z (y, m) (λ a. a.has_fixed) (λ c. c.fixed_charges) (λ c s a. refl) bills
                none,
        is_some-when _ _
            ∙ total_of-flag z (y, m) (λ a. a.has_taxes) (λ c. c.taxes) (λ c s a. refl) bills none,
      )
