-- ===== src/Months/Fill.antt =====
-- `fillMonths`: a contiguous axis of months with the buckets at their places.
use native.Mathlib.Decide.{dec_lt}
use energlens.Common.{
  ℕ, zero, suc, ◌+◌, ◌-◌, ◌≤◌, ◌<◌, ◌≡◌, refl, ap, false, ◌&&◌, Option, none, some, List, [], ◌∷◌,
  map, All, arith, text_eq, Bool-cases, inl, inr, ◌==◌, last_of, text_eq_refl, ◌≢◌,
}
use mathlib.Core.Path.{ap₂}
use energlens.Number.{Number}
use energlens.Calendar.{period_key, next_month}
use energlens.Calendar.Keys.{IsMonth, text_lt-period_key}
use energlens.Months.{MonthBucket, bucket_at, fill_loop, fill_months}
use energlens.Months.Walk.{InYear, month_index, months_from, next_month_index, month_index_inj}
use energlens.Months.Entries.{skip-eq}
use energlens.Months.Totals.{end_of_time, in_time, other_key}
use energlens.Months.Buckets.{InOrder, IsOfMonth}

module _ {F : Type 0} where
  abbrev pub month_of : MonthBucket F → ℕ × ℕ
  month_of b = (b.year, b.month)

  -- In the order of time, after a given month.
  abbrev pub Ascends : ℕ → List (MonthBucket F) → Type 0
  Ascends from [] = Unit
  Ascends from (b ∷ bs) =
      (from ≤ month_index (month_of b)) × Ascends (month_index (month_of b) + 1) bs

  -- The buckets that are not null.
  abbrev pub present : List (Option (MonthBucket F)) → List (MonthBucket F)
  present [] = []
  present (none ∷ bs) = present bs
  present (some b ∷ bs) = b ∷ present bs

module _ {F : Type 0} ⦃n : Number F⦄ where
  -- The slot of a month.
  abbrev slot : List (MonthBucket F) → ℕ × ℕ → Option (MonthBucket F)
  slot bs m = bucket_at (period_key m.0 m.1) bs

  fill_loop-eq :
      (bs : List (MonthBucket F)) (last : ℕ × ℕ) (k fuel : ℕ) (at : ℕ × ℕ)
      → InYear last
      → InYear at
      → month_index at + k ≡ month_index last
      → k < fuel
      → fill_loop bs last fuel at ≡ some (map (slot bs) (months_from (suc k) at))
  unfolding fill_loop months_from
  fill_loop-eq bs last k zero at w v e h = absurd (omega arith)
  fill_loop-eq bs (ly, lm) zero (suc fuel) (y, m) w v e h = ground arith
  fill_loop-eq bs (ly, lm) (suc k) (suc fuel) (y, m) w v e h =
      let (v', e') = next_month_index (y, m) v in
      let rest =
        fill_loop-eq bs (ly, lm) k fuel (next_month (y, m)) w v' (omega arith) (omega arith) in
      elim (Bool-cases (y == ly && m == lm)) [
        | inl t ↦ absurd (ground arith)
        | inr t ↦ rw (t, rest) refl
      ]

  Ascends-weaken :
      {from to : ℕ} (bs : List (MonthBucket F)) → from ≤ to → Ascends to bs → Ascends from bs
  Ascends-weaken [] h a = tt
  Ascends-weaken (b ∷ bs) h (low, a) = (omega arith, a)

  other_period :
      (b : MonthBucket F) (at : ℕ × ℕ)
      → IsMonth at.0 at.1
      → IsOfMonth b
      → month_index (month_of b) ≢ month_index at
      → text_eq b.period (period_key at.0 at.1) ≡ false
  other_period b at v (w, e) ne = rw e (other_key (month_of b) at w v ne)

  pub slot_before :
      (bs : List (MonthBucket F)) (at : ℕ × ℕ)
      → IsMonth at.0 at.1
      → All IsOfMonth bs
      → Ascends (month_index at + 1) bs
      → slot bs at ≡ none
  unfolding bucket_at
  slot_before [] at v os a = refl
  slot_before (b ∷ bs) at v (o, os) (low, a) =
      rw
        (
          slot_before bs at v os (Ascends-weaken bs (omega arith) a),
          other_period b at v o (omega arith),
        )
        refl

  slot_other :
      (b : MonthBucket F) (bs : List (MonthBucket F)) (at : ℕ × ℕ)
      → IsMonth at.0 at.1
      → IsOfMonth b
      → month_index (month_of b) ≢ month_index at
      → slot (b ∷ bs) at ≡ slot bs at
  unfolding bucket_at
  slot_other b bs at v o ne =
      skip-eq (text_eq b.period (period_key at.0 at.1)) b (slot bs at) (other_period b at v o ne)

  slots_other :
      (b : MonthBucket F) (bs : List (MonthBucket F)) (k : ℕ) (at : ℕ × ℕ)
      → InYear at
      → month_index at + k ≤ end_of_time
      → IsOfMonth b
      → month_index (month_of b) < month_index at
      → map (slot (b ∷ bs)) (months_from k at) ≡ map (slot bs) (months_from k at)
  unfolding months_from
  slots_other b bs zero at w e o h = refl
  slots_other b bs (suc k) at w e o h =
      let (w', e') = next_month_index at w in
      ap₂ ◌∷◌ (slot_other b bs at (in_time at w (omega arith)) o (omega arith))
        (slots_other b bs k (next_month at) w' (omega arith) o (omega arith))

  slot_here :
      (b : MonthBucket F) (bs : List (MonthBucket F))
      → IsOfMonth b
      → All IsOfMonth bs
      → Ascends (month_index (month_of b) + 1) bs
      → slot (b ∷ bs) (month_of b) ≡ some b
  unfolding bucket_at
  slot_here b bs (v, e) os a =
      rw (slot_before bs (month_of b) v os a)
        (rw e (rw (text_eq_refl (period_key b.year b.month)) refl))

  -- Reading every month from one on, up to a limit, gives back the buckets, in their order.
  present-slots :
      (k limit : ℕ) (bs : List (MonthBucket F)) (at : ℕ × ℕ)
      → InYear at
      → month_index at + k ≡ limit
      → limit ≤ end_of_time
      → All IsOfMonth bs
      → Ascends (month_index at) bs
      → All (λ b. month_index (month_of b) < limit) bs
      → present (map (slot bs) (months_from k at)) ≡ bs
  unfolding months_from bucket_at
  present-slots zero limit [] at w e t os a below = refl
  present-slots zero limit (b ∷ bs) at w e t os (low, a) (high, below) = absurd (omega arith)
  present-slots (suc k) limit [] at w e t os a below =
      let (w', e') = next_month_index at w in
      present-slots k limit [] (next_month at) w' (omega arith) t os a below
  present-slots (suc k) limit (b ∷ bs) at w e t (o, os) (low, a) (high, below) =
      let (w', e') = next_month_index at w in
      let v = in_time at w (omega arith) in
      elim (dec_lt (month_index at) (month_index (month_of b))) [
        | yes p ↦ rw (slot_before (b ∷ bs) at v (o, os) (omega arith, a)) (
            present-slots k limit (b ∷ bs) (next_month at) w' (omega arith) t (o, os)
              (omega arith, a) (high, below))
        | no p ↦
            let same : at ≡ month_of b =
              month_index_inj at (month_of b) w o.0.month_in (omega arith) in
            rw
              (
                ap (slot (b ∷ bs)) same,
                slot_here b bs o os a,
                slots_other b bs k (next_month at) w' (omega arith) o (omega arith),
              )
              (ap (◌∷◌ b) (
                present-slots k limit bs (next_month at) w' (omega arith) t os
                  (Ascends-weaken bs (omega arith) a) below))
      ]

  pub InOrder-Ascends :
      (b : MonthBucket F) (bs : List (MonthBucket F))
      → All IsOfMonth (b ∷ bs)
      → InOrder (b ∷ bs)
      → Ascends (month_index (month_of b) + 1) bs
  InOrder-Ascends b [] os io = tt
  InOrder-Ascends b (c ∷ cs) ((v, e), ((w, f), os)) ((p, ps), io) =
      let later = (text_lt-period_key b.year b.month c.year c.month v w).0 (rw (← e, ← f) p) in
      (omega arith, InOrder-Ascends c cs ((w, f), os) io)

  -- The last bucket is the latest.
  last_bound :
      (b : MonthBucket F) (bs : List (MonthBucket F))
      → All IsOfMonth (b ∷ bs)
      → Ascends (month_index (month_of b) + 1) bs
      → IsOfMonth (last_of b bs)
        × (month_index (month_of b) ≤ month_index (month_of (last_of b bs)))
        × All (λ c. month_index (month_of c) < month_index (month_of (last_of b bs)) + 1) (b ∷ bs)
  last_bound b [] (o, os) a = (o, omega arith, (omega arith, tt))
  last_bound b (c ∷ cs) (o, os) (low, a) =
      let (last, le, rest) = last_bound c cs os a in (last, omega arith, (omega arith, rest))

  -- On the buckets of `monthlyBuckets`, which ascend in time, and with more fuel than there are
  -- months from the first to the last, `fillMonths` ends. It returns one slot for each month from the
  -- first to the last, in order, with the bucket of that month or null; without the nulls these
  -- are the buckets that went in.
  pub fill_months-eq :
      (b : MonthBucket F) (bs : List (MonthBucket F)) (fuel : ℕ)
      → All IsOfMonth (b ∷ bs)
      → InOrder (b ∷ bs)
      → month_index (month_of (last_of b bs)) - month_index (month_of b) < fuel
      → (out : List (Option (MonthBucket F))) × (fill_months fuel (b ∷ bs) ≡ some out)
        × (out
            ≡ map
                (λ m. bucket_at (period_key m.0 m.1) (b ∷ bs))
                (months_from
                  (suc (month_index (month_of (last_of b bs)) - month_index (month_of b)))
                  (month_of b)))
        × (present out ≡ b ∷ bs)
  unfolding fill_months
  fill_months-eq b bs fuel (o, os) io h =
      let up = InOrder-Ascends b bs (o, os) io in
      let (last, le, below) = last_bound b bs (o, os) up in
      let k = month_index (month_of (last_of b bs)) - month_index (month_of b) in
      (
        map (slot (b ∷ bs)) (months_from (suc k) (month_of b)),
        fill_loop-eq (b ∷ bs) (month_of (last_of b bs)) k fuel (month_of b) last.0.month_in
            o.0.month_in (omega arith) h,
        refl,
        present-slots (suc k) (month_index (month_of (last_of b bs)) + 1) (b ∷ bs) (month_of b)
            o.0.month_in (omega arith) (omega arith) (o, os) (omega arith, up) below,
      )
