-- ===== src/Metrics/Past.antt =====
-- What `billComparisons` of frontend/src/lib/metrics.ts sets a month against: only months before it, and
-- for the cheapest month any other.
use mathlib.Core.Option.{some-injective}
use mathlib.Core.Path.{subst}
use energlens.Common.{
  ℕ, zero, suc, ◌+◌, ◌-◌, ◌≡◌, refl, sym, ap, ◌∙◌, Bool, true, false, not, ◌&&◌, Option, none, some,
  List, [], ◌∷◌, Text, text_eq, text_lt, text_eq→eq, is_some, filter_by, find, take, drop, foldl,
  get_elem?, arith, All, All-drop, All-filter_by, filter_by-holds, find-holds, All-get_elem?,
  Bool-cases, inl, inr, ltb, if◌then◌else◌, of_ℕ, or_else,
}
use energlens.Number.{Number}
use energlens.Calendar.{period_key}
use energlens.Calendar.Keys.{IsMonth, text_lt-period_key}
use energlens.Months.{MonthBucket}
use energlens.Months.Buckets.{InOrder, IsOfMonth}
use energlens.Metrics.Windows.{key_of_year_before}
use energlens.Metrics.Comparisons.{
  find_index, against, cheaper, cheapest_other, window_before, average_comparison, bill_comparisons,
}

-- Where `find_index` stops: at an element that passes the test.
record Found {A : Type 0} (p : A → Bool) (k i : ℕ) (xs : List A) : Type 0 where
  place : ℕ
  counted : i ≡ k + place
  item : A
  there : get_elem? xs place ≡ some item
  passes : p item ≡ true

find_index-Found :
    {A : Type 0} (p : A → Bool) (k i : ℕ) (xs : List A)
    → find_index p k xs ≡ some i
    → Found p k i xs
unfolding find_index
find_index-Found p k i [] e = absurd (ground arith)
find_index-Found p k i (x ∷ xs) e = elim (Bool-cases (p x)) [
  | inl h ↦ record {
    place = 0;
    counted = omega (arith, some-injective _ _ (rw h at e));
    item = x;
    there = refl;
    passes = h;
  }
  | inr h ↦
      let f = find_index-Found p (suc k) i xs (rw h at e) in
      record {
        place = suc f.place;
        counted = omega (arith, f.counted);
        item = f.item;
        there = f.there;
        passes = f.passes;
      }
]

module _ {F : Type 0} where
  abbrev Earlier : Text → MonthBucket F → Type 0
  Earlier period b = text_lt b.period period ≡ true

  take-Earlier :
      (bs : List (MonthBucket F)) (i : ℕ) (b : MonthBucket F)
      → InOrder bs
      → get_elem? bs i ≡ some b
      → All (Earlier b.period) (take i bs)
  take-Earlier [] i b o e = absurd (ground arith)
  take-Earlier (c ∷ cs) zero b o e = tt
  take-Earlier (c ∷ cs) (suc i) b (after, o) e =
      (All-get_elem? _ cs i b after e, take-Earlier cs i b o e)

  get_elem?-take :
      (bs : List (MonthBucket F)) (i : ℕ) → get_elem? (take (suc i) bs) i ≡ get_elem? bs i
  get_elem?-take [] i = refl
  get_elem?-take (c ∷ cs) zero = refl
  get_elem?-take (c ∷ cs) (suc i) = get_elem?-take cs i

-- The period of a comparison, where it has one, comes before this one.
abbrev pub IsBefore : Text → Option Text → Type 0
IsBefore period none = Unit
IsBefore period (some q) = text_lt q period ≡ true

abbrev pub IsOther : Text → Option Text → Type 0
IsOther period none = Unit
IsOther period (some q) = text_eq q period ≡ false

-- The same month a year ago has an earlier key; before the year 0 the key is shorter.
key_of_year_before-IsBefore :
    (y m : ℕ) → IsMonth y m → text_lt (key_of_year_before y m) (period_key y m) ≡ true
unfolding key_of_year_before period_key of_ℕ
key_of_year_before-IsBefore zero m v = refl
key_of_year_before-IsBefore (suc y) m v =
    let last_year : IsMonth y m = record {
      year_in = omega (arith, v.year_in);
      month_in = v.month_in;
    } in
    (text_lt-period_key y m (suc y) m last_year v).1 (omega arith)

not_and : (a b : Bool) → (a && not b) ≡ true → b ≡ false
not_and a b h = ground arith

module _ {F : Type 0} ⦃n : Number F⦄ where
  -- A comparison names the month that it is handed, or none.
  against-names :
      (P : Option Text → Type 0) (value : Option F) (other : Option (MonthBucket F))
      → P none
      → ((b : MonthBucket F) → other ≡ some b → P (some b.period))
      → P (against value other).against
  unfolding against
  against-names P value none p q = p
  against-names P value (some b) p q = by_price b.effective value
    where
      by_price :
          (theirs ours : Option F)
          → P (against ours (some (record b { effective = theirs }))).against
      by_price (some x) (some y) = q b refl
      by_price (some x) none = p
      by_price none ours = p

  foldl-cheaper-keeps :
      (P : MonthBucket F → Type 0) (best r : MonthBucket F) (bs : List (MonthBucket F))
      → P best
      → All P bs
      → foldl cheaper (some best) bs ≡ some r
      → P r
  foldl-cheaper-keeps P best r [] p ps e = subst P (some-injective _ _ e) p
  foldl-cheaper-keeps P best r (b ∷ bs) p (q, ps) e =
      elim (Bool-cases
        (n.lt (or_else b.effective (n.lit 0 0)) (or_else best.effective (n.lit 0 0)))) [
          | inl h ↦ foldl-cheaper-keeps P b r bs q ps (rw h at e)
          | inr h ↦ foldl-cheaper-keeps P best r bs p ps (rw h at e)
        ]

  cheapest_other-keeps :
      (buckets : List (MonthBucket F)) (period : Text) (r : MonthBucket F)
      → cheapest_other buckets period ≡ some r
      → text_eq r.period period ≡ false
  unfolding cheapest_other
  cheapest_other-keeps buckets period r e =
      first (filter_by (λ b. is_some b.effective && not (text_eq b.period period)) buckets)
        (filter_by-holds _ buckets) e
    where
      first :
          (bs : List (MonthBucket F))
          → All (λ b. (is_some b.effective && not (text_eq b.period period)) ≡ true) bs
          → foldl cheaper none bs ≡ some r
          → text_eq r.period period ≡ false
      first [] ps e = absurd (ground arith)
      first (b ∷ bs) (p, ps) e = not_and (is_some r.effective) _ (
          foldl-cheaper-keeps (λ c. (is_some c.effective && not (text_eq c.period period)) ≡ true) b
            r bs p ps e)

  previous-IsBefore :
      (buckets : List (MonthBucket F)) (i : ℕ) (c b : MonthBucket F)
      → InOrder buckets
      → get_elem? buckets i ≡ some c
      → (if ltb 0 i then get_elem? buckets (i - 1) else none) ≡ some b
      → text_lt b.period c.period ≡ true
  previous-IsBefore buckets zero c b o e f = absurd (ground arith)
  previous-IsBefore buckets (suc i) c b o e f =
      let back : suc i - 1 ≡ i = omega arith in
      let ahead : ltb 0 (suc i) ≡ true = ground arith in
      All-get_elem? _ (take (suc i) buckets) i b (take-Earlier buckets (suc i) c o e)
        (get_elem?-take buckets i ∙ rw (ahead, back) at f)

  year_ago-IsBefore :
      (buckets : List (MonthBucket F)) (b c : MonthBucket F)
      → IsOfMonth b
      → find (λ d. text_eq d.period (key_of_year_before b.year b.month)) buckets ≡ some c
      → text_lt c.period b.period ≡ true
  year_ago-IsBefore buckets b c (month, dated) found =
      let last_year : c.period ≡ key_of_year_before b.year b.month =
        text_eq→eq c.period _ (find-holds _ buckets c found) in
      rw (last_year, dated) (key_of_year_before-IsBefore b.year b.month month)

  -- The months ascend and are those that their periods name, as `monthlyBuckets` makes them, and `b` is
  -- the one that is looked up, at place i. Then the month before and the same month a year ago, where the
  -- comparison has them, come before `b`; the average is the one of the months of the window, which all come
  -- before `b`; and the cheapest month is another than `b`. None is compared with itself.
  pub bill_comparisons-IsBefore :
      (buckets : List (MonthBucket F)) (period : Text) (i : ℕ) (b : MonthBucket F)
      → InOrder buckets
      → All IsOfMonth buckets
      → find_index (λ c. text_eq c.period period) 0 buckets ≡ some i
      → get_elem? buckets i ≡ some b
      → let r = bill_comparisons buckets period in
        IsBefore b.period r.previous_month.against
        × IsBefore b.period r.same_month_last_year.against
        × (r.twelve_month_average ≡ average_comparison (window_before buckets i) b.effective)
        × All (λ c. text_lt c.period b.period ≡ true) (window_before buckets i)
        × IsOther b.period r.cheapest_month.against
  unfolding bill_comparisons window_before
  bill_comparisons-IsBefore buckets period i b o ms e there =
      let f = find_index-Found _ 0 i buckets e in
      let same_item : f.item ≡ b =
        some-injective _ _
          (sym f.there ∙ ap (get_elem? buckets) (omega (arith, f.counted)) ∙ there) in
      let named : b.period ≡ period =
        text_eq→eq _ _ (subst (λ c. text_eq c.period period ≡ true) same_item f.passes) in
      let of_month = All-get_elem? IsOfMonth buckets i b ms there in
      rw (e, there, bill_comparisons)
        (
          against-names (IsBefore b.period) b.effective _ tt
              (λ c found. previous-IsBefore buckets i b c o there found),
          against-names (IsBefore b.period) b.effective _ tt
              (λ c found. year_ago-IsBefore buckets b c of_month found),
          refl,
          All-filter_by _ _ (drop (i - 12) (take i buckets))
              (All-drop _ (i - 12) (take i buckets) (take-Earlier buckets i b o there)),
          against-names (IsOther b.period) b.effective _ tt
              (λ c found. rw named (cheapest_other-keeps buckets period c found)),
        )
