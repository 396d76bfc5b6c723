-- ===== src/Metrics/Comparisons.antt =====
-- `billComparisons`: one month against the run of everything else.
use energlens.Common.{
  ℕ, suc, ◌-◌, ◌≡◌, Bool, true, false, not, ◌&&◌, Option, none, some, List, [], ◌∷◌, ◌++◌, Text,
  text_eq, codes, of_ℕ, if◌then◌else◌, ltb, ◌==◌, or_else, is_some, length, filter_by, find, take,
  drop, foldl, get_elem?, arith, All, ◌⊎◌, inl, inr, Bool-cases,
}
use mathlib.Core.Path.{subst}
use mathlib.Core.Option.{some-injective}
use energlens.Number.{Number, IsOrdered}
use energlens.Bills.{round}
use energlens.Months.{MonthBucket}
use energlens.Metrics.Windows.{Delta, no_delta, delta, sum_by, key_of_year_before}

pub record BillComparison (F : Type 0) : Type 0 where
  pub against : Option Text
  pub against_value : Option F
  pub delta : Delta F

pub record BillComparisons (F : Type 0) : Type 0 where
  pub previous_month : BillComparison F
  pub same_month_last_year : BillComparison F
  pub twelve_month_average : BillComparison F
  pub cheapest_month : BillComparison F

abbrev pub no_comparison : {F : Type 0} → BillComparison F
no_comparison = record { against = none; against_value = none; delta = no_delta }

-- `xs.findIndex(p)`, counting from i
unfoldable pub find_index : {A : Type 0} → (A → Bool) → ℕ → List A → Option ℕ
find_index p i [] = none
find_index p i (x ∷ xs) = let rest = find_index p (suc i) xs in if p x then some i else rest

module _ {F : Type 0} ⦃n : Number F⦄ where
  open n use {lit, add, div, lt}

  abbrev pub price : MonthBucket F → F
  price b = or_else b.effective (lit 0 0)

  -- `against(other)`
  unfoldable pub against : Option F → Option (MonthBucket F) → BillComparison F
  against value none = no_comparison
  against value (some other) = compare other.effective value
    where
      compare : Option F → Option F → BillComparison F
      compare (some theirs) (some ours) = record {
        against = some other.period;
        against_value = some theirs;
        delta = delta (some theirs) (some ours);
      }
      compare _ _ = no_comparison

  abbrev pub cheaper : Option (MonthBucket F) → MonthBucket F → Option (MonthBucket F)
  cheaper none b = some b
  cheaper (some best) b = if lt (price b) (price best) then some b else some best

  -- The cheapest other month by its all-in price; the first of several.
  unfoldable pub cheapest_other : List (MonthBucket F) → Text → Option (MonthBucket F)
  cheapest_other buckets period =
      foldl cheaper none
        (filter_by (λ b. is_some b.effective && not (text_eq b.period period)) buckets)

  -- The priced months among the twelve before the index.
  unfoldable pub window_before : List (MonthBucket F) → ℕ → List (MonthBucket F)
  window_before buckets index =
      filter_by (λ b. is_some b.effective) (drop (index - 12) (take index buckets))

  unfoldable pub average_comparison : List (MonthBucket F) → Option F → BillComparison F
  average_comparison window none = no_comparison
  average_comparison window (some value) =
      let average = div (sum_by price window) (lit (length window) 0) in
      if length window == 0 then no_comparison else record {
        against = some (of_ℕ (length window) ++ codes "-month average");
        against_value = some (round average 4);
        delta = delta (some average) (some value);
      }

  abbrev comparisons_at :
      List (MonthBucket F) → Text → ℕ → Option (MonthBucket F) → BillComparisons F
  comparisons_at buckets period index none = record {
    previous_month = no_comparison;
    same_month_last_year = no_comparison;
    twelve_month_average = no_comparison;
    cheapest_month = no_comparison;
  }
  comparisons_at buckets period index (some current) =
      let value = current.effective in
      let previous = if ltb 0 index then get_elem? buckets (index - 1) else none in
      let year_ago =
        find (λ b. text_eq b.period (key_of_year_before current.year current.month)) buckets in
      record {
        previous_month = against value previous;
        same_month_last_year = against value year_ago;
        twelve_month_average = average_comparison (window_before buckets index) value;
        cheapest_month = against value (cheapest_other buckets period);
      }

  unfoldable pub bill_comparisons : List (MonthBucket F) → Text → BillComparisons F
  bill_comparisons buckets period = elim (find_index (λ b. text_eq b.period period) 0 buckets) [
    | none ↦ comparisons_at buckets period 0 none
    | some index ↦ comparisons_at buckets period index (get_elem? buckets index)
  ]

module _ {F : Type 0} ⦃n : Number F⦄ (order : IsOrdered F) where
  -- Where the best so far ends up: at itself or at something cheaper.
  Reaches : MonthBucket F → MonthBucket F → Type 0
  Reaches best r = (best ≡ r) ⊎ (n.lt (price r) (price best) ≡ true)

  Reaches-not_lt : (best r : MonthBucket F) → Reaches best r → n.lt (price best) (price r) ≡ false
  unfolding Reaches
  Reaches-not_lt best r (inl e) =
      subst (λ x. n.lt (price best) (price x) ≡ false) e (order.lt_irrefl (price best))
  Reaches-not_lt best r (inr h) = order.lt_asymm (price r) (price best) h

  not_cheaper :
      (b best r : MonthBucket F)
      → n.lt (price b) (price best) ≡ false
      → Reaches best r
      → n.lt (price b) (price r) ≡ false
  unfolding Reaches
  not_cheaper b best r h (inl e) = subst (λ x. n.lt (price b) (price x) ≡ false) e h
  not_cheaper b best r h (inr k) = elim (Bool-cases (n.lt (price b) (price r))) [
    | inl e ↦ let up = order.lt_trans (price b) (price r) (price best) e k in absurd (ground arith)
    | inr e ↦ e
  ]

  Reaches-trans :
      (b best r : MonthBucket F) → n.lt (price b) (price best) ≡ true → Reaches b r → Reaches best r
  unfolding Reaches
  Reaches-trans b best r h (inl e) = inr (subst (λ x. n.lt (price x) (price best) ≡ true) e h)
  Reaches-trans b best r h (inr k) = inr (order.lt_trans (price r) (price b) (price best) k h)

  foldl-cheaper :
      (best r : MonthBucket F) (bs : List (MonthBucket F))
      → foldl cheaper (some best) bs ≡ some r
      → Reaches best r × All (λ b. n.lt (price b) (price r) ≡ false) bs
  unfolding Reaches
  foldl-cheaper best r [] h = (inl (some-injective _ _ h), tt)
  foldl-cheaper best r (b ∷ bs) h = elim (Bool-cases (n.lt (price b) (price best))) [
    | inl e ↦
        let (reaches, all) = foldl-cheaper b r bs (rw e at h) in
        (Reaches-trans b best r e reaches, (Reaches-not_lt b r reaches, all))
    | inr e ↦
        let (reaches, all) = foldl-cheaper best r bs (rw e at h) in
        (reaches, (not_cheaper b best r e reaches, all))
  ]

  -- Under an order of the prices, no other month with a price costs less per kWh than the month that
  -- the comparison picks as the cheapest.
  pub cheapest_other-least :
      (buckets : List (MonthBucket F)) (period : Text) (best : MonthBucket F)
      → cheapest_other buckets period ≡ some best
      → All
          (λ b. n.lt (price b) (price best) ≡ false)
          (filter_by (λ b. is_some b.effective && not (text_eq b.period period)) buckets)
  unfolding cheapest_other
  cheapest_other-least buckets period best h = least _ h
    where
      least :
          (bs : List (MonthBucket F))
          → foldl cheaper none bs ≡ some best
          → All (λ b. n.lt (price b) (price best) ≡ false) bs
      least [] e = tt
      least (b ∷ bs) e =
          let (reaches, all) = foldl-cheaper b best bs e in (Reaches-not_lt b best reaches, all)
