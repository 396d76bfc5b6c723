-- ===== src/Metrics/Windows.antt =====
-- `delta`, `windowTotals`, `trailingComparison` and `yoyDelta`.
use energlens.Common.{
  ℕ, zero, suc, ◌+◌, ◌-◌, ◌*◌, ◌≤◌, ◌≡◌, refl, ap, ◌∙◌, ◌↔◌, ◌⊎◌, Bool, ◌||◌, Option, none, some,
  List, [], ◌∷◌, ◌++◌, Text, text_eq, codes, if◌then◌else◌, ltb, or_else, is_some, length, foldl,
  filter_by, find, last_n, before_last_n, take, drop, arith, inl, inr, length-drop, length-take,
  take-append-drop, min, of_ℕ, pad_zeros,
}
use energlens.Number.{Number}
use energlens.Calendar.{period_key, days_in_month}
use energlens.Bills.{pct_change, round}
use energlens.Months.{MonthBucket}

pub record Delta (F : Type 0) : Type 0 where
  pub abs : Option F
  pub pct : Option F

abbrev pub no_delta : {F : Type 0} → Delta F
no_delta = record { abs = none; pct = none }

pub record WindowTotals (F : Type 0) : Type 0 where
  pub months : ℕ
  pub cost : F
  pub kwh : Option F
  pub effective : Option F
  pub per_day : Option F

pub record TrailingComparison (F : Type 0) : Type 0 where
  pub current : WindowTotals F
  pub prior : WindowTotals F
  pub partial : Bool
  pub cost : Delta F
  pub kwh : Delta F
  pub effective : Delta F

-- `periodKey(year - 1, month)`. Before the year 0 the key is that of "-1".
unfoldable pub key_of_year_before : ℕ → ℕ → Text
key_of_year_before zero month = codes "00-1-" ++ pad_zeros 2 (of_ℕ month)
key_of_year_before (suc year) month = period_key year month

module _ {F : Type 0} ⦃n : Number F⦄ where
  open n use {lit, add, sub, div, lt}

  unfoldable pub delta : Option F → Option F → Delta F
  delta (some prior) (some current) = record {
    abs = some (sub current prior);
    pct = pct_change prior current;
  }
  delta _ _ = no_delta

  -- `reduce((sum, b) => sum + f(b), 0)`
  abbrev pub sum_by : {A : Type 0} → (A → F) → List A → F
  sum_by f xs = foldl (λ sum b. add sum (f b)) (lit 0 0) xs

  abbrev count_days : List (MonthBucket F) → ℕ
  count_days [] = 0
  count_days (b ∷ bs) = days_in_month b.year b.month + count_days bs

  unfoldable pub window_totals : List (MonthBucket F) → WindowTotals F
  window_totals buckets =
      let cost = sum_by (λ b. b.cost) buckets in
      let with_kwh = filter_by (λ b. is_some b.kwh) buckets in
      let kwh : Option F =
        if ltb 0 (length with_kwh)
        then some (sum_by (λ b. or_else b.kwh (lit 0 0)) with_kwh)
        else none in
      let days = count_days buckets in
      record {
        months = length buckets;
        cost = round cost 2;
        kwh = elim kwh [ none ↦ none | some k ↦ some (round k 2) ];
        effective = elim kwh [
          | none ↦ none
          | some k ↦ if lt (lit 0 0) k then some (round (div cost k) 4) else none
        ];
        per_day = if ltb 0 days then some (round (div cost (lit days 0)) 2) else none;
      }

  unfoldable pub trailing_comparison : List (MonthBucket F) → ℕ → TrailingComparison F
  trailing_comparison buckets size =
      let c = window_totals (last_n size buckets) in
      let p = window_totals (before_last_n size buckets) in
      record {
        current = c;
        prior = p;
        partial = ltb c.months size || ltb p.months size;
        cost = delta (some p.cost) (some c.cost);
        kwh = delta p.kwh c.kwh;
        effective = delta p.effective c.effective;
      }

  unfoldable pub yoy_delta : List (MonthBucket F) → Text → (MonthBucket F → Option F) → Delta F
  yoy_delta buckets period pick = elim (find (λ b. text_eq b.period period) buckets) [
    | none ↦ no_delta
    | some current ↦
        let key = key_of_year_before current.year current.month in
        elim (find (λ b. text_eq b.period key) buckets) [
          | none ↦ no_delta
          | some prior ↦ delta (pick prior) (pick current)
        ]
  ]

-- Two slices of a list that meet.
drop-split {ℓ} :
    {A : Type ℓ} (i j : ℕ) (xs : List A) → i ≤ j → drop i (take j xs) ++ drop j xs ≡ drop i xs
drop-split zero j xs h = take-append-drop j xs
drop-split (suc i) (suc j) [] h = refl
drop-split (suc i) (suc j) (x ∷ xs) h = drop-split i j xs (omega arith)
drop-split (suc i) zero xs h = absurd (omega arith)

length-window :
    {A : Type 0} (i j : ℕ) (xs : List A) → length (drop i (take j xs)) ≡ min j (length xs) - i
length-window i j xs = omega (arith, length-drop i (take j xs), length-take j xs)

last_n-eq :
    {A : Type 0} (size : ℕ) (xs : List A) → 1 ≤ size → last_n size xs ≡ drop (length xs - size) xs
last_n-eq zero xs h = absurd (omega arith)
last_n-eq (suc size) xs h = ground arith

before_last_n-eq :
    {A : Type 0} (size : ℕ) (xs : List A)
    → 1 ≤ size
    → before_last_n size xs ≡ drop (length xs - 2 * size) (take (length xs - size) xs)
before_last_n-eq zero xs h = absurd (omega arith)
before_last_n-eq (suc size) xs h = ground arith

-- The months are split into older ones, the window before and the latest window, in their order and
-- with none left out. `current` holds the totals of the latest months that are there, up to `size`,
-- `prior` those of the months right before them, again up to `size`; the three changes go from `prior` to
-- `current`; and the comparison is partial exactly if fewer than `2 * size` months are there.
pub trailing_comparison-windows :
    {F : Type 0} ⦃n : Number F⦄ (buckets : List (MonthBucket F)) (size : ℕ)
    → 1 ≤ size
    → let r = trailing_comparison buckets size in
      (older : List (MonthBucket F)) × (before : List (MonthBucket F)) × (latest : List
        (MonthBucket F))
      × (older ++ (before ++ latest) ≡ buckets)
      × (length latest ≡ min size (length buckets))
      × (length before ≡ min size (length buckets - size))
      × (r.current ≡ window_totals latest)
      × (r.prior ≡ window_totals before)
      × (r.cost ≡ delta (some r.prior.cost) (some r.current.cost))
      × (r.kwh ≡ delta r.prior.kwh r.current.kwh)
      × (r.effective ≡ delta r.prior.effective r.current.effective)
      × (r.partial ≡ ltb (length buckets) (2 * size))
unfolding trailing_comparison window_totals
trailing_comparison-windows buckets size h =
    let total = length buckets in
    let now : length (last_n size buckets) ≡ min size total =
      ap length (last_n-eq size buckets h) ∙ omega (arith, length-drop (total - size) buckets) in
    let before : length (before_last_n size buckets) ≡ min size (total - size) =
      ap length (before_last_n-eq size buckets h)
      ∙ omega (arith, length-window (total - 2 * size) (total - size) buckets) in
    (
      take (total - 2 * size) buckets,
      before_last_n size buckets,
      last_n size buckets,
      rw (last_n-eq size buckets h, before_last_n-eq size buckets h)
          (ap (λ end. take (total - 2 * size) buckets ++ end)
              (drop-split (total - 2 * size) (total - size) buckets (omega arith))
            ∙ take-append-drop (total - 2 * size) buckets),
      now,
      before,
      refl,
      refl,
      refl,
      refl,
      refl,
      rw (now, before) (ground arith),
    )

-- A change is null exactly if one of the two sides is.
pub delta-null :
    {F : Type 0} ⦃n : Number F⦄ (prior current : Option F)
    → ((delta prior current).abs ≡ none) ↔ ((prior ≡ none) ⊎ (current ≡ none))
unfolding delta
delta-null none current = ((λ h. inl refl), (λ h. refl))
delta-null (some p) none = ((λ h. inr refl), (λ h. refl))
delta-null (some p) (some c) = ((λ h. absurd (ground arith)), (λ h. absurd (ground arith)))
