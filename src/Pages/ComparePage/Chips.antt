-- ===== src/Pages/ComparePage/Chips.antt =====
-- The year chips of the compare page: the guard on the last one.
use energlens.Common.{
  ℕ, ◌+◌, ◌≤◌, ◌≡◌, refl, ap, ◌∙◌, Bool, true, false, not, ◌&&◌, ◌||◌, List, [], ◌∷◌, ◌++◌, map,
  if◌then◌else◌, ◌==◌, ==_iff, filter_by, length, arith, Bool-cases, inl, inr, text_lt, of_ℕ,
}
use energlens.Common.Sort.{sort, insert_sorted}
use energlens.Common.{Text}
use energlens.Compare.{MetricDescriptor, ChartTokens}
use energlens.Pages.Periods.{in_window, range_months}
use energlens.Number.{Number}
use energlens.Months.{MonthBucket}
use energlens.Compare.Years.{unique, includes, available_years, selected_years}
use energlens.Pages.ComparePage.{chosen_years, chip_disabled, toggle_year, input_of, Choice}

-- How often a year is in a list.
count : ℕ → List ℕ → ℕ
count y [] = 0
count y (x ∷ xs) = (if x == y then 1 else 0) + count y xs

count-insert_sorted :
    (before : ℕ → ℕ → Bool) (y x : ℕ) (xs : List ℕ)
    → count y (insert_sorted before x xs) ≡ count y (x ∷ xs)
unfolding count
count-insert_sorted before y x [] = refl
count-insert_sorted before y x (z ∷ zs) = ground (arith, count-insert_sorted before y x zs)

count-sort : (before : ℕ → ℕ → Bool) (y : ℕ) (xs : List ℕ) → count y (sort before xs) ≡ count y xs
unfolding count
count-sort before y [] = refl
count-sort before y (x ∷ xs) =
    count-insert_sorted before y x (sort before xs)
    ∙ ap (λ k. (if x == y then 1 else 0) + k) (count-sort before y xs)

count-unique :
    (seen : List ℕ) (y : ℕ) (xs : List ℕ)
    → count y (unique seen xs) + (if includes seen y then 1 else 0) ≤ 1
unfolding count
count-unique seen y [] = ground arith
count-unique seen y (x ∷ xs) =
    ground (arith, count-unique seen y xs, count-unique (x ∷ seen) y xs, ==_iff x y)

module _ {F : Type 0} ⦃n : Number F⦄ where
  count-available_years :
      (buckets : List (MonthBucket F)) (y : ℕ) → count y (available_years buckets) ≤ 1
  unfolding available_years
  count-available_years buckets y =
      let years = map (λ b. b.year) buckets in
      let sorted = count-sort (λ a b. text_lt (of_ℕ a) (of_ℕ b)) y (unique [] years) in
      omega (arith, sorted, count-unique [] y years)

includes-append :
    (ex : List ℕ) (y x : ℕ) → includes (ex ++ (y ∷ [])) x ≡ (includes ex x || (y == x))
includes-append [] y x = ground arith
includes-append (e ∷ ex) y x = ground (arith, includes-append ex y x)

includes-filter_by :
    (p : ℕ → Bool) (xs : List ℕ) (y : ℕ) → includes (filter_by p xs) y ≡ (includes xs y && p y)
includes-filter_by p [] y = refl
includes-filter_by p (x ∷ xs) y = elim (Bool-cases (x == y)) [
  | inl e ↦ let same : x ≡ y = ground arith in rw same (ground (arith, includes-filter_by p xs y))
  | inr e ↦ ground (arith, includes-filter_by p xs y)
]

-- One more excluded year takes at most its own chips away.
chosen_years-append :
    (available ex : List ℕ) (y : ℕ)
    → length (chosen_years available ex)
      ≤ length (chosen_years available (ex ++ (y ∷ []))) + count y available
unfolding chosen_years count
chosen_years-append [] ex y = omega arith
chosen_years-append (x ∷ xs) ex y =
    rw (includes-append ex y x)
      (ground (arith, chosen_years-append xs ex y, ==_iff x y, ==_iff y x))

-- One less takes none away.
chosen_years-filter_by :
    (available ex : List ℕ) (p : ℕ → Bool)
    → length (chosen_years available ex) ≤ length (chosen_years available (filter_by p ex))
unfolding chosen_years
chosen_years-filter_by [] ex p = omega arith
chosen_years-filter_by (x ∷ xs) ex p =
    rw (includes-filter_by p ex x) (ground (arith, chosen_years-filter_by xs ex p))

pressed_chip :
    (available ex : List ℕ) (y : ℕ)
    → includes available y ≡ true
    → includes ex y ≡ false
    → includes (chosen_years available ex) y ≡ true
unfolding chosen_years
pressed_chip available ex y chip e =
    rw (includes-filter_by (λ x. not (includes ex x)) available y, chip, e) refl

several_chosen :
    (selected : List ℕ) (y : ℕ)
    → includes selected y ≡ true
    → chip_disabled selected y ≡ false
    → 1 ≤ length selected
    → 2 ≤ length selected
unfolding chip_disabled
several_chosen selected y pressed enabled some_left = ground arith

toggle_year-chosen :
    (available ex : List ℕ) (y : ℕ)
    → count y available ≤ 1
    → includes available y ≡ true
    → chip_disabled (chosen_years available ex) y ≡ false
    → 1 ≤ length (chosen_years available ex)
    → 1 ≤ length (chosen_years available (toggle_year y ex))
unfolding toggle_year chip_disabled
toggle_year-chosen available ex y once chip enabled some_left = elim (Bool-cases (includes ex y)) [
  | inl e ↦ rw e (omega (arith, chosen_years-filter_by available ex (λ x. not (x == y))))
  | inr e ↦
      let pressed : includes (chosen_years available ex) y ≡ true =
        pressed_chip available ex y chip e in
      let several : 2 ≤ length (chosen_years available ex) =
        several_chosen (chosen_years available ex) y pressed enabled some_left in
      rw e (omega (arith, chosen_years-append available ex y))
]

-- Clicks on the chips that are there and enabled, from one list of excluded years to another.
pub data Clicks (available : List ℕ) : List ℕ → List ℕ → Type 0 where
  rests : {ex : List ℕ} → Clicks available ex ex
  clicks :
      {ex later : List ℕ} (y : ℕ)
      → includes available y ≡ true
      → chip_disabled (chosen_years available ex) y ≡ false
      → Clicks available (toggle_year y ex) later
      → Clicks available ex later

-- However the chips are clicked while the months shown stay the same, at least one year stays selected.
pub chosen_years-Clicks :
    {F : Type 0} ⦃n : Number F⦄ (buckets : List (MonthBucket F)) {ex later : List ℕ}
    → Clicks (available_years buckets) ex later
    → 1 ≤ length (chosen_years (available_years buckets) ex)
    → 1 ≤ length (chosen_years (available_years buckets) later)
chosen_years-Clicks buckets rests some_left = some_left
chosen_years-Clicks buckets {ex = ex} (clicks y chip enabled rest) some_left =
    chosen_years-Clicks buckets rest (
      toggle_year-chosen (available_years buckets) ex y (count-available_years buckets y) chip
        enabled some_left)

-- The years that are drawn for the pressed chips.
abbrev pub or_all : List ℕ → List ℕ → List ℕ
or_all [] available = available
or_all (y ∷ ys) available = y ∷ ys

includes-head : (x : ℕ) (xs : List ℕ) → includes (x ∷ xs) x ≡ true
includes-head x xs = ground arith

AllIn : List ℕ → List ℕ → Type 0
AllIn available xs = (y : ℕ) → includes xs y ≡ true → includes available y ≡ true

filter_by-AllIn :
    (available xs : List ℕ) → AllIn available xs → filter_by (includes available) xs ≡ xs
unfolding AllIn
filter_by-AllIn available [] h = refl
filter_by-AllIn available (x ∷ xs) h =
    rw (h x (includes-head x xs))
      (ap (◌∷◌ x) (filter_by-AllIn available xs (λ y k. h y (ground (arith, k)))))

chosen_years-AllIn : (available ex : List ℕ) → AllIn available (chosen_years available ex)
unfolding AllIn chosen_years
chosen_years-AllIn available ex y h =
    let both = rw (includes-filter_by (λ x. not (includes ex x)) available y) at h in ground arith

or_all-AllIn : (available xs : List ℕ) → AllIn available xs → AllIn available (or_all xs available)
unfolding AllIn
or_all-AllIn available [] h = λ y k. k
or_all-AllIn available (x ∷ xs) h = h

-- The overlay of the years draws the years whose chips are pressed; if no chip is pressed, as when the
-- range is changed to months whose years are all excluded, it draws every year there is.
pub selected_years-input_of :
    {F : Type 0} ⦃n : Number F⦄ (c : Choice) (metric : MetricDescriptor F) (tokens : ChartTokens)
    (currency : Text) (is_mini : Bool) (all_buckets : List (MonthBucket F))
    → selected_years (input_of c metric tokens currency is_mini all_buckets)
      ≡ or_all
          (chosen_years
            (available_years (in_window (range_months c.range) all_buckets))
            c.excluded_years)
          (available_years (in_window (range_months c.range) all_buckets))
unfolding selected_years
selected_years-input_of c metric tokens currency is_mini all_buckets =
    let available = available_years (in_window (range_months c.range) all_buckets) in
    filter_by-AllIn available (or_all (chosen_years available c.excluded_years) available) (
      or_all-AllIn available (chosen_years available c.excluded_years)
        (chosen_years-AllIn available c.excluded_years))
