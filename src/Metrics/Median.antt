-- ===== src/Metrics/Median.antt =====
-- The median stands in the middle of the values, whatever their order.
use mathlib.Core.Path.{subst}
use mathlib.Core.Option.{some-injective}
use energlens.Common.{
  ℕ, zero, suc, ◌+◌, ◌-◌, ◌/◌, ◌%◌, ◌≤◌, ◌<◌, ◌≡◌, refl, ap, ◌∙◌, Bool, false, some, List, [], ◌∷◌,
  All, All-get_elem?, length, get_elem?, if◌then◌else◌, ◌==◌, Bool-cases, inl, inr, arith,
}
use energlens.Common.Sort.{insert_sorted, sort, IsSorted, IsOrderOn, sort-IsSortedOn, All-sort}
use energlens.Number.{Number}
use energlens.Metrics.Tariff.{smaller, median, item}

module _ {ℓ} {A : Type ℓ} where
  -- How many of the values pass a test.
  abbrev pub count : (A → Bool) → List A → ℕ
  count p [] = 0
  count p (x ∷ xs) = (if p x then 1 else 0) + count p xs

  count-none : (p : A → Bool) (xs : List A) → All (λ x. p x ≡ false) xs → count p xs ≡ 0
  count-none p [] ps = refl
  count-none p (x ∷ xs) (h, ps) = rw (h, count-none p xs ps) refl

  count-le-length : (p : A → Bool) (xs : List A) → count p xs ≤ length xs
  count-le-length p [] = omega arith
  count-le-length p (x ∷ xs) = ground (arith, count-le-length p xs)

  module _ (before : A → A → Bool) where
    count-insert_sorted :
        (p : A → Bool) (x : A) (xs : List A)
        → count p (insert_sorted before x xs) ≡ count p (x ∷ xs)
    count-insert_sorted p x [] = refl
    count-insert_sorted p x (y ∷ ys) = elim (Bool-cases (before y x)) [
      | inl e ↦ rw e (ground (arith, count-insert_sorted p x ys))
      | inr e ↦ rw e refl
    ]

    count-sort : (p : A → Bool) (xs : List A) → count p (sort before xs) ≡ count p xs
    count-sort p [] = refl
    count-sort p (x ∷ xs) = omega (arith, count-insert_sorted p x (sort before xs), count-sort p xs)

    length-insert_sorted :
        (x : A) (xs : List A) → length (insert_sorted before x xs) ≡ suc (length xs)
    length-insert_sorted x [] = refl
    length-insert_sorted x (y ∷ ys) = elim (Bool-cases (before y x)) [
      | inl e ↦ rw e (ap suc (length-insert_sorted x ys))
      | inr e ↦ rw e refl
    ]

    length-sort : (xs : List A) → length (sort before xs) ≡ length xs
    length-sort [] = refl
    length-sort (x ∷ xs) = length-insert_sorted x (sort before xs) ∙ ap suc (length-sort xs)

    module _ (P : A → Type 0) (order : IsOrderOn before P) where
      before_irrefl : (x : A) → P x → before x x ≡ false
      before_irrefl x p = elim (Bool-cases (before x x)) [
        | inl e ↦ order.asymm x x p p e
        | inr e ↦ e
      ]

      -- In a sorted list at most k values come before the one at place k.
      count_before :
          (xs : List A) (k : ℕ) (m : A)
          → All P xs
          → IsSorted before xs
          → get_elem? xs k ≡ some m
          → count (λ x. before x m) xs ≤ k
      count_before [] k m ps s e = absurd (ground arith)
      count_before (x ∷ xs) zero m (p, ps) (low, s) e =
          subst (λ m. count (λ y. before y m) (x ∷ xs) ≤ 0) (some-injective _ _ e)
            (omega (
              arith,
              ap {B = ℕ} (λ (b : Bool). if b then 1 else 0) (before_irrefl x p),
              count-none (λ y. before y x) xs low,
            ))
      count_before (x ∷ xs) (suc k) m (p, ps) (low, s) e =
          ground (arith, count_before xs k m ps s e)

      -- And no more come after it than stand behind it.
      count_after :
          (xs : List A) (k : ℕ) (m : A)
          → All P xs
          → IsSorted before xs
          → get_elem? xs k ≡ some m
          → count (λ x. before m x) xs + k + 1 ≤ length xs
      count_after [] k m ps s e = absurd (ground arith)
      count_after (x ∷ xs) zero m (p, ps) (low, s) e =
          subst (λ m. count (λ y. before m y) (x ∷ xs) + 0 + 1 ≤ suc (length xs))
            (some-injective _ _ e)
            (omega (
              arith,
              ap {B = ℕ} (λ (b : Bool). if b then 1 else 0) (before_irrefl x p),
              count-le-length (λ y. before x y) xs,
            ))
      count_after (x ∷ xs) (suc k) m (p, ps) (low, s) e =
          let first : before m x ≡ false = All-get_elem? (λ y. before y x ≡ false) xs k m low e in
          ground (arith, first, count_after xs k m ps s e)

get_elem?-item :
    {F : Type 0} ⦃n : Number F⦄ (xs : List F) (i : ℕ)
    → i < length xs
    → get_elem? xs i ≡ some (item xs i)
get_elem?-item [] i h = absurd (omega arith)
get_elem?-item (x ∷ xs) zero h = refl
get_elem?-item (x ∷ xs) (suc i) h = get_elem?-item xs i (omega arith)

-- The two values in the middle, which are one if the count is odd.
pub record IsMiddle {F : Type 0} ⦃n : Number F⦄ (values : List F) (lo hi : F) : Type 0 where
  pub below_lo : count (λ x. smaller x lo) values ≤ (length values - 1) / 2
  pub above_lo : count (λ x. smaller lo x) values ≤ length values / 2
  pub below_hi : count (λ x. smaller x hi) values ≤ length values / 2
  pub above_hi : count (λ x. smaller hi x) values ≤ (length values - 1) / 2

module _ {F : Type 0} ⦃n : Number F⦄ (P : F → Type 0) (order : IsOrderOn (smaller {F = F}) P) where
  open n use {lit, add, div}

  -- At place k of the sorted values, k come before, and the rest but one behind.
  around :
      (values : List F) (k : ℕ)
      → All P values
      → k < length values
      → (count (λ x. smaller x (item (sort smaller values) k)) values ≤ k)
        × (count (λ x. smaller (item (sort smaller values) k) x) values + k + 1 ≤ length values)
  around values k ps h =
      let sorted = sort smaller values in
      let m = item sorted k in
      let s = sort-IsSortedOn smaller P order values ps in
      let kept = All-sort smaller P values ps in
      let size = length-sort smaller values in
      let at = get_elem?-item sorted k (omega arith) in
      (
        omega (
          arith,
          count_before smaller P order sorted k m kept s at,
          count-sort smaller (λ x. smaller x m) values,
        ),
        omega (
          arith,
          count_after smaller P order sorted k m kept s at,
          count-sort smaller (λ x. smaller m x) values,
        ),
      )

  middle :
      (s : List F) (size : ℕ)
      → 1 ≤ size
      → (if size % 2 == 0
          then some (div (add (item s (size / 2 - 1)) (item s (size / 2))) (lit 2 0))
          else some (item s (size / 2)))
        ≡ some (
            if size % 2 == 0
            then div (add (item s ((size - 1) / 2)) (item s (size / 2))) (lit 2 0)
            else item s ((size - 1) / 2))
  middle s size h = elim (Bool-cases (size % 2 == 0)) [
    | inl e ↦ let place : size / 2 - 1 ≡ (size - 1) / 2 = ground arith in rw (e, place) refl
    | inr e ↦ let place : (size - 1) / 2 ≡ size / 2 = ground arith in rw (e, place) refl
  ]

  -- The median of at least one value is the value in the middle: as many values are smaller as are
  -- greater, equal ones aside; for an even count it is the mean of the two in the middle. The
  -- comparator orders the values, as it does finite numbers.
  pub median-IsMiddle :
      (v : F) (vs : List F)
      → All P (v ∷ vs)
      → (lo : F) × (hi : F) × (median (v ∷ vs)
          ≡ some (if length (v ∷ vs) % 2 == 0 then div (add lo hi) (lit 2 0) else lo))
        × IsMiddle (v ∷ vs) lo hi
  unfolding median
  median-IsMiddle v vs ps =
      let values = v ∷ vs in
      let sorted = sort smaller values in
      let size = length-sort smaller values in
      let nonempty : (length values == 0) ≡ false = ground arith in
      let (a, b) = around values ((length values - 1) / 2) ps (omega arith) in
      let (c, d) = around values (length values / 2) ps (omega arith) in
      (
        item sorted ((length values - 1) / 2),
        item sorted (length values / 2),
        rw (size, nonempty) (middle sorted (length values) (omega arith)),
        record { below_lo = a; above_lo = omega arith; below_hi = c; above_hi = omega arith },
      )
