-- ===== src/Metrics/Excess.antt =====
-- The running excess of `cumulativeExcess`: its points, as months are added.
use energlens.Common.{
  suc, ◌≡◌, refl, ap, Bool, true, false, some, List, [], ◌∷◌, ◌++◌, length, take, find, is_some,
  Bool-cases, inl, inr, arith,
}
use energlens.Number.{Number}
use energlens.Bills.{round}
use energlens.Months.{MonthBucket}
use energlens.Metrics.Trends.{excess, excess_loop, cumulative_excess}

find-append {ℓ} :
    {A : Type ℓ} (p : A → Bool) (xs ys : List A) (x : A)
    → find p xs ≡ some x
    → find p (xs ++ ys) ≡ some x
find-append p [] ys x h = absurd (ground arith)
find-append p (y ∷ xs) ys x h = elim (Bool-cases (p y)) [
  | inl e ↦ rw e (found e h)
  | inr e ↦ rw e (find-append p xs ys x (skipped e h))
]
  where
    found : p y ≡ true → find p (y ∷ xs) ≡ some x → some y ≡ some x
    found e h = ground arith

    skipped : p y ≡ false → find p (y ∷ xs) ≡ some x → find p xs ≡ some x
    skipped e h = ground arith

module _ {F : Type 0} ⦃n : Number F⦄ where
  abbrev pub priced : MonthBucket F → Bool
  priced b = is_some b.effective

  take-excess_loop :
      (baseline running : F) (xs ys : List (MonthBucket F))
      → take (length xs) (excess_loop baseline running (xs ++ ys)) ≡ excess_loop baseline running xs
  unfolding excess_loop
  take-excess_loop baseline running [] ys = refl
  take-excess_loop baseline running (x ∷ xs) ys =
      ap (λ rest. record { period = x.period; value = round (excess baseline x running) 2 } ∷ rest)
        (take-excess_loop baseline (excess baseline x running) xs ys)

  length-excess_loop :
      (baseline running : F) (xs : List (MonthBucket F))
      → length (excess_loop baseline running xs) ≡ length xs
  unfolding excess_loop
  length-excess_loop baseline running [] = refl
  length-excess_loop baseline running (x ∷ xs) =
      ap suc (length-excess_loop baseline (excess baseline x running) xs)

  cumulative_excess-eq :
      (xs : List (MonthBucket F)) (first : MonthBucket F) (price : F)
      → find priced xs ≡ some first
      → first.effective ≡ some price
      → cumulative_excess xs ≡ excess_loop price (n.lit 0 0) xs
  unfolding cumulative_excess
  cumulative_excess-eq xs first price h e = rw (cumulative_excess, h, e) refl

  -- Months that come later leave the points drawn so far as they are, if there is a price among the
  -- months before; and there is a point for every month.
  pub cumulative_excess-append :
      (xs ys : List (MonthBucket F)) (first : MonthBucket F) (price : F)
      → find priced xs ≡ some first
      → first.effective ≡ some price
      → (take (length xs) (cumulative_excess (xs ++ ys)) ≡ cumulative_excess xs)
        × (length (cumulative_excess (xs ++ ys)) ≡ length (xs ++ ys))
  cumulative_excess-append xs ys first price h e =
      rw
        (
          cumulative_excess-eq xs first price h e,
          cumulative_excess-eq (xs ++ ys) first price (find-append priced xs ys first h) e,
        )
        (take-excess_loop price (n.lit 0 0) xs ys, length-excess_loop price (n.lit 0 0) (xs ++ ys))
