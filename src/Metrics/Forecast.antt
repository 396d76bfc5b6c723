-- ===== src/Metrics/Forecast.antt =====
-- Every point of `forecast`, by its place.
use energlens.Common.{
  ℕ, zero, suc, ◌-◌, ◌≤◌, ◌≡◌, refl, sym, ap, ◌∙◌, ◌⊎◌, inl, inr, true, none, List, [], ◌∷◌, ◌++◌,
  if◌then◌else◌, is_some, length, filter_by, drop, get_elem?, last_n, last_of, ltb, length-append,
  Bool-cases, arith,
}
use mathlib.Core.Path.{subst}
use energlens.Number.{Number}
use energlens.Calendar.{next_month}
use energlens.Months.{MonthBucket}
use energlens.Metrics.Trends.{Point, price_of, forecast_loop, drift_of, forecast_of, forecast}
use energlens.Metrics.Outlook.{outlook_at, get_elem?-forecast_loop, length-forecast_loop}

drop-append {ℓ} : {A : Type ℓ} (xs ys : List A) → drop (length xs) (xs ++ ys) ≡ ys
drop-append [] ys = refl
drop-append (x ∷ xs) ys = drop-append xs ys

last_of-append {ℓ} :
    {A : Type ℓ} (x y : A) (xs ys : List A) → last_of x (xs ++ (y ∷ ys)) ≡ last_of y ys
last_of-append x y [] ys = refl
last_of-append x y (z ∷ xs) ys = last_of-append z y xs ys

get_elem?-beyond {ℓ} : {A : Type ℓ} (xs : List A) (i : ℕ) → length xs ≤ i → get_elem? xs i ≡ none
get_elem?-beyond [] i h = refl
get_elem?-beyond (x ∷ xs) zero h = absurd (omega arith)
get_elem?-beyond (x ∷ xs) (suc i) h = get_elem?-beyond xs i (omega arith)

module _ {F : Type 0} ⦃n : Number F⦄ where
  -- The last four of the priced months, or all of them if there are fewer, two at least.
  pub record IsWindow (priced older : List (MonthBucket F)) (first second : MonthBucket F)
      (rest : List (MonthBucket F)) : Type 0 where
    pub split : priced ≡ older ++ (first ∷ (second ∷ rest))
    pub at_most : length rest ≤ 2
    pub no_more : (length rest ≡ 2) ⊎ (older ≡ [])

  last_n-window :
      (older ws : List (MonthBucket F))
      → length ws ≤ 4
      → (length ws ≡ 4) ⊎ (older ≡ [])
      → last_n 4 (older ++ ws) ≡ ws
  last_n-window older ws h (inl e) =
      let cut : length (older ++ ws) - 4 ≡ length older = omega (arith, length-append older ws) in
      ap (λ k. drop k (older ++ ws)) cut ∙ drop-append older ws
  last_n-window older ws h (inr e) =
      let cut : length ws - 4 ≡ 0 = omega arith in rw e (ap (λ k. drop k ws) cut)

  -- The loop that `forecast` runs on its window.
  abbrev window_loop : List (MonthBucket F) → ℕ → MonthBucket F → MonthBucket F → ℕ → List (Point F)
  window_loop buckets count first latest steps =
      forecast_loop buckets (n.div (n.sub (price_of latest) (price_of first)) (n.lit steps 0)) count
        (latest.year, latest.month) (price_of latest)

  drift_of-window :
      (first second : MonthBucket F) (rest : List (MonthBucket F))
      → drift_of (first ∷ second ∷ rest)
        ≡ n.div
            (n.sub (price_of (last_of second rest)) (price_of first))
            (n.lit (suc (length rest)) 0)
  unfolding drift_of
  drift_of-window first second rest =
      let steps : ltb 0 (suc (length rest)) ≡ true = ground arith in rw (drift_of, steps) refl

  forecast_of-cons :
      (buckets : List (MonthBucket F)) (count : ℕ) (p q : MonthBucket F) (qs : List (MonthBucket F))
      (first second : MonthBucket F) (rest : List (MonthBucket F))
      → last_n 4 (p ∷ q ∷ qs) ≡ first ∷ second ∷ rest
      → last_of q qs ≡ last_of second rest
      → forecast_of (p ∷ q ∷ qs) buckets count
        ≡ window_loop buckets count first (last_of second rest) (suc (length rest))
  unfolding forecast_of
  forecast_of-cons buckets count p q qs first second rest window latest =
      ap
        (λ w.
          forecast_loop buckets (drift_of w) count ((last_of q qs).year, (last_of q qs).month)
            (price_of (last_of q qs)))
        window
      ∙ ap
          (λ d.
            forecast_loop buckets d count ((last_of q qs).year, (last_of q qs).month)
              (price_of (last_of q qs)))
          (drift_of-window first second rest)
      ∙ ap
          (λ b.
            forecast_loop buckets
              (n.div (n.sub (price_of (last_of second rest)) (price_of first))
                (n.lit (suc (length rest)) 0))
              count (b.year, b.month) (price_of b))
          latest

  forecast_of-window :
      (buckets older : List (MonthBucket F)) (first second : MonthBucket F)
      (rest : List (MonthBucket F)) (count : ℕ)
      → length rest ≤ 2
      → (length rest ≡ 2) ⊎ (older ≡ [])
      → forecast_of (older ++ (first ∷ (second ∷ rest))) buckets count
        ≡ window_loop buckets count first (last_of second rest) (suc (length rest))
  forecast_of-window buckets older first second rest count h k =
      by_older older (last_n-window older (first ∷ second ∷ rest) (omega arith) (four k))
    where
      four : (length rest ≡ 2) ⊎ (older ≡ []) → (suc (suc (length rest)) ≡ 4) ⊎ (older ≡ [])
      four (inl e) = inl (omega arith)
      four (inr e) = inr e

      by_older :
          (os : List (MonthBucket F))
          → last_n 4 (os ++ (first ∷ (second ∷ rest))) ≡ first ∷ second ∷ rest
          → forecast_of (os ++ (first ∷ (second ∷ rest))) buckets count
            ≡ window_loop buckets count first (last_of second rest) (suc (length rest))
      by_older [] w = forecast_of-cons buckets count first second rest first second rest w refl
      by_older (o ∷ []) w =
          forecast_of-cons buckets count o first (second ∷ rest) first second rest w refl
      by_older (o ∷ p ∷ os) w =
          forecast_of-cons buckets count o p (os ++ (first ∷ (second ∷ rest))) first second rest w
            (last_of-append p first os (second ∷ rest))

  -- The priced months end in a window of the last four of them, or of all where there are two or three.
  -- The price is carried on from the latest of them by the drift, the mean step of the price from the
  -- first month of the window to the latest. The forecast has one point for each of the next `count` months,
  -- in order and dated by them, of that price times the kWh of the same month a year before; it stops
  -- before the first month for which these kWh are not known, and only there.
  pub get_elem?-forecast :
      (buckets older : List (MonthBucket F)) (first second : MonthBucket F)
      (rest : List (MonthBucket F)) (count i : ℕ)
      → IsWindow (filter_by (λ b. is_some b.effective) buckets) older first second rest
      → let latest = last_of second rest in
        let drift =
          n.div (n.sub (price_of latest) (price_of first)) (n.lit (suc (length rest)) 0) in
        (get_elem? (forecast buckets count) i ≡ (
          if ltb i count
          then outlook_at buckets drift
              (next_month (latest.year, latest.month))
              (n.add (price_of latest) drift)
              i
          else none))
        × (length (forecast buckets count) ≤ count)
  unfolding forecast
  get_elem?-forecast buckets older first second rest count i w =
      let latest = last_of second rest in
      let drift = n.div (n.sub (price_of latest) (price_of first)) (n.lit (suc (length rest)) 0) in
      let at : ℕ × ℕ = (latest.year, latest.month) in
      let loop : forecast buckets count
          ≡ window_loop buckets count first latest (suc (length rest)) =
        ap (λ ps. forecast_of ps buckets count) w.split
        ∙ forecast_of-window buckets older first second rest count w.at_most w.no_more in
      let fits = length-forecast_loop buckets drift count at (price_of latest) in
      (
        ap (λ out. get_elem? out i) loop ∙ elim (Bool-cases (ltb i count)) [
          | inl e ↦
              rw e
                (get_elem?-forecast_loop buckets drift count i at (price_of latest) (ground arith))
          | inr e ↦ rw e (get_elem?-beyond _ i (ground arith))
        ],
        subst (λ out. length out ≤ count) (sym loop) fits,
      )
