-- ===== src/Axis.antt =====
-- Axis domains and ticks, frontend/src/lib/axis.ts.
use energlens.Common.{
  ℕ, zero, suc, ◌+◌, false, not, ◌||◌, Option, some, List, [], ◌∷◌, ◌++◌, map, foldl, filter_by,
  filter_map, if◌then◌else◌, get_elem?, ◌≡◌, ◌∙◌, ap, ◌<◌, ◌≤◌, arith,
}
use energlens.Number.{Number}

pub record Domain (F : Type 0) : Type 0 where
  pub min : F
  pub max : F
  pub ticks : List F
  pub step : F

module _ {F : Type 0} ⦃n : Number F⦄ where
  open n use {
    lit, add, sub, mul, div, neg, abs, floor, ceil, round_half, log10, pow10, lt, le, eq, is_finite,
    precision12, to_ℕ,
  }

  -- `Math.max(...xs, x)` and `Math.min(...xs, x)`, away from NaN
  abbrev pub max_of : F → List F → F
  max_of x xs = foldl (λ a b. if lt a b then b else a) x xs

  abbrev pub min_of : F → List F → F
  min_of x xs = foldl (λ a b. if lt b a then b else a) x xs

  -- The factor of the ladder 1, 2, 5, 10 that a normalised step is raised to.
  unfoldable pub ladder : F → F
  ladder x =
      if le x (lit 1 0)
      then lit 1 0
      else if le x (lit 2 0)
      then lit 2 0
      else if le x (lit 5 0)
      then lit 5 0
      else lit 10 0

  unfoldable pub nice_step : F → F → F
  nice_step span target =
      let rough = div span (max_of (lit 1 0) (target ∷ [])) in
      let magnitude = pow10 (floor (log10 rough)) in
      if not (is_finite span) || le span (lit 0 0)
      then lit 1 0
      else mul (ladder (div rough magnitude)) magnitude

  -- The ticks of rounds i to i + left - 1.
  unfoldable pub ticks_from : F → F → ℕ → ℕ → List F
  ticks_from min step zero i = []
  ticks_from min step (suc left) i =
      precision12 (add min (mul (lit i 0) step)) ∷ ticks_from min step left (suc i)

  unfoldable pub ticks_between : F → F → F → List F
  ticks_between min max step =
      let count = round_half (div (sub max min) step) in
      if lt count (lit 0 0) then [] else ticks_from min step (suc (to_ℕ count)) 0

  -- `finite(values)`
  unfoldable pub finite : List (Option F) → List F
  finite values = filter_by is_finite (filter_map (λ v. v) values)

  abbrev unit_domain : Domain F
  unit_domain = record {
    min = lit 0 0;
    max = lit 1 0;
    ticks = lit 0 0 ∷ lit 1 0 ∷ [];
    step = lit 1 0;
  }

  -- The bounds on multiples of the step, as both domains below compute them.
  abbrev pub bounds : F → F → F → Domain F
  bounds low high step =
      let min = mul (floor (div low step)) step in
      let max = add min (mul (ceil (div (sub high min) step)) step) in
      let top = if eq max min then add min step else max in
      record { min = min; max = top; ticks = ticks_between min top step; step = step }

  unfoldable pub zero_based_domain : List (Option F) → F → Domain F
  zero_based_domain values target = elim (finite values) [
    | [] ↦ unit_domain
    | x ∷ xs ↦
        let data_max = max_of x (xs ++ (lit 0 0 ∷ [])) in
        let data_min = min_of x (xs ++ (lit 0 0 ∷ [])) in
        bounds data_min data_max (nice_step (sub data_max data_min) target)
  ]

  unfoldable pub padded_domain : List (Option F) → F → F → Domain F
  padded_domain values target pad_fraction = elim (finite values) [
    | [] ↦ unit_domain
    | x ∷ xs ↦
        let data_max = max_of x xs in
        let base = mul (min_of x xs) (sub (lit 1 0) pad_fraction) in
        bounds base data_max (nice_step (sub data_max base) target)
  ]

  abbrev peak_of : List F → F
  peak_of [] = lit 0 0
  peak_of (x ∷ xs) = max_of (abs x) (map abs xs)

  unfoldable pub symmetric_domain : List (Option F) → F → Domain F
  symmetric_domain values target =
      let peak = peak_of (finite values) in
      let step = nice_step (mul peak (lit 2 0)) target in
      let bound = mul (ceil (div peak step)) step in
      if eq peak (lit 0 0)
      then record {
        min = neg (lit 1 0);
        max = lit 1 0;
        ticks = neg (lit 1 0) ∷ lit 0 0 ∷ lit 1 0 ∷ [];
        step = lit 1 0;
      }
      else record {
        min = neg bound;
        max = bound;
        ticks = ticks_between (neg bound) bound step;
        step = step;
      }

module _ {F : Type 0} ⦃n : Number F⦄ where
  ticks_from-get :
      (min step : F) (left i k : ℕ)
      → k < left
      → get_elem? (ticks_from min step left i) k
        ≡ some (n.precision12 (n.add min (n.mul (n.lit (i + k) 0) step)))
  unfolding ticks_from
  ticks_from-get min step zero i k h = absurd (omega arith)
  ticks_from-get min step (suc left) i zero h =
      ap (λ j. some (n.precision12 (n.add min (n.mul (n.lit j 0) step)))) (omega arith)
  ticks_from-get min step (suc left) i (suc k) h =
      ticks_from-get min step left (suc i) k (omega arith)
      ∙ ap (λ j. some (n.precision12 (n.add min (n.mul (n.lit j 0) step)))) (omega arith)

  -- If the count of steps is not negative, tick number k, up to that count, is the lower bound plus k
  -- steps, rounded once to 12 digits: no tick carries the rounding of the ticks before it.
  pub ticks_between-get :
      (min max step : F) (k : ℕ)
      → let count = n.round_half (n.div (n.sub max min) step) in
        n.lt count (n.lit 0 0) ≡ false
        → k ≤ n.to_ℕ (n.round_half (n.div (n.sub max min) step))
        → get_elem? (ticks_between min max step) k
          ≡ some (n.precision12 (n.add min (n.mul (n.lit k 0) step)))
  unfolding ticks_between
  ticks_between-get min max step k h fits = rw h (
      ticks_from-get min step _ 0 k (omega arith)
      ∙ ap (λ j. some (n.precision12 (n.add min (n.mul (n.lit j 0) step)))) (omega arith))
