-- ===== src/Compare/Rows.antt =====
-- Which months the rows of `buildYoy` and `buildMom` set against each other.
use energlens.Common.{
  ℕ, zero, suc, ◌+◌, ◌-◌, ◌<◌, ◌≡◌, refl, ap, ◌∙◌, Option, some, List, [], ◌∷◌, length, get_elem?,
  take, drop, last_n, before_last_n, map_from, codes, arith,
}
use mathlib.Core.Option.{some-injective}
use energlens.Number.{Number}
use energlens.Months.{MonthBucket}
use energlens.Compare.{to_cell, chosen, CompareInput, label_cell, month_label}
use energlens.Compare.Modes.{yoy_row, build_yoy, mom_rows, build_mom, change, all_mom_rows}

get_elem?-drop {ℓ} :
    {A : Type ℓ} (k i : ℕ) (xs : List A) → get_elem? (drop k xs) i ≡ get_elem? xs (k + i)
get_elem?-drop zero i xs = ap (get_elem? xs) (omega arith)
get_elem?-drop (suc k) i [] = refl
get_elem?-drop (suc k) i (x ∷ xs) =
    get_elem?-drop k i xs ∙ ap (λ j. get_elem? (x ∷ xs) j) (step k i)
  where
    step : (k i : ℕ) → suc (k + i) ≡ suc k + i
    step k i = omega arith

get_elem?-take {ℓ} :
    {A : Type ℓ} (k i : ℕ) (xs : List A) → i < k → get_elem? (take k xs) i ≡ get_elem? xs i
get_elem?-take zero i xs h = absurd (omega arith)
get_elem?-take (suc k) i [] h = refl
get_elem?-take (suc k) zero (x ∷ xs) h = refl
get_elem?-take (suc k) (suc i) (x ∷ xs) h = get_elem?-take k i xs (omega arith)

pub get_elem?-map_from :
    {A B : Type 0} (f : ℕ → A → B) (j i : ℕ) (xs : List A) (x : A)
    → get_elem? xs i ≡ some x
    → get_elem? (map_from j f xs) i ≡ some (f (j + i) x)
get_elem?-map_from f j i [] x h = absurd (ground arith)
get_elem?-map_from f j zero (y ∷ xs) x h =
    ap (λ z. some (f j z)) (some-injective _ _ h) ∙ ap (λ k. some (f k x)) (omega arith)
get_elem?-map_from f j (suc i) (y ∷ xs) x h =
    get_elem?-map_from f (suc j) i xs x h ∙ ap (λ k. some (f k x)) (omega arith)

module _ {F : Type 0} ⦃n : Number F⦄ where
  -- Row i of the year over year chart sets the month at place `length - 12 + i` against the one at
  -- place `length - 24 + i`, where a subtraction stops at 0: with 24 months or more the two are
  -- twelve places apart, and with fewer only `length - 12`.
  pub build_yoy-rows :
      (input : CompareInput F) (i : ℕ) (b p : MonthBucket F)
      → (length input.buckets - 24) + i < length input.buckets - 12
      → get_elem? input.buckets ((length input.buckets - 12) + i) ≡ some b
      → get_elem? input.buckets ((length input.buckets - 24) + i) ≡ some p
      → get_elem? (build_yoy input).rows i
        ≡ some (
            (codes "x", label_cell (month_label b.month))
            ∷ (codes "current", to_cell (input.metric.select b))
            ∷ (codes "prior", to_cell (input.metric.select p))
            ∷ [])
  unfolding build_yoy yoy_row
  build_yoy-rows input i b p h e f =
      let buckets = input.buckets in
      let total = length buckets in
      let now : get_elem? (last_n 12 buckets) i ≡ some b =
        get_elem?-drop (total - 12) i buckets ∙ e in
      let before : get_elem? (before_last_n 12 buckets) i ≡ some p =
        get_elem?-drop (total - 24) i (take (total - 12) buckets)
        ∙ get_elem?-take (total - 12) ((total - 24) + i) buckets h
        ∙ f in
      get_elem?-map_from (yoy_row input.metric.select (before_last_n 12 buckets)) 0 i
        (last_n 12 buckets) b now
      ∙ ap (λ k. some (yoy_row input.metric.select (before_last_n 12 buckets) k b)) (omega arith)
      ∙ ap
          (λ o. some (
            (codes "x", label_cell (month_label b.month))
            ∷ (codes "current", to_cell (input.metric.select b))
            ∷ (codes "prior", to_cell (chosen input.metric.select o))
            ∷ []))
          before

  get_elem?-mom_rows :
      (select : MonthBucket F → Option F) (p : MonthBucket F) (bs : List (MonthBucket F)) (i : ℕ)
      (q b : MonthBucket F)
      → get_elem? (p ∷ bs) i ≡ some q
      → get_elem? bs i ≡ some b
      → get_elem? (mom_rows select p bs) i
        ≡ some (
            (codes "x", label_cell (month_label b.month))
            ∷ (codes "change", to_cell (change (select q) (select b)))
            ∷ [])
  unfolding mom_rows
  get_elem?-mom_rows select p [] i q b h e = absurd (ground arith)
  get_elem?-mom_rows select p (c ∷ bs) zero q b h e =
      ap
        (λ z. some (
          (codes "x", label_cell (month_label z.month))
          ∷ (codes "change", to_cell (change (select p) (select z)))
          ∷ []))
        (some-injective _ _ e)
      ∙ ap
          (λ z. some (
            (codes "x", label_cell (month_label b.month))
            ∷ (codes "change", to_cell (change (select z) (select b)))
            ∷ []))
          (some-injective _ _ h)
  get_elem?-mom_rows select p (c ∷ bs) (suc i) q b h e = get_elem?-mom_rows select c bs i q b h e

  -- Row i of the month over month chart is labelled with the month at place i + 1 and holds its change
  -- from the month at place i, null if either has no value.
  pub build_mom-rows :
      (input : CompareInput F) (i : ℕ) (p b : MonthBucket F)
      → get_elem? input.buckets i ≡ some p
      → get_elem? input.buckets (suc i) ≡ some b
      → get_elem? (build_mom input).rows i
        ≡ some (
            (codes "x", label_cell (month_label b.month))
            ∷ (codes "change", to_cell (change (input.metric.select p) (input.metric.select b)))
            ∷ [])
  unfolding build_mom
  build_mom-rows input i p b h e = rows input.buckets h e
    where
      rows :
          (bs : List (MonthBucket F))
          → get_elem? bs i ≡ some p
          → get_elem? bs (suc i) ≡ some b
          → get_elem? (all_mom_rows input.metric.select bs) i
            ≡ some (
                (codes "x", label_cell (month_label b.month))
                ∷ (codes "change", to_cell (change (input.metric.select p) (input.metric.select b)))
                ∷ [])
      rows [] h e = absurd (ground arith)
      rows (c ∷ bs) h e = get_elem?-mom_rows input.metric.select c bs i p b h e
