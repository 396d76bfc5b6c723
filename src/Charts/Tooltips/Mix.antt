-- ===== src/Charts/Tooltips/Mix.antt =====
-- The tooltip of `MixArea`: it finds its row by the label of the month, which has no year.
use energlens.Common.{
  ◌≡◌, ◌≢◌, refl, ap, ◌∙◌, true, false, Option-cases, Bool-cases, inl, inr, Option, none, some,
  List, [], ◌∷◌, ◌++◌, All, Text, text_eq, text_eq_refl, text_eq→eq,
}
use energlens.Number.{Number}
use energlens.Format.{Intl}
use energlens.Months.{MonthBucket}
use energlens.Compare.{ChartTokens, month_label}
use energlens.Compare.Mix.{build_mix, mix_row}
use energlens.Charts.Tooltips.{mix_tip, mix_rows_of, is_label}

mix_row-x : {F : Type 0} ⦃n : Number F⦄ (b : MonthBucket F) → (mix_row b).x ≡ month_label b.month
unfolding mix_row
mix_row-x ⦃n⦄ b = elim (Option-cases b.kwh) [
  | inl e ↦ rw e refl
  | inr (k, e) ↦
      rw e (elim (Bool-cases (n.le k (n.lit 0 0))) [ inl f ↦ rw f refl | inr f ↦ rw f refl ])
]

-- A bucket of another name than the one hovered is passed over.
mix_tip-cons :
    {F : Type 0} ⦃n : Number F⦄ (intl : Intl F) (tokens : ChartTokens) (currency hovered : Text)
    (b : MonthBucket F) (bs : List (MonthBucket F))
    → month_label b.month ≢ some hovered
    → mix_tip intl tokens currency (build_mix (b ∷ bs)).rows hovered
      ≡ mix_tip intl tokens currency (build_mix bs).rows hovered
unfolding mix_tip build_mix
mix_tip-cons intl tokens currency hovered b bs other =
    let passed : is_label hovered (mix_row b).x ≡ false =
      rw (mix_row-x b) (not_label (month_label b.month) other) in
    rw (mix_tip, passed) refl
  where
    not_label : (x : Option Text) → x ≢ some hovered → is_label hovered x ≡ false
    not_label none ne = refl
    not_label (some s) ne = elim (Bool-cases (text_eq s hovered)) [
      | inl e ↦ absurd (ne (ap some (text_eq→eq s hovered e)))
      | inr e ↦ e
    ]

-- Two buckets of a window are of the same calendar month, and no bucket before the earlier one is. At
-- the label of that month, which both points carry, the tooltip shows the figures of the earlier bucket,
-- also where the later one's point is pointed at.
pub mix_tip-build_mix :
    {F : Type 0} ⦃n : Number F⦄ (intl : Intl F) (tokens : ChartTokens) (currency : Text)
    (first later : MonthBucket F) (before between after : List (MonthBucket F)) (hovered : Text)
    → month_label later.month ≡ some hovered
    → first.month ≡ later.month
    → All (λ b. month_label b.month ≢ some hovered) before
    → mix_tip intl tokens currency
        (build_mix (before ++ (first ∷ (between ++ (later ∷ after))))).rows
        hovered
      ≡ mix_rows_of intl tokens currency (mix_row first)
unfolding mix_tip build_mix
mix_tip-build_mix intl tokens currency first later [] between after hovered h same others =
    let found : is_label hovered (mix_row first).x ≡ true =
      rw (mix_row-x first, same, h) (text_eq_refl hovered) in
    rw (mix_tip, found) refl
mix_tip-build_mix intl tokens currency first later (b ∷ before) between after hovered h same
      (o, os) =
    mix_tip-cons intl tokens currency hovered b (before ++ (first ∷ (between ++ (later ∷ after)))) o
    ∙ mix_tip-build_mix intl tokens currency first later before between after hovered h same os
