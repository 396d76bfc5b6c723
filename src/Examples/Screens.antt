-- ===== src/Examples/Screens.antt =====
-- Runs of the theorems on tooltips, curves and drawers.
use energlens.Common.{◌≡◌, ◌≢◌, refl, some, [], ◌∷◌, ◌++◌, codes, arith}
use energlens.Number.Fixed.{Fixed, fixed}
use energlens.Calendar.{period_key}
use energlens.Months.{MonthBucket}
use energlens.Compare.{month_label}
use energlens.Compare.Mix.{build_mix, mix_row}
use energlens.Charts.Tooltips.{mix_tip, mix_rows_of}
use energlens.Charts.Tooltips.Mix.{mix_tip-build_mix}
use energlens.Charts.Evidence.{model_at, CurvePoint}
use energlens.Ui.Drawer.{Document, open_effect, clean_up, stays, clean_up-open_effect}
use energlens.Examples.Figures.{bucket, silent_intl}
use energlens.Examples.Charts.{tokens}

abbrev next_may : MonthBucket Fixed
next_may = record (bucket 5 91) { period = period_key 2025 5; year = 2025 }

april_not_may : month_label 4 ≢ some (codes "MAY")
april_not_may e = absurd (ground arith)

-- An April and the Mays of two years: at the second May's label stands the first May.
mix_tip-build_mix_example :
    mix_tip silent_intl tokens
      (codes "RON")
      (build_mix
        ((bucket 4 77 ∷ []) ++ (bucket 5 83 ∷ ((bucket 6 80 ∷ []) ++ (next_may ∷ []))))).rows
      (codes "MAY")
    ≡ mix_rows_of silent_intl tokens (codes "RON") (mix_row (bucket 5 83))
mix_tip-build_mix_example =
    mix_tip-build_mix silent_intl tokens (codes "RON") (bucket 5 83) next_may (bucket 4 77 ∷ [])
      (bucket 6 80 ∷ []) [] (codes "MAY") refl refl (april_not_may, tt)

abbrev curve : Fixed → CurvePoint Fixed
curve = model_at (fixed.lit 19 2) (fixed.lit 2 1) (fixed.lit 6 0)

abbrev page : Document
page = record { focus = codes "Add bill"; overflow = []; key_listeners = 0 }

clean_up-open_effect_example :
    clean_up (
      open_effect
        (some (codes "period"))
        (record { focus = codes "Add bill"; overflow = []; key_listeners = 0 }))
    ≡ page
clean_up-open_effect_example = clean_up-open_effect (some (codes "period")) page stays
