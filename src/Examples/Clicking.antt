-- ===== src/Examples/Clicking.antt =====
-- Runs of the theorems on sequences of clicks.
use energlens.Common.{◌≤◌, ◌≡◌, refl, true, false, none, List, [], ◌∷◌, codes, of_ℕ, length, arith}
use energlens.Number.Fixed.{Fixed, fixed}
use energlens.Client.{rejected}
use energlens.Session.Auth.{mounted}
use energlens.Months.{MonthBucket}
use energlens.Compare.Years.{available_years, selected_years}
use energlens.Compare.{MetricId, ModeId}
use energlens.Session.Preferences.{range_all}
use energlens.Pages.Periods.{in_window, range_months}
use energlens.Pages.ComparePage.{chosen_years, chip_disabled, toggle_year, input_of, Choice}
use energlens.Pages.ComparePage.Chips.{
  Clicks, rests, clicks, chosen_years-Clicks, or_all, selected_years-input_of,
}
use energlens.Pages.Settings.{
  Settings, first_settings, email_field, start_patch, finish_patch, save_disabled,
}
use energlens.Pages.Settings.Saves
use energlens.Pages.Settings.Saves.{IsSingle, Only, Runs-IsSingle, types_email, answers}
use energlens.Examples.Buckets.{bucket}
use energlens.Examples.Charts.{tokens, costs}

abbrev two_years : List (MonthBucket Fixed)
two_years = bucket 2023 12 ∷ bucket 2024 1 ∷ bucket 2024 2 ∷ []

-- The older year is switched off and on again.
off_and_on : Clicks (available_years two_years) [] []
unfolding available_years chosen_years chip_disabled toggle_year of_ℕ
off_and_on = clicks 2023 refl refl (clicks 2023 refl refl rests)

both_years : 1 ≤ length (chosen_years (available_years two_years) [])
unfolding available_years chosen_years of_ℕ
both_years = omega arith

chosen_years-Clicks_example : 1 ≤ length (chosen_years (available_years two_years) [])
chosen_years-Clicks_example = chosen_years-Clicks two_years off_and_on both_years

abbrev choice : Choice
choice = record {
  metric_id = MetricId.total;
  mode_id = ModeId.years;
  range = range_all;
  same_month = 1;
  excluded_years = 2024 ∷ 2023 ∷ [];
}

selected_years-input_of_example :
    selected_years (input_of choice costs tokens (codes "RON") false two_years)
    ≡ or_all
        (chosen_years
          (available_years (in_window (range_months range_all) two_years))
          (2024 ∷ 2023 ∷ []))
        (available_years (in_window (range_months range_all) two_years))
selected_years-input_of_example =
    selected_years-input_of choice costs tokens (codes "RON") false two_years

abbrev account : Settings
account =
    first_settings (λ user. [])
      (mounted (record { token = none; has_handler = true; unauthorized_calls = 0 }))

abbrev renamed : Settings
renamed = record account { email = codes "a@b.c" }

-- An email is typed and saved, and the request is rejected.
one_save :
    Saves.Runs
      (λ user. [])
      (λ s. s)
      account
      (finish_patch email_field rejected [] (start_patch email_field renamed))
unfolding save_disabled first_settings start_patch mounted
one_save = Saves.steps (types_email account (codes "a@b.c")) (
    Saves.steps (Saves.clicks renamed email_field refl) (
      Saves.steps
        (answers (start_patch email_field renamed) [] [] email_field (codes "a@b.c") rejected refl)
        Saves.rests))

single : IsSingle account
unfolding first_settings mounted
single = refl

Runs-IsSingle_example :
    IsSingle (finish_patch email_field rejected [] (start_patch email_field renamed))
Runs-IsSingle_example = Runs-IsSingle (λ user. []) (λ s. s) one_save single
