-- ===== src/Format.antt =====
-- frontend/src/lib/format.ts. What `Intl.NumberFormat` and `toLocaleDateString` write is the
-- browser's, and a parameter here; the code around them is modelled.
use energlens.Common.{
  ℕ, zero, suc, not, Option, none, some, List, [], ◌∷◌, ◌++◌, Text, codes, number, split_dash,
  if◌then◌else◌, ◌==◌, or_else, get_elem?, drop, length,
}
use energlens.Number.{Number}

-- The browser's formatters: a currency amount and a plain number with a fixed count of decimals,
-- and dates.
pub record Intl (F : Type 0) : Type 0 where
  pub currency : Text → ℕ → F → Text
  pub decimal : ℕ → F → Text
  -- "Mar 2026", "Jan 26" and "Mar" for a year and a month
  pub month_year : ℕ → ℕ → Text
  pub month_short_year : ℕ → ℕ → Text
  pub month_only : ℕ → Text
  -- "31 Mar 2026" and "31 Mar" for a date as text
  pub day_month_year : Text → Text
  pub day_month : Text → Text

-- `number | string | null | undefined`
pub data Value (F : Type 0) : Type 0 where
  nothing : Value F
  amount : F → Value F
  written : Text → Value F

abbrev pub dash : Text
dash = 8212 ∷ []

-- U+2212, the true minus sign.
abbrev pub minus_sign : ℕ
minus_sign = 8722

abbrev months_short : List Text
months_short =
    codes "JAN"
    ∷ codes "FEB"
    ∷ codes "MAR"
    ∷ codes "APR"
    ∷ codes "MAY"
    ∷ codes "JUN"
    ∷ codes "JUL"
    ∷ codes "AUG"
    ∷ codes "SEP"
    ∷ codes "OCT"
    ∷ codes "NOV"
    ∷ codes "DEC"
    ∷ []

-- The fields of `period.split('-')`.
abbrev fields : Text → List Text
fields s = let parts = split_dash s in parts.0 ∷ parts.1

-- `Number(fields[i])`, NaN if there is no such field.
abbrev field_number : ℕ → Text → Option ℕ
field_number i s = elim (get_elem? (fields s) i) [ none ↦ none | some f ↦ number f ]

-- The month "MM" of "YYYY-MM", less one, if it is a number that `- 1` leaves whole.
abbrev month_name : Option ℕ → Option Text
month_name none = none
month_name (some zero) = none
month_name (some (suc i)) = get_elem? months_short i

-- `fmtMonthTickMono`
unfoldable pub fmt_month_tick_mono : Text → Text
fmt_month_tick_mono period =
    let month = field_number 1 period in
    let name = or_else (month_name month) period in
    let year = drop 2 (or_else (get_elem? (fields period) 0) []) in
    elim month [ none ↦ name | some m ↦ if m == 1 then name ++ codes " '" ++ year else name ]

-- `!year || !month`: a field that is NaN or zero
abbrev year_and_month : Text → Option (ℕ × ℕ)
year_and_month s = present (field_number 0 s) (field_number 1 s)
  where
    present : Option ℕ → Option ℕ → Option (ℕ × ℕ)
    present (some (suc y)) (some (suc m)) = some (suc y, suc m)
    present _ _ = none

module _ {F : Type 0} ⦃n : Number F⦄ (intl : Intl F) where
  open n use {is_nan, is_finite, of_text, abs, lt, lit}

  abbrev format_number : (F → Text) → F → Text
  format_number f x = if is_nan x then dash else f x

  unfoldable pub fmt_currency : Value F → Text → ℕ → Text
  fmt_currency nothing currency digits = dash
  fmt_currency (amount x) currency digits = format_number (intl.currency currency digits) x
  fmt_currency (written s) currency digits =
      format_number (intl.currency currency digits) (of_text s)

  unfoldable pub fmt_number : Value F → ℕ → Text
  fmt_number nothing digits = dash
  fmt_number (amount x) digits = format_number (intl.decimal digits) x
  fmt_number (written s) digits = format_number (intl.decimal digits) (of_text s)

  unfoldable pub fmt_signed_pct : Option F → ℕ → Text
  fmt_signed_pct none digits = dash
  fmt_signed_pct (some x) digits =
      if not (is_finite x)
      then dash
      else (if lt x (lit 0 0) then minus_sign else b'+')
        ∷ (intl.decimal digits (abs x) ++ (b'%' ∷ []))

  unfoldable pub fmt_month : Text → Text
  fmt_month period = elim (year_and_month period) [
    | none ↦ period
    | some (year, month) ↦ intl.month_year year month
  ]

  unfoldable pub fmt_month_tick : Text → Text
  fmt_month_tick period = elim (year_and_month period) [
    | none ↦ period
    | some (year, month) ↦
        if month == 1 then intl.month_short_year year month else intl.month_only month
  ]

  unfoldable pub fmt_date : Text → Text
  fmt_date iso = intl.day_month_year iso

  unfoldable pub fmt_period : Text → Text
  fmt_period period = if length period == 7 then fmt_month period else fmt_date period

  unfoldable pub fmt_period_tick : Text → Text
  fmt_period_tick period =
      if length period == 7 then fmt_month_tick period else intl.day_month period
