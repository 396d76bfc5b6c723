-- ===== src/Metrics/Headline.antt =====
-- `headline`: which story the last two years tell. `replace(sign, '')` takes the first occurrence
-- of a sign away.
use energlens.Common.{
  ℕ, Bool, false, ◌||◌, ◌&&◌, Option, none, some, [], ◌∷◌, ◌++◌, Text, codes, of_ℕ, if◌then◌else◌,
  ltb, ◌==◌, or_else,
}
use energlens.Common.{Bool-cases, inl, inr, true, false, ◌≡◌, refl, not, is_some}
use energlens.Number.{Number}
use energlens.Format.{
  Intl, Value, nothing, amount, fmt_currency, fmt_number, fmt_signed_pct, minus_sign,
}
use energlens.Metrics.Windows.{TrailingComparison}

pub data HeadlineKind : Type 0 where
  insufficient savings price consumption steady : HeadlineKind

pub record Headline : Type 0 where
  pub kind : HeadlineKind
  pub finding : Text
  pub explanation : Text

-- `s.replace(c, '')` for one character
abbrev pub without_first : ℕ → Text → Text
without_first c [] = []
without_first c (x ∷ xs) = let rest = x ∷ without_first c xs in if x == c then xs else rest

abbrev pub to_value : {F : Type 0} → Option F → Value F
to_value none = nothing
to_value (some x) = amount x

module _ {F : Type 0} ⦃n : Number F⦄ (intl : Intl F) where
  open n use {lit, abs, neg, lt, le, eq, sign}

  -- The order of the tests, apart from the copy.
  abbrev insufficient_headline : Headline
  insufficient_headline = record {
    kind = insufficient;
    finding = codes "Not enough history yet.";
    explanation =
        codes
          "Once a year of bills is in, this compares the last 12 months against the 12 before and says what changed.";
  }

  abbrev window_text : TrailingComparison F → Text
  window_text c =
      if c.partial
      then codes "Last "
        ++ of_ℕ c.current.months
        ++ codes " months against the "
        ++ of_ℕ c.prior.months
        ++ codes " before"
      else codes "Last 12 months against the 12 before"

  abbrev pct_text : F → Text
  pct_text x = fmt_signed_pct intl (some x) 1

  -- `usePct !== null && Math.abs(usePct) < 3`
  abbrev pub flat_use : Option F → Bool
  flat_use none = false
  flat_use (some use_pct) = lt (abs use_pct) (lit 3 0)

  -- `usePct !== null && Math.abs(usePct) >= 3 && Math.sign(usePct) === Math.sign(spendPct)`
  abbrev pub moved_together : Option F → F → Bool
  moved_together none spend_pct = false
  moved_together (some use_pct) spend_pct =
      le (lit 3 0) (abs use_pct) && eq (sign use_pct) (sign spend_pct)

  abbrev use_clause : Option F → Text
  use_clause none = []
  use_clause (some use_pct) = codes ", consumption " ++ pct_text use_pct

  unfoldable pub headline_of : TrailingComparison F → Text → F → Option F → Headline
  headline_of c currency spend_pct use_pct =
      let spend_money =
        fmt_currency intl (amount (abs (or_else c.cost.abs (lit 0 0)))) currency 0 in
      let use_now = fmt_number intl (to_value c.current.kwh) 0 in
      let window = window_text c in
      if le spend_pct (neg (lit 5 0))
      then record {
        kind = savings;
        finding =
            codes "You spent " ++ without_first minus_sign (pct_text spend_pct) ++ codes " less.";
        explanation =
            window
            ++ codes ": "
            ++ spend_money
            ++ codes " less paid, on "
            ++ use_now
            ++ codes " kWh.";
      }
      else if lt (lit 5 0) (abs spend_pct) && flat_use use_pct
      then record {
        kind = price;
        finding =
            codes "Same energy, "
            ++ without_first b'+' (pct_text spend_pct)
            ++ codes " more money.";
        explanation =
            window
            ++ codes ": "
            ++ use_now
            ++ codes " kWh both years, "
            ++ spend_money
            ++ codes " more paid. The whole difference is unit price.";
      }
      else if moved_together use_pct spend_pct
      then record {
        kind = consumption;
        finding =
            if lt (lit 0 0) (or_else use_pct (lit 0 0))
            then codes "You used more energy."
            else codes "You used less energy.";
        explanation =
            window
            ++ codes ": consumption "
            ++ pct_text (or_else use_pct (lit 0 0))
            ++ codes ", spend "
            ++ pct_text spend_pct
            ++ codes ". The bill is following the meter.";
      }
      else record {
        kind = steady;
        finding = codes "Little has changed.";
        explanation =
            window ++ codes ": spend " ++ pct_text spend_pct ++ use_clause use_pct ++ codes ".";
      }

  unfoldable pub headline : TrailingComparison F → Text → Headline
  headline c currency = elim c.cost.pct [
    | none ↦ insufficient_headline
    | some spend_pct ↦
        if ltb c.current.months 2 || (c.prior.months == 0)
        then insufficient_headline
        else headline_of c currency spend_pct c.kwh.pct
  ]

abbrev pub is_insufficient : HeadlineKind → Bool
is_insufficient insufficient = true
is_insufficient _ = false

module _ {F : Type 0} ⦃n : Number F⦄ (intl : Intl F) where
  headline_of-told :
      (c : TrailingComparison F) (currency : Text) (spend_pct : F) (use_pct : Option F)
      → is_insufficient (headline_of intl c currency spend_pct use_pct).kind ≡ false
  unfolding headline_of
  headline_of-told c currency spend_pct use_pct =
      elim (Bool-cases (n.le spend_pct (n.neg (n.lit 5 0)))) [
        | inl e ↦ rw e refl
        | inr e ↦ elim (Bool-cases (n.lt (n.lit 5 0) (n.abs spend_pct) && flat_use intl use_pct)) [
          | inl f ↦ rw (e, f) refl
          | inr f ↦ elim (Bool-cases (moved_together intl use_pct spend_pct)) [
            | inl g ↦ rw (e, f, g) refl
            | inr g ↦ rw (e, f, g) refl
          ]
        ]
      ]

  -- The dashboard says that there is not enough history exactly if the change in cost is null, or
  -- fewer than two months are in the current window, or none is in the one before.
  pub headline-insufficient :
      (c : TrailingComparison F) (currency : Text)
      → is_insufficient (headline intl c currency).kind
        ≡ (not (is_some c.cost.pct) || (ltb c.current.months 2 || (c.prior.months == 0)))
  unfolding headline
  headline-insufficient c currency = kinds c.cost.pct refl
    where
      kinds :
          (pct : Option F)
          → c.cost.pct ≡ pct
          → is_insufficient (headline intl c currency).kind
            ≡ (not (is_some c.cost.pct) || (ltb c.current.months 2 || (c.prior.months == 0)))
      kinds none e = rw (e, headline) refl
      kinds (some spend_pct) e =
          elim (Bool-cases (ltb c.current.months 2 || (c.prior.months == 0))) [
            | inl f ↦ rw (e, headline, f) refl
            | inr f ↦ rw (e, headline, f) (headline_of-told c currency spend_pct c.kwh.pct)
          ]
