-- ===== src/Forms/Initial.antt =====
-- The values that `BillForm` starts from, and what it sends if none is changed.
use energlens.Common.{
  ◌≡◌, ◌≢◌, refl, Option, none, some, [], ◌∷◌, ◌++◌, Text, codes, or_else, of_ℕ, pad_zeros,
}
use energlens.Calendar.{Date}
use energlens.Api.{Bill, electricity}
use energlens.Forms.{FormValues, to_input, or_null}

-- A date as the API writes it.
unfoldable pub iso_text : Date → Text
iso_text d =
    pad_zeros 4 (of_ℕ d.year)
    ++ (b'-' ∷ pad_zeros 2 (of_ℕ d.month))
    ++ (b'-' ∷ pad_zeros 2 (of_ℕ d.day))

abbrev no_values : FormValues
no_values = record {
  period_start = [];
  period_end = [];
  consumption = [];
  unit_price = [];
  fixed_charges = [];
  taxes = [];
  total_amount = [];
  provider_name = [];
  notes = [];
}

-- `defaultValues`
unfoldable pub default_values : Option Bill → FormValues
default_values none = no_values
default_values (some b) = record {
  period_start = iso_text b.period_start;
  period_end = iso_text b.period_end;
  consumption = or_else b.consumption [];
  unit_price = or_else b.unit_price [];
  fixed_charges = or_else b.fixed_charges [];
  taxes = or_else b.taxes [];
  total_amount = b.total_amount;
  provider_name = or_else b.provider_name [];
  notes = or_else b.notes [];
}

or_null-or_else : (o : Option Text) → o ≢ some [] → or_null (or_else o []) ≡ o
or_null-or_else none h = refl
or_null-or_else (some []) h = absurd (h refl)
or_null-or_else (some (c ∷ cs)) h = refl

-- No text of the bill is present and empty.
pub record IsTight (b : Bill) : Type 0 where
  pub consumption_tight : b.consumption ≢ some []
  pub unit_price_tight : b.unit_price ≢ some []
  pub fixed_charges_tight : b.fixed_charges ≢ some []
  pub taxes_tight : b.taxes ≢ some []
  pub provider_name_tight : b.provider_name ≢ some []
  pub notes_tight : b.notes ≢ some []

-- A bill that is opened in the form and saved unchanged is sent with the values that it had in every
-- field but two: the utility is always sent as electricity and the unit as kWh, whatever they were.
pub to_input-default_values :
    (b : Bill)
    → IsTight b
    → to_input (some b) (default_values (some b)) ≡ record {
      utility_type = electricity;
      period_start = iso_text b.period_start;
      period_end = iso_text b.period_end;
      consumption = b.consumption;
      unit = codes "kWh";
      unit_price = b.unit_price;
      fixed_charges = b.fixed_charges;
      taxes = b.taxes;
      total_amount = b.total_amount;
      provider_name = b.provider_name;
      source = b.source;
      notes = b.notes;
    }
unfolding to_input default_values
to_input-default_values b t =
    rw
      (
        or_null-or_else b.consumption t.consumption_tight,
        or_null-or_else b.unit_price t.unit_price_tight,
        or_null-or_else b.fixed_charges t.fixed_charges_tight,
        or_null-or_else b.taxes t.taxes_tight,
        or_null-or_else b.provider_name t.provider_name_tight,
        or_null-or_else b.notes t.notes_tight,
      )
      refl
