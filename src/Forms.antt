-- ===== src/Forms.antt =====
-- The bill form: what `BillForm` submits and how it reports a refusal,
-- frontend/src/components/BillForm.tsx, and the sum that `ArithmeticCheck` shows beside it,
-- frontend/src/components/places/ArithmeticCheck.tsx.
pub mod Initial
pub mod PlaceForm
use energlens.Common.{
  Bool, not, ◌&&◌, ◌||◌, Option, none, some, [], ◌∷◌, ◌++◌, Text, codes, if◌then◌else◌, ◌==◌, leb,
  or_else, is_some, all,
}
use energlens.Number.{Number}
use energlens.Api.{Bill, BillSource, manual, UtilityType, electricity}
use energlens.Client.{Json, json_text, Thrown, api_failure}

pub record FormValues : Type 0 where
  pub period_start : Text
  pub period_end : Text
  pub consumption : Text
  pub unit_price : Text
  pub fixed_charges : Text
  pub taxes : Text
  pub total_amount : Text
  pub provider_name : Text
  pub notes : Text

pub record BillInput : Type 0 where
  pub utility_type : UtilityType
  pub period_start : Text
  pub period_end : Text
  pub consumption : Option Text
  pub unit : Text
  pub unit_price : Option Text
  pub fixed_charges : Option Text
  pub taxes : Option Text
  pub total_amount : Text
  pub provider_name : Option Text
  pub source : BillSource
  pub notes : Option Text

-- `s || null`
abbrev pub or_null : Text → Option Text
or_null [] = none
or_null (c ∷ cs) = some (c ∷ cs)

abbrev source_of : Option Bill → BillSource
source_of none = manual
source_of (some bill) = bill.source

-- What `submit` hands to `onSubmit`.
unfoldable pub to_input : Option Bill → FormValues → BillInput
to_input initial v = record {
  utility_type = electricity;
  period_start = v.period_start;
  period_end = v.period_end;
  consumption = or_null v.consumption;
  unit = codes "kWh";
  unit_price = or_null v.unit_price;
  fixed_charges = or_null v.fixed_charges;
  taxes = or_null v.taxes;
  total_amount = v.total_amount;
  provider_name = or_null v.provider_name;
  source = source_of initial;
  notes = or_null v.notes;
}

-- The `catch` of `submit`, with `JSON.stringify` as an argument.
unfoldable pub submit_error : (Json → Text) → Thrown → Text
submit_error stringify (api_failure e) =
    if e.status == 409
    then text_or e.detail
    else if e.status == 422
    then codes "Check the fields: " ++ stringify e.detail
    else codes "Saving failed"
  where
    text_or : Json → Text
    text_or (json_text s) = s
    text_or _ = codes "A bill for this exact period already exists"
submit_error stringify _ = codes "Saving failed"

-- `value.trim() === ''`, for the white space of a keyboard
abbrev is_blank : Text → Bool
is_blank s = all (λ c. (c == 32) || (leb 9 c && leb c 13) || (c == 160)) s

pub record Check (F : Type 0) : Type 0 where
  pub energy : F
  pub computed : F
  pub difference : F
  pub is_match : Bool
  pub fixed_blank : Bool
  pub taxes_blank : Bool

module _ {F : Type 0} ⦃n : Number F⦄ where
  open n use {lit, add, sub, mul, abs, lt, is_finite, of_text}

  -- `num`
  unfoldable pub parse_field : Text → Option F
  parse_field s =
      let x = of_text s in if is_blank s then none else if is_finite x then some x else none

  abbrev checked : Option F → Option F → F → F → F → Check F
  checked fixed tax kwh price stated =
      let energy = mul kwh price in
      let computed = add (add energy (or_else fixed (lit 0 0))) (or_else tax (lit 0 0)) in
      let difference = sub stated computed in
      record {
        energy = energy;
        computed = computed;
        difference = difference;
        is_match = lt (abs difference) (lit 15 3);
        fixed_blank = not (is_some fixed);
        taxes_blank = not (is_some tax);
      }

  abbrev all_three : (F → F → F → Check F) → Option F → Option F → Option F → Option (Check F)
  all_three f (some kwh) (some price) (some stated) = some (f kwh price stated)
  all_three f _ _ _ = none

  -- `none` is the idle panel.
  unfoldable pub arithmetic_check : Text → Text → Text → Text → Text → Option (Check F)
  arithmetic_check consumption unit_price fixed_charges taxes total =
      all_three (checked (parse_field fixed_charges) (parse_field taxes)) (parse_field consumption)
        (parse_field unit_price) (parse_field total)
