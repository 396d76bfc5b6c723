-- ===== src/Forms/PlaceForm.antt =====
-- What `PlaceForm` starts from, sends and reports, frontend/src/components/PlaceForm.tsx, with the list
-- of frontend/src/lib/currencies.ts.
use energlens.Common.{
  ℕ, ◌-◌, Bool, ◌&&◌, ◌||◌, Option, none, some, List, [], ◌∷◌, ◌++◌, Text, codes, of_ℕ, map, length,
  all, if◌then◌else◌, leb, ltb, ◌==◌,
}
use energlens.Api.{Place}
use energlens.Client.{Json, json_text, Thrown, api_failure}
use energlens.Forms.{or_null}

pub record PlaceInput : Type 0 where
  pub name : Text
  pub address_line1 : Text
  pub address_line2 : Option Text
  pub city : Text
  pub region : Option Text
  pub postal_code : Text
  pub country_code : Text
  pub currency_code : Text

abbrev pub currencies : List Text
currencies =
    codes "EUR"
    ∷ codes "RON"
    ∷ codes "USD"
    ∷ codes "GBP"
    ∷ codes "CHF"
    ∷ codes "SEK"
    ∷ codes "NOK"
    ∷ codes "DKK"
    ∷ codes "PLN"
    ∷ codes "CZK"
    ∷ codes "HUF"
    ∷ codes "BGN"
    ∷ codes "MDL"
    ∷ codes "UAH"
    ∷ codes "TRY"
    ∷ codes "CAD"
    ∷ codes "AUD"
    ∷ codes "JPY"
    ∷ []

-- `initial ?? { … }`
unfoldable pub place_values : Option Place → PlaceInput
place_values none = record {
  name = [];
  address_line1 = [];
  address_line2 = none;
  city = [];
  region = none;
  postal_code = [];
  country_code = [];
  currency_code = codes "EUR";
}
place_values (some p) = record {
  name = p.name;
  address_line1 = p.address_line1;
  address_line2 = p.address_line2;
  city = p.city;
  region = p.region;
  postal_code = p.postal_code;
  country_code = p.country_code;
  currency_code = p.currency_code;
}

abbrev pub is_letter : ℕ → Bool
is_letter c = (leb b'A' c && leb c b'Z') || (leb b'a' c && leb c b'z')

-- `toUpperCase` on the letters that the field's pattern lets through
abbrev pub upper : ℕ → ℕ
upper c = if leb b'a' c && leb c b'z' then c - 32 else c

-- `values.x || null` on a value that may be null already
abbrev text_or_null : Option Text → Option Text
text_or_null none = none
text_or_null (some s) = or_null s

-- What `submit` hands to `onSubmit`.
unfoldable pub to_place_input : PlaceInput → PlaceInput
to_place_input v = record v {
  address_line2 = text_or_null v.address_line2;
  region = text_or_null v.region;
  country_code = map upper v.country_code;
}

-- The `required` and `pattern` rules of the fields; `handleSubmit` calls `submit` only if they hold.
unfoldable pub is_valid : PlaceInput → Bool
is_valid v =
    all filled
      (v.name ∷ v.address_line1 ∷ v.city ∷ v.postal_code ∷ v.country_code ∷ v.currency_code ∷ [])
    && (length v.country_code == 2)
    && all is_letter v.country_code
  where
    filled : Text → Bool
    filled s = ltb 0 (length s)

-- The `catch` of `submit`, with `JSON.stringify` as an argument.
unfoldable pub place_error : (Json → Text) → Thrown → Text
place_error stringify (api_failure e) = detail_text e.detail
  where
    detail_text : Json → Text
    detail_text (json_text s) = s
    detail_text detail = stringify detail
place_error stringify _ = codes "Saving failed"

-- The warning under the currency, if bills are already kept in it.
unfoldable pub currency_warning : Option Place → Option ℕ → Option Text
currency_warning initial none = none
currency_warning initial (some count) =
    if ltb 0 count
    then some (
        codes "Set once, at the start. Changing it later leaves "
        ++ of_ℕ count
        ++ (if count == 1 then codes " existing bill" else codes " existing bills")
        ++ codes " denominated in "
        ++ old initial
        ++ codes ".")
    else none
  where
    old : Option Place → Text
    old none = codes "the old currency"
    old (some p) = p.currency_code
