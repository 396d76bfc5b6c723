-- ===== src/Pages/Manage/Table.antt =====
-- The line below the place's name, the cells of its bills, and the buttons that delete. `window.confirm` is the
-- browser's, and its answer an argument.
use energlens.Common.{
  Bool, true, Option, none, some, List, [], ◌∷◌, ◌++◌, Text, codes, or_else, if◌then◌else◌,
}
use energlens.Number.{Number}
use energlens.Format.{Intl, Value, nothing, written, dash, fmt_currency, fmt_number, fmt_date}
use energlens.Api.{Bill, BillSource, Place}
use energlens.Client.{Thrown}
use energlens.Forms.Initial.{iso_text}
use energlens.Queries.{Mutation, delete_place, delete_bill}
use energlens.Ui.{query_error}

unfoldable pub sub_line : Place → Text
sub_line place =
    place.address_line1 ++ codes ", " ++ place.city ++ codes " · billed in " ++ place.currency_code

-- What "Delete" asks about the place.
unfoldable pub place_question : Place → Text
place_question place =
    codes "Delete \"" ++ place.name ++ codes "\" and all of its bills? This cannot be undone."

-- The mutation that a press on "Delete" starts, and where the page goes once the place is deleted.
unfoldable pub press_delete_place : Bool → Place → Option Mutation
press_delete_place confirmed place = if confirmed then some (delete_place place.id) else none

abbrev pub after_delete : Text
after_delete = codes "/places"

unfoldable pub press_delete_bill : Bool → Text → Bill → Option Mutation
press_delete_bill confirmed place_id bill =
    if confirmed then some (delete_bill place_id bill.id) else none

-- The panel of a deletion that failed: its title, detail and retry button.
unfoldable pub delete_place_error : Bool → Thrown → Bool → Text × Text × Option Bool
delete_place_error is_offline e is_pending =
    query_error is_offline e (some (codes "Could not delete this place")) true is_pending

unfoldable pub delete_bill_error : Bool → Thrown → Bool → Text × Text × Option Bool
delete_bill_error is_offline e is_pending =
    query_error is_offline e (some (codes "Could not delete that bill")) true is_pending

module _ {F : Type 0} ⦃n : Number F⦄ (intl : Intl F) where
  abbrev field_value : Option Text → Value F
  field_value none = nothing
  field_value (some s) = written s

  -- An empty price counts as none.
  abbrev price_cell : Text → Option Text → Text
  price_cell currency none = dash
  price_cell currency (some []) = dash
  price_cell currency (some (c ∷ cs)) = fmt_currency intl (written (c ∷ cs)) currency 4

  -- The cells of a bill up to the source, which is shown as it is.
  unfoldable pub bill_cells : Bill → List Text × BillSource
  bill_cells bill =
      let currency = bill.currency_code in
      (
        (fmt_date intl (iso_text bill.period_start)
              ++ codes " – "
              ++ fmt_date intl (iso_text bill.period_end))
            ∷ fmt_number intl (field_value bill.consumption) 1
            ∷ price_cell currency bill.unit_price
            ∷ fmt_currency intl (field_value bill.fixed_charges) currency 2
            ∷ fmt_currency intl (field_value bill.taxes) currency 2
            ∷ fmt_currency intl (written bill.total_amount) currency 2
            ∷ or_else bill.provider_name dash
            ∷ [],
        bill.source,
      )
