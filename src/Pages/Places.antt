-- ===== src/Pages/Places.antt =====
-- frontend/src/pages/PlacesPage.tsx: the table of places, the figures of a row, and the page's drawers. A number
-- of `consumption` counts as missing where it is 0 or NaN, as JavaScript's test of it has it.
use mathlib.Core.Option
use energlens.Common.{
  ℕ, Bool, true, false, ◌||◌, Option, none, some, List, [], ◌∷◌, ◌++◌, map, any, Text, codes, of_ℕ,
  text_eq, if◌then◌else◌, length, ltb, last_of, get_last?, or_else,
}
use energlens.Number.{Number}
use energlens.Format.{Intl, Value, nothing, amount, dash, fmt_currency, fmt_date}
use energlens.Calendar.{Zone}
use energlens.Api.{Bill, Place}
use energlens.Bills.{ParsedBill, parse_bills, effective_price_series}
use energlens.Client.{Thrown, Json}
use energlens.Queries.{Mutation, create_place, update_place, delete_place}
use energlens.Metrics.Headline.{to_value}
use energlens.Pages.Periods.{utc_day_text}
use energlens.Pages.Home.{trend_of}

-- A row's query of the bills.
pub record RowQuery : Type 0 where
  pub data' : Option (List Bill)
  pub is_error : Bool
  pub is_pending : Bool

-- The trend cell.
pub data TrendCell (F : Type 0) : Type 0 where
  not_loaded too_few : TrendCell F
  -- the series, the change, and the span of the bills as text
  trend : List F → Option F → Text → TrendCell F

pub record PlaceRow (F : Type 0) : Type 0 where
  pub address : Text
  pub currency : Text
  pub count : Text
  pub last_total : Text
  pub all_in : Text
  pub trend_cell : TrendCell F

-- `[postal_code, city].filter(Boolean).join(' ')`
abbrev joined : Text → Text → Text
joined [] city = city
joined postal_code [] = postal_code
joined postal_code city = postal_code ++ (b' ' ∷ city)

module _ {F : Type 0} ⦃n : Number F⦄ where
  open n use {lit, div, eq, is_nan}

  -- `last && last.consumption ? last.total / last.consumption : null`
  unfoldable pub all_in_of : Option (ParsedBill F) → Option F
  all_in_of none = none
  all_in_of (some bill) = elim bill.consumption [
    | none ↦ none
    | some kwh ↦ if eq kwh (lit 0 0) || is_nan kwh then none else some (div bill.total kwh)
  ]

  module _ (intl : Intl F) (z : Zone) where
    abbrev span_of : List (ParsedBill F) → Text
    span_of [] = []
    span_of (b ∷ bs) =
        fmt_date intl (utc_day_text z b.period_start)
        ++ codes " – "
        ++ fmt_date intl (utc_day_text z (last_of b bs).period_end)

    abbrev total_of : Option (ParsedBill F) → Value F
    total_of none = nothing
    total_of (some bill) = amount bill.total

    abbrev count_text : RowQuery → Text
    count_text q =
        if q.is_pending
        then 8230 ∷ []
        else or_else (Option.map (λ bs. of_ℕ (length bs)) q.data') dash

    unfoldable pub place_row : Place → RowQuery → PlaceRow F
    place_row place q =
        let parsed : List (ParsedBill F) = parse_bills z (or_else q.data' []) in
        let spark = effective_price_series parsed in
        let last = get_last? parsed in
        record {
          address = joined place.postal_code place.city;
          currency = place.currency_code;
          count = count_text q;
          last_total =
              if q.is_error then dash else fmt_currency intl (total_of last) place.currency_code 2;
          all_in =
              if q.is_error
              then dash
              else fmt_currency intl (to_value (all_in_of last)) place.currency_code 4;
          trend_cell =
              if q.is_error
              then not_loaded
              else if ltb 1 (length spark)
              then trend spark (trend_of spark) (span_of parsed)
              else too_few;
        }

-- `[...new Set(xs)]` on texts
abbrev distinct : List Text → List Text → List Text
distinct seen [] = []
distinct seen (x ∷ xs) =
    let rest = distinct (x ∷ seen) xs in
    if any (λ y. text_eq y x) seen then distinct seen xs else x ∷ rest

abbrev and_last : Text → List Text → Text
and_last line [] = line
and_last line (last ∷ []) = line ++ codes " and " ++ last
and_last line (s ∷ t ∷ ts) = and_last (line ++ codes ", " ++ s) (t ∷ ts)

-- `currencyList`
unfoldable pub currency_list : List Place → Text
currency_list places = elim (distinct [] (map (λ p. p.currency_code) places)) [
  | [] ↦ codes "currencies"
  | s ∷ rest ↦ and_last s rest
]

-- What the page shows below its head.
pub data PlacesView : Type 0 where
  failed : Thrown → PlacesView
  skeleton no_places : PlacesView
  table : List Place → PlacesView

unfoldable pub places_view : Option Thrown → Bool → List Place → PlacesView
places_view (some e) is_pending list = failed e
places_view none true list = skeleton
places_view none false [] = no_places
places_view none false (p ∷ ps) = table (p ∷ ps)

-- The drawers, and the deletion that was asked for last.
pub record Drawers : Type 0 where
  pub adding : Bool
  pub editing : Option Place
  pub deleted : List Text

unfoldable pub no_drawer : Drawers
no_drawer = record { adding = false; editing = none; deleted = [] }

pub data DrawerEvent : Type 0 where
  adds closes_add closes_edit : DrawerEvent
  edits : Place → DrawerEvent
  -- the save of a drawer's form has ended: `true` is a success
  created updated : Bool → DrawerEvent
  -- a press on "Delete", with the answer of `window.confirm`
  deletes : Place → Bool → DrawerEvent

unfoldable pub handle_drawer : DrawerEvent → Drawers → Drawers
handle_drawer adds d = record d { adding = true }
handle_drawer closes_add d = record d { adding = false }
handle_drawer (edits place) d = record d { editing = some place }
handle_drawer closes_edit d = record d { editing = none }
handle_drawer (created true) d = record d { adding = false }
handle_drawer (created false) d = d
handle_drawer (updated true) d = record d { editing = none }
handle_drawer (updated false) d = d
handle_drawer (deletes place true) d = record d { deleted = place.id ∷ d.deleted }
handle_drawer (deletes place false) d = d

-- The id that a save of the open edit form updates: `editing?.id ?? ''`.
unfoldable pub updated_id : Drawers → Text
updated_id d = or_else (Option.map (λ p. p.id) d.editing) []

-- The mutations that the page runs: of the form that adds, of the form that edits, and of "Delete".
unfoldable pub save_new : Json → Mutation
save_new values = create_place values

unfoldable pub save_edited : Drawers → Json → Mutation
save_edited d values = update_place (updated_id d) values

unfoldable pub run_delete : Text → Mutation
run_delete id = delete_place id

-- What "Delete" asks.
unfoldable pub delete_question : Place → Text
delete_question place =
    codes "Delete " ++ place.name ++ codes "? Its bills go with it, and that cannot be undone."

-- The title of the drawer that edits.
unfoldable pub edit_title : Drawers → Text
edit_title d = codes "Edit " ++ or_else (Option.map (λ p. p.name) d.editing) (codes "place")

-- `billQueries[list.findIndex(…)]?.data?.length` of the place being edited
unfoldable pub bill_count_of : Place → List (Place × RowQuery) → Option ℕ
bill_count_of place [] = none
bill_count_of place ((p, q) ∷ rest) =
    let later = bill_count_of place rest in
    if text_eq p.id place.id then Option.map (λ bs. length bs) q.data' else later
