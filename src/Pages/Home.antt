-- ===== src/Pages/Home.antt =====
-- The shell and the first page: frontend/src/components/shell/AppShell.tsx, PlaceRail.tsx and TopBar.tsx, and
-- frontend/src/pages/HomeRoute.tsx.
use energlens.Common.{
  ◌≡◌, ◌↔◌, refl, Bool, true, false, not, ◌&&◌, Option, none, some, List, [], ◌∷◌, ◌++◌, map, Text,
  codes, text_eq, if◌then◌else◌, length, ltb, last_of, is_some, arith,
}
use energlens.Number.{Number}
use energlens.Calendar.{Zone}
use energlens.Api.{Bill, Place}
use energlens.Bills.{parse_bills, effective_price_series, pct_change}
use energlens.Client.{Thrown}
use energlens.Session.Theme.{
  Theme, ThemeChoice, ResolvedTheme, light, dark, system, light_theme, dark_theme,
}

-- The query of the places.
pub record PlacesQuery : Type 0 where
  pub data' : Option (List Place)
  pub error : Option Thrown
  pub is_pending : Bool

-- `places.data ?? []`
abbrev pub listed : PlacesQuery → List Place
listed q = elim q.data' [ none ↦ [] | some places ↦ places ]

pub data HomeView : Type 0 where
  failed : Thrown → HomeView
  skeleton first_run : HomeView
  -- `<Navigate to={`/places/${first.id}`} replace />`
  redirect : Text → HomeView

unfoldable pub home_route : PlacesQuery → HomeView
home_route q = elim q.error [
  | some e ↦ failed e
  | none ↦ if q.is_pending then skeleton else first (listed q)
]
  where
    first : List Place → HomeView
    first [] = first_run
    first (p ∷ ps) = redirect (codes "/places/" ++ p.id)

-- `places.isSuccess`
abbrev is_success : PlacesQuery → Bool
is_success q = not (is_some q.error) && not q.is_pending

-- The rail's `isEmpty`.
unfoldable pub rail_is_empty : PlacesQuery → Bool
rail_is_empty q = is_success q && none_of (listed q)
  where
    none_of : List Place → Bool
    none_of [] = true
    none_of (p ∷ ps) = false

-- `placeId ?? list[0]?.id ?? null`
unfoldable pub active_place_id : Option Text → List Place → Option Text
active_place_id (some id) places = some id
active_place_id none [] = none
active_place_id none (p ∷ ps) = some p.id

-- The rows of the rail: each place with whether it is the active one.
unfoldable pub rail_rows : Option Text → List Place → List (Place × Bool)
rail_rows active places = map (λ p. (p, is_active p active)) places
  where
    is_active : Place → Option Text → Bool
    is_active p none = false
    is_active p (some id) = text_eq p.id id

module _ {F : Type 0} ⦃n : Number F⦄ where
  -- The first and the last of a series of two or more, as a change.
  abbrev pub trend_of : List F → Option F
  trend_of [] = none
  trend_of (x ∷ []) = none
  trend_of (x ∷ y ∷ ys) = pct_change x (last_of y ys)

  -- `ActiveTrend`: the sparkline and the change, if there are two prices to compare
  unfoldable pub active_trend : Zone → Option (List Bill) → Option (List F × Option F)
  active_trend z none = none
  active_trend z (some bills) =
      let series = effective_price_series (parse_bills z bills) in
      if ltb (length bills) 2
      then none
      else if ltb (length series) 2
      then none
      else some (series, trend_of series)

-- The segment of the theme switch that is pressed: `choice === 'system' ? resolved : choice`.
unfoldable pub switch_value : Theme → ThemeChoice
switch_value t = elim t.choice [ system ↦ as_choice t.resolved | light ↦ light | dark ↦ dark ]
  where
    as_choice : ResolvedTheme → ThemeChoice
    as_choice light_theme = light
    as_choice dark_theme = dark

-- The first-run page is shown exactly when the rail says that there is nothing yet, and never for a
-- query that failed or is not done.
pub home_route-rail_is_empty :
    (q : PlacesQuery) → (home_route q ≡ first_run) ↔ (rail_is_empty q ≡ true)
unfolding home_route rail_is_empty
home_route-rail_is_empty q = by_fields q.error q.is_pending q.data'
  where
    by_fields :
        (e : Option Thrown) (b : Bool) (places : Option (List Place))
        → (home_route (record { data' = places; error = e; is_pending = b }) ≡ first_run)
          ↔ (rail_is_empty (record { data' = places; error = e; is_pending = b }) ≡ true)
    by_fields (some e) b places = (λ h. absurd (ground arith), λ h. absurd (ground arith))
    by_fields none true places = (λ h. absurd (ground arith), λ h. absurd (ground arith))
    by_fields none false none = (λ h. refl, λ h. refl)
    by_fields none false (some []) = (λ h. refl, λ h. refl)
    by_fields none false (some (p ∷ ps)) = (λ h. absurd (ground arith), λ h. absurd (ground arith))
