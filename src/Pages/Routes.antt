-- ===== src/Pages/Routes.antt =====
-- The table of routes in frontend/src/App.tsx. Which route an address belongs to is the router's (react-router):
-- a parameter that names one by its place in the table.
use mathlib.Core.Option.{some-injective}
use energlens.Common.{
  ℕ, ◌≡◌, refl, Bool, true, false, Option, none, some, List, [], ◌∷◌, map, Text, codes,
  if◌then◌else◌, get_elem?, All, All-get_elem?, arith,
}
use energlens.Client.{Thrown}
use energlens.Session.Auth.{
  Auth, View, loading_view, outlet, login_redirect, error_view, protected_route,
}

-- The components that the routes mount.
pub data Screen : Type 0 where
  auth_page callback_page home_page places_page dashboard_page compare_page : Screen
  bill_page settings_page place_page not_found_page : Screen

pub record Route : Type 0 where
  pub path : Text
  -- the route stands within `<ProtectedRoute />` and `<AppShell />`
  pub is_protected : Bool
  pub element : Screen

abbrev open_route : Text → Screen → Route
open_route path element = record { path = path; is_protected = false; element = element }

abbrev guarded_route : Text → Screen → Route
guarded_route path element = record { path = path; is_protected = true; element = element }

unfoldable pub routes : List Route
routes =
    open_route (codes "/login") auth_page
    ∷ open_route (codes "/register") auth_page
    ∷ open_route (codes "/auth/callback") callback_page
    ∷ guarded_route (codes "/") home_page
    ∷ guarded_route (codes "/places") places_page
    ∷ guarded_route (codes "/places/:placeId") dashboard_page
    ∷ guarded_route (codes "/places/:placeId/compare") compare_page
    ∷ guarded_route (codes "/places/:placeId/bills/:billId") bill_page
    ∷ guarded_route (codes "/settings") settings_page
    ∷ guarded_route (codes "/places/:placeId/manage") place_page
    ∷ open_route (codes "*") not_found_page
    ∷ []

-- What is on the screen: a page, or what `ProtectedRoute` shows in its place.
pub data Shown : Type 0 where
  page : Screen → Shown
  loading login_form : Shown
  failed : Thrown → Shown

abbrev within : View → Screen → Shown
within outlet screen = page screen
within loading_view screen = loading
within login_redirect screen = login_form
within (error_view e) screen = failed e

unfoldable pub show_route : Auth → Route → Shown
show_route s route =
    if route.is_protected then within (protected_route s) route.element else page route.element

-- The screen at an address.
unfoldable pub visit : (List Text → Text → ℕ) → Auth → Text → Option Shown
visit router s pathname = elim (get_elem? routes (router (map (λ r. r.path) routes) pathname)) [
  | none ↦ none
  | some route ↦ some (show_route s route)
]

-- The pages that are meant for everybody.
abbrev pub is_public : Screen → Bool
is_public auth_page = true
is_public callback_page = true
is_public not_found_page = true
is_public _ = false

-- A route of such a page, or one that is protected.
abbrev IsSafe : Route → Type 0
IsSafe route = (if route.is_protected then true else is_public route.element) ≡ true

routes-IsSafe : All IsSafe routes
unfolding routes
routes-IsSafe =
    (refl, (refl, (refl, (refl, (refl, (refl, (refl, (refl, (refl, (refl, (refl, tt)))))))))))

show_route-is_public :
    (s : Auth) (route : Route) (screen : Screen)
    → IsSafe route
    → s.user ≡ none
    → show_route s route ≡ page screen
    → is_public screen ≡ true
unfolding show_route protected_route
show_route-is_public s route screen safe u e = ground arith

-- While nobody is signed in, whichever route the router picks for an address, a page that is shown is the
-- login form, the OAuth callback or the page for unknown addresses.
pub visit-is_public :
    (router : List Text → Text → ℕ) (s : Auth) (pathname : Text) (screen : Screen)
    → s.user ≡ none
    → visit router s pathname ≡ some (page screen)
    → is_public screen ≡ true
unfolding visit
visit-is_public router s pathname screen u e = by_route _ refl e
  where
    at : ℕ
    at = router (map (λ r. r.path) routes) pathname

    by_route :
        (found : Option Route)
        → get_elem? routes at ≡ found
        → ◌≡◌ {A = Option Shown}
            (elim found [ none ↦ none | some route ↦ some (show_route s route) ])
            (some (page screen))
        → is_public screen ≡ true
    by_route none g e = absurd (ground arith)
    by_route (some route) g e =
        show_route-is_public s route screen (All-get_elem? IsSafe routes at route routes-IsSafe g) u
          (some-injective _ _ e)
