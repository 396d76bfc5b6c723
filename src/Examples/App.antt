-- ===== src/Examples/App.antt =====
-- Runs of the theorems on the client, the session and the errors.
use energlens.Common.{
  ℕ, suc, List, text_eq, ◌≡◌, ◌≢◌, refl, true, false, none, some, [], ◌∷◌, Text, codes,
  if◌then◌else◌, arith,
}
use energlens.Client.{json_text, json_null, answered, rejected, Response, Browser, handle}
use energlens.Client.Laws.{SignsOut, Refused, handle-cases}
use energlens.Client.{Denies}
use energlens.Common.{◌⊎◌}
use energlens.Session.Auth.{Auth, finish_boot, finish_boot-route, protected_route, login_redirect}
use energlens.Session.Auth.{outlet}
use energlens.Session.Auth.Login.{login, login-outlet, Carries}
use energlens.Client.{Json, json_other, json_detail}
use energlens.Pages.Routes.{
  visit, page, login_form, routes, show_route, auth_page, is_public, visit-is_public,
}

abbrev pub signed_in : Browser
signed_in = record { token = some (codes "abc"); has_handler = true; unauthorized_calls = 0 }

abbrev pub denied : Response
denied = record { status = 401; status_text = codes "Unauthorized"; body = none }

abbrev broken : Response
broken = record { status = 503; status_text = codes "Service Unavailable"; body = none }

handle-cases_example :
    (Denies (answered denied) × SignsOut signed_in (handle (answered denied) signed_in))
    ⊎ ((¬ (Denies (answered denied)))
        × ((handle (answered denied) signed_in).1 ≡ signed_in)
        × Refused (answered denied) (handle (answered denied) signed_in).0)
handle-cases_example = handle-cases (answered denied) signed_in

abbrev pub at_start : Auth
at_start = record {
  user = none;
  loading = true;
  boot_error = none;
  boot_attempt = 0;
  browser = signed_in;
  cache_clears = 0;
}

finish_boot-route_example :
    ((finish_boot rejected at_start).browser.token ≡ at_start.browser.token)
    × (protected_route (finish_boot rejected at_start) ≢ login_redirect)
finish_boot-route_example = finish_boot-route rejected at_start (λ h. h) (λ h. h) refl

abbrev signed_out : Auth
signed_out = record at_start { loading = false; browser = record signed_in { token = none } }

abbrev pub granted : Response
granted = record { status = 200; status_text = codes "OK"; body = some (json_other (codes "t")) }

abbrev refused : Response
refused = record {
  status = 400;
  status_text = codes "Bad Request";
  body = some (json_detail (json_text (codes "LOGIN_BAD_CREDENTIALS")));
}

abbrev pub read_token : Json → Text
read_token (json_other s) = s
read_token _ = []

not_null : (s : Text) → json_other s ≢ json_null
not_null s h = absurd (ground arith)

pub granted-Carries : Carries granted (json_other (codes "t"))
granted-Carries = record {
  ok = refl;
  full = refl;
  has_body = refl;
  not_null = not_null (codes "t");
}

login-outlet_example :
    ((login read_token (answered granted) (answered granted) signed_out).0 ≡ none)
    × ((login read_token (answered granted) (answered granted) signed_out).1.browser.token
        ≡ some (codes "t"))
    × ((login read_token (answered granted) (answered granted) signed_out).1.boot_error ≡ none)
    × (protected_route (login read_token (answered granted) (answered granted) signed_out).1
        ≡ outlet)
login-outlet_example =
    login-outlet read_token granted granted (json_other (codes "t")) (json_other (codes "t"))
      signed_out granted-Carries granted-Carries refl

-- The first path that is the address itself.
abbrev exact_route : List Text → Text → ℕ
exact_route [] pathname = 0
exact_route (path ∷ paths) pathname =
    let later = suc (exact_route paths pathname) in if text_eq path pathname then 0 else later

visits_register : visit exact_route signed_out (codes "/register") ≡ some (page auth_page)
unfolding visit routes show_route
visits_register = refl

-- Without a session, the settings give way to the login form.
visits_settings : visit exact_route signed_out (codes "/settings") ≡ some login_form
unfolding visit routes show_route protected_route
visits_settings = refl

visit-is_public_example : is_public auth_page ≡ true
visit-is_public_example =
    visit-is_public exact_route signed_out (codes "/register") auth_page refl visits_register
