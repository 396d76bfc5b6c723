-- ===== src/Session/Auth.antt =====
-- `AuthProvider`, frontend/src/auth/AuthContext.tsx, and what `ProtectedRoute` shows of it,
-- frontend/src/auth/ProtectedRoute.tsx. Each piece of an effect or a callback that runs without a
-- wait is one function; the server's answer to the request between two pieces is an argument of the
-- second.
pub mod Login
use energlens.Common.{
  ℕ, ◌+◌, ◌≡◌, ◌≢◌, ◌⊎◌, refl, Bool, true, false, Option, none, some, [], ◌∷◌, Text, if◌then◌else◌,
  ltb, ◌==◌, arith,
}
use energlens.Client.{
  Json, json_null, Answer, rejected, answered, Response, Browser, Outcome, returned,
  returned_undefined, thrown, Thrown, api_failure, handle, Denies, set_token,
  set_unauthorized_handler, api_error,
}

pub record Auth : Type 0 where
  pub user : Option Json
  pub loading : Bool
  pub boot_error : Option Thrown
  pub boot_attempt : ℕ
  pub browser : Browser
  -- how often the query cache has been cleared
  pub cache_clears : ℕ

-- `!getToken()`: there is none, or it is empty
abbrev pub has_token : Auth → Bool
has_token s = truthy s.browser.token
  where
    truthy : Option Text → Bool
    truthy none = false
    truthy (some []) = false
    truthy (some (c ∷ cs)) = true

-- What `api` does when the answer is there. The handler that the provider has set, if it is called,
-- is `() => setUser(null)`.
unfoldable pub receive : Answer → Auth → Outcome × Auth
receive answer s =
    let (outcome, after) = handle answer s.browser in
    let called = ltb s.browser.unauthorized_calls after.unauthorized_calls in
    (outcome, record s { browser = after; user = if called then none else s.user })

-- The mount of the provider: the initial state, with the handler set.
unfoldable pub mounted : Browser → Auth
mounted b = record {
  user = none;
  loading = true;
  boot_error = none;
  boot_attempt = 0;
  browser = set_unauthorized_handler true b;
  cache_clears = 0;
}

-- The start of the boot effect, up to the request.
unfoldable pub start_boot : Auth → Auth
start_boot s =
    if has_token s
    then record s { loading = true; boot_error = none }
    else record s { loading = false }

-- `setUser(body)`: a body that is null signs nobody in.
abbrev pub user_of : Json → Option Json
user_of json_null = none
user_of body = some body

abbrev is_unauthorized : Thrown → Bool
is_unauthorized (api_failure e) = e.status == 401
is_unauthorized _ = false

abbrev pub boot_result : Outcome × Auth → Auth
boot_result (returned body, s) = record s { user = user_of body; loading = false }
boot_result (returned_undefined, s) = record s { user = none; loading = false }
boot_result (thrown e, s) =
    if is_unauthorized e
    then record s { loading = false }
    else record s { boot_error = some e; loading = false }

-- `.then(setUser).catch(…).finally(…)` of the boot request
unfoldable pub finish_boot : Answer → Auth → Auth
finish_boot answer s = boot_result (receive answer s)

unfoldable pub retry_boot : Auth → Auth
retry_boot s = start_boot (record s { boot_attempt = s.boot_attempt + 1 })

unfoldable pub logout : Auth → Auth
logout s = record s {
  user = none;
  boot_error = none;
  browser = set_token none s.browser;
  cache_clears = s.cache_clears + 1;
}

-- `loginWithToken`, up to the request and from its answer on. A thrown error goes to the caller.
unfoldable pub start_login : Text → Auth → Auth
start_login token s = record s { browser = set_token (some token) s.browser }

abbrev pub login_result : Outcome × Auth → Option Thrown × Auth
login_result (returned me, s) = (none, record s { boot_error = none; user = user_of me })
login_result (returned_undefined, s) = (none, record s { boot_error = none; user = none })
login_result (thrown e, s) = (some e, s)

unfoldable pub finish_login : Answer → Auth → Option Thrown × Auth
finish_login answer s = login_result (receive answer s)

-- What `ProtectedRoute` renders.
pub data View : Type 0 where
  loading_view outlet login_redirect : View
  error_view : Thrown → View

unfoldable pub protected_route : Auth → View
protected_route s = if s.loading then loading_view else elim s.user [
  | some _ ↦ outlet
  | none ↦ elim s.boot_error [ some e ↦ error_view e | none ↦ login_redirect ]
]

-- The server answered with success and no user in it.
abbrev pub IsEmpty : Answer → Type 0
IsEmpty rejected = ⊥
IsEmpty (answered r) = (r.status ≡ 204) ⊎ (r.body ≡ some json_null)

-- A 401 to the boot request clears the token and sends the user to the login form.
pub finish_boot-denied :
    (r : Response) (s : Auth)
    → r.status ≡ 401
    → s.browser.has_handler ≡ true
    → s.boot_error ≡ none
    → ((finish_boot (answered r) s).browser.token ≡ none)
      × (protected_route (finish_boot (answered r) s) ≡ login_redirect)
unfolding finish_boot receive handle protected_route api_error
finish_boot-denied r s d h b = ground arith

-- Any other answer to the boot request, a rejected fetch or a server's fault included, keeps the
-- token; and unless it is a success without a user, the user is not sent to the login form.
pub finish_boot-route :
    (answer : Answer) (s : Auth)
    → ¬ (Denies answer)
    → ¬ (IsEmpty answer)
    → s.user ≡ none
    → ((finish_boot answer s).browser.token ≡ s.browser.token)
      × (protected_route (finish_boot answer s) ≢ login_redirect)
unfolding finish_boot receive handle protected_route api_error
finish_boot-route rejected s d e u = ground arith
finish_boot-route (answered r) s d e u = ground arith

-- After a logout nobody is signed in, there is no token and no stale boot error, and the query cache
-- has been cleared once more; a view that is not waiting for a boot shows the login form.
pub logout-route :
    (s : Auth)
    → s.loading ≡ false
    → ((logout s).browser.token ≡ none)
      × ((logout s).cache_clears ≡ s.cache_clears + 1)
      × (protected_route (logout s) ≡ login_redirect)
unfolding logout set_token protected_route
logout-route s l = rw l (refl, refl, refl)
