-- ===== src/Session/Auth/Login.antt =====
-- `login` and `register` of frontend/src/auth/AuthContext.tsx: two or three requests in a row, each with
-- its answer as an argument.
use energlens.Common.{
  ℕ, ◌≡◌, ◌≢◌, refl, true, false, Option, none, some, Text, codes, ltb, ◌==◌, arith, ap, ◌∙◌,
}
use energlens.Client.{
  Json, json_null, json_text, json_other, json_detail, Answer, answered, Response, Outcome,
  returned, returned_undefined, thrown, Thrown, type_error, handle, is_ok, set_token, api_error,
  api_failure, detail_of,
}
use energlens.Session.Auth.{
  Auth, receive, start_login, finish_login, protected_route, outlet, login_result,
}

-- A promise's result in place of its value: an error, or the state to go on with.
abbrev and_then : Option Thrown × Auth → (Auth → Option Thrown × Auth) → Option Thrown × Auth
and_then (some e, s) f = (some e, s)
and_then (none, s) f = f s

abbrev no_access_token : Thrown
no_access_token = type_error (codes "Cannot read properties (reading 'access_token')")

-- `result.access_token`, read by `token_of`, and the start of `loginWithToken`
abbrev pub credentials_result : (Json → Text) → Outcome × Auth → Option Thrown × Auth
credentials_result token_of (returned json_null, s) = (some no_access_token, s)
credentials_result token_of (returned result, s) = (none, start_login (token_of result) s)
credentials_result token_of (returned_undefined, s) = (some no_access_token, s)
credentials_result token_of (thrown e, s) = (some e, s)

unfoldable pub finish_credentials : (Json → Text) → Answer → Auth → Option Thrown × Auth
finish_credentials token_of granted s = credentials_result token_of (receive granted s)

-- `login`: the answers to `/auth/jwt/login` and to `/users/me`
unfoldable pub login : (Json → Text) → Answer → Answer → Auth → Option Thrown × Auth
login token_of granted me s = and_then (finish_credentials token_of granted s) (finish_login me)

abbrev register_result : Outcome × Auth → Option Thrown × Auth
register_result (thrown e, s) = (some e, s)
register_result (_, s) = (none, s)

-- `register`, which goes on with `login`
unfoldable pub register : (Json → Text) → Answer → Answer → Answer → Auth → Option Thrown × Auth
register token_of made granted me s =
    and_then (register_result (receive made s)) (login token_of granted me)

-- A success that carries a value.
pub record Carries (r : Response) (body : Json) : Type 0 where
  pub ok : is_ok r.status ≡ true
  pub full : (r.status == 204) ≡ false
  pub has_body : r.body ≡ some body
  pub not_null : body ≢ json_null

pub receive-Carries :
    (r : Response) (body : Json) (s : Auth)
    → Carries r body
    → receive (answered r) s ≡ (returned body, s)
unfolding receive handle
receive-Carries r body s c =
    let allowed : (r.status == 401) ≡ false = denied_not_ok r.status c.ok in
    let unchanged : ltb s.browser.unauthorized_calls s.browser.unauthorized_calls ≡ false =
      ground arith in
    rw (allowed, c.ok, c.full, c.has_body, unchanged) refl
  where
    denied_not_ok : (status : ℕ) → is_ok status ≡ true → (status == 401) ≡ false
    denied_not_ok status h = ground arith

credentials_result-eq :
    (token_of : Json → Text) (body : Json) (s : Auth)
    → body ≢ json_null
    → credentials_result token_of (returned body, s) ≡ (none, start_login (token_of body) s)
credentials_result-eq token_of json_null s ne = absurd (ne refl)
credentials_result-eq token_of (json_text t) s ne = refl
credentials_result-eq token_of (json_other t) s ne = refl
credentials_result-eq token_of (json_detail d) s ne = refl

login_result-eq :
    (user : Json) (s : Auth)
    → user ≢ json_null
    → login_result (returned user, s) ≡ (none, record s { boot_error = none; user = some user })
login_result-eq json_null s ne = absurd (ne refl)
login_result-eq (json_text t) s ne = refl
login_result-eq (json_other t) s ne = refl
login_result-eq (json_detail d) s ne = refl

pub login-eq :
    (token_of : Json → Text) (granted me : Response) (body user : Json) (s : Auth)
    → Carries granted body
    → Carries me user
    → login token_of (answered granted) (answered me) s
      ≡ (none, record (start_login (token_of body) s) { boot_error = none; user = some user })
unfolding login finish_credentials finish_login
login-eq token_of granted me body user s g c =
    ap (λ o. and_then (credentials_result token_of o) (finish_login (answered me)))
      (receive-Carries granted body s g)
    ∙ ap (λ o. and_then o (finish_login (answered me)))
        (credentials_result-eq token_of body s g.not_null)
    ∙ ap login_result (receive-Carries me user (start_login (token_of body) s) c)
    ∙ login_result-eq user (start_login (token_of body) s) c.not_null

-- If both requests of a login succeed with a value, the login throws nothing, the token granted is
-- the one stored, a boot error is forgotten, and a view that is not waiting for a boot shows the page.
pub login-outlet :
    (token_of : Json → Text) (granted me : Response) (body user : Json) (s : Auth)
    → Carries granted body
    → Carries me user
    → s.loading ≡ false
    → let out = login token_of (answered granted) (answered me) s in
      (out.0 ≡ none)
      × (out.1.browser.token ≡ some (token_of body))
      × (out.1.boot_error ≡ none)
      × (protected_route out.1 ≡ outlet)
unfolding start_login set_token protected_route
login-outlet token_of granted me body user s g c l =
    rw (login-eq token_of granted me body user s g c) (refl, refl, refl, rw l refl)

-- If the request for credentials is refused with another status than 401, as it is for a wrong
-- password, the login throws that refusal and leaves the session as it was.
pub login-refused :
    (token_of : Json → Text) (r : Response) (me : Answer) (s : Auth)
    → is_ok r.status ≡ false
    → (r.status == 401) ≡ false
    → login token_of (answered r) me s ≡ (some (api_failure (api_error r.status (detail_of r))), s)
unfolding login finish_credentials receive handle
login-refused token_of r me s bad allowed =
    let unchanged : ltb s.browser.unauthorized_calls s.browser.unauthorized_calls ≡ false =
      ground arith in
    rw (allowed, bad, unchanged) refl
