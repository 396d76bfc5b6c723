-- ===== src/Client.antt =====
-- The API client, frontend/src/api/client.ts. A call is one pass over the browser's state: the
-- token in `localStorage` and the handler of `setUnauthorizedHandler`. The server's answer is an
-- argument, as what `fetch` gave back, and so are JSON texts, of which the code reads `detail`.
pub mod Laws
use energlens.Common.{
  ℕ, ◌+◌, ◌≤◌, ◌≡◌, refl, Bool, true, false, not, ◌||◌, ◌&&◌, Option, none, some, List, [], ◌∷◌,
  ◌++◌, Text, codes, of_ℕ, text_eq, if◌then◌else◌, ltb, leb, ◌==◌, or_else,
}

-- A value of a JSON body, as far as the code looks into it.
pub data Json : Type 0 where
  json_null : Json
  json_text : Text → Json
  json_other : Text → Json
  -- an object with a field `detail`
  json_detail : Json → Json

pub record ApiError : Type 0 where
  pub status : ℕ
  pub detail : Json
  pub message : Text

unfoldable pub api_error : ℕ → Json → ApiError
api_error status detail = record { status = status; detail = detail; message = message_of detail }
  where
    message_of : Json → Text
    message_of (json_text s) = s
    message_of _ = codes "Request failed (" ++ of_ℕ status ++ codes ")"

-- What a call may throw: an `ApiError`, the `TypeError` of a rejected `fetch`, or another error.
pub data Thrown : Type 0 where
  api_failure : ApiError → Thrown
  type_error : Text → Thrown
  other_error : Text → Thrown
  not_an_error : Thrown

-- `none` for a body is one that does not parse.
pub record Response : Type 0 where
  pub status : ℕ
  pub status_text : Text
  pub body : Option Json

pub data Answer : Type 0 where
  rejected : Answer
  answered : Response → Answer

pub record Browser : Type 0 where
  pub token : Option Text
  -- is a handler set
  pub has_handler : Bool
  -- how often it has been called
  pub unauthorized_calls : ℕ

unfoldable pub get_token : Browser → Option Text
get_token b = b.token

unfoldable pub set_token : Option Text → Browser → Browser
set_token token b = record b { token = token }

unfoldable pub set_unauthorized_handler : Bool → Browser → Browser
set_unauthorized_handler on b = record b { has_handler = on }

pub record RequestOptions : Type 0 where
  pub method : Option Text
  pub body : Option Json
  pub form : Option (List (Text × Text))
  pub params : List (Text × Option Text)

-- `new URLSearchParams(form)` or `JSON.stringify(body)`
pub data Payload : Type 0 where
  no_payload : Payload
  form_payload : List (Text × Text) → Payload
  json_payload : Json → Payload

pub record Request : Type 0 where
  pub path : Text
  pub query : List (Text × Text)
  pub method : Text
  pub authorization : Option Text
  pub json_content : Bool
  pub payload : Payload

-- An empty token is no token.
abbrev pub bearer : Option Text → Option Text
bearer none = none
bearer (some []) = none
bearer (some (c ∷ cs)) = some (codes "Bearer " ++ (c ∷ cs))

abbrev payload_of : Option (List (Text × Text)) → Option Json → Payload
payload_of (some form) body = form_payload form
payload_of none (some body) = json_payload body
payload_of none none = no_payload

abbrev is_json : Payload → Bool
is_json (json_payload _) = true
is_json _ = false

-- `url.searchParams.set(key, value)`
unfoldable pub set_param : Text → Text → List (Text × Text) → List (Text × Text)
set_param key v [] = (key, v) ∷ []
set_param key v ((k, w) ∷ rest) =
    if text_eq k key then (k, v) ∷ rest else (k, w) ∷ set_param key v rest

-- The parameters that are neither undefined nor empty.
unfoldable pub add_params : List (Text × Option Text) → List (Text × Text) → List (Text × Text)
add_params [] query = query
add_params ((key, none) ∷ rest) query = add_params rest query
add_params ((key, some []) ∷ rest) query = add_params rest query
add_params ((key, some (c ∷ cs)) ∷ rest) query = add_params rest (set_param key (c ∷ cs) query)

abbrev default_method : Payload → Text
default_method no_payload = codes "GET"
default_method _ = codes "POST"

unfoldable pub build_request : Browser → Text → RequestOptions → Request
build_request b path options =
    let payload = payload_of options.form options.body in
    record {
      path = path;
      query = add_params options.params [];
      method = or_else options.method (default_method payload);
      authorization = bearer b.token;
      json_content = is_json payload;
      payload = payload;
    }

-- A returned value or a thrown one. `undefined` is a value of its own.
pub data Outcome : Type 0 where
  returned : Json → Outcome
  returned_undefined : Outcome
  thrown : Thrown → Outcome

-- `(await response.json()).detail ?? detail`, with the status text where the body has none
abbrev pub detail_of : Response → Json
detail_of r = pick r.body
  where
    pick : Option Json → Json
    pick (some (json_detail json_null)) = json_text r.status_text
    pick (some (json_detail d)) = d
    pick _ = json_text r.status_text

-- `response.ok`
abbrev pub is_ok : ℕ → Bool
is_ok status = leb 200 status && ltb status 300

abbrev body_of : Option Json → Outcome
body_of none = thrown (other_error (codes "Unexpected end of JSON input"))
body_of (some body) = returned body

-- `api`, from the answer on.
unfoldable pub handle : Answer → Browser → Outcome × Browser
handle rejected b = (thrown (type_error (codes "Failed to fetch")), b)
handle (answered r) b =
    if r.status == 401
    then (
      thrown (api_failure (api_error 401 (json_text (codes "Not authenticated")))),
      record b {
        token = none;
        unauthorized_calls =
            if b.has_handler then b.unauthorized_calls + 1 else b.unauthorized_calls;
      },
    )
    else if not (is_ok r.status)
    then (thrown (api_failure (api_error r.status (detail_of r))), b)
    else if r.status == 204
    then (returned_undefined, b)
    else (body_of r.body, b)

-- `api(path, options)`: the request goes to the server, whose answer comes back.
unfoldable pub api : (Request → Answer) → Text → RequestOptions → Browser → Outcome × Browser
api server path options b = handle (server (build_request b path options)) b

-- The server said that the token is no good.
abbrev pub Denies : Answer → Type 0
Denies rejected = ⊥
Denies (answered r) = r.status ≡ 401
