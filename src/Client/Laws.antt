-- ===== src/Client/Laws.antt =====
-- What a call of the API client does to the browser's state, and what it sends.
use energlens.Common.{
  ◌+◌, ◌≡◌, ◌≢◌, refl, ◌↔◌, ◌⊎◌, inl, inr, true, false, Option, none, some, List, [], ◌∷◌, Text,
  codes, All, arith, if◌then◌else◌, text_eq, Bool-cases, ◌==◌,
}
use energlens.Client.{
  Json, Answer, rejected, answered, Response, Browser, Outcome, thrown, ApiError, api_failure,
  handle, api_error, RequestOptions, build_request, set_param, add_params, Denies, bearer,
  json_text, is_ok, body_of,
}

-- What an `ApiError` says of the answer.
abbrev pub Refused : Answer → Outcome → Type 0
Refused (answered r) (thrown (api_failure e)) = (e.status ≡ r.status) × (is_ok r.status ≡ false)
Refused rejected (thrown (api_failure e)) = ⊥
Refused answer outcome = Unit

body-Refused : (r : Response) (body : Option Json) → Refused (answered r) (body_of body)
body-Refused r none = tt
body-Refused r (some body) = tt

-- What a call leaves behind that the server denied: no token, the handler called if one is set, and an
-- `ApiError` of status 401.
abbrev pub SignsOut : Browser → Outcome × Browser → Type 0
SignsOut b (outcome, b') =
    (b'.token ≡ none)
    × (b'.unauthorized_calls
        ≡ (if b.has_handler then b.unauthorized_calls + 1 else b.unauthorized_calls))
    × ((e : ApiError) × (outcome ≡ thrown (api_failure e)) × (e.status ≡ 401))

-- On a 401 a call clears the token, calls the handler once if one is set, and throws an `ApiError`
-- of status 401.
pub handle-unauthorized :
    (r : Response) (b : Browser) → r.status ≡ 401 → SignsOut b (handle (answered r) b)
unfolding handle api_error
handle-unauthorized r b h =
    let denied : (r.status == 401) ≡ true = ground arith in
    rw denied (refl, refl, (api_error 401 (json_text (codes "Not authenticated")), refl, refl))

-- An answer other than a 401, a rejected fetch too, leaves the browser as it was; and a call throws
-- no `ApiError` but one with the status of an answer that is neither a success nor a 401.
pub handle-other :
    (answer : Answer) (b : Browser)
    → ¬ (Denies answer)
    → ((handle answer b).1 ≡ b) × Refused answer (handle answer b).0
unfolding handle api_error
handle-other rejected b other = (refl, tt)
handle-other (answered r) b other =
    let open_door : (r.status == 401) ≡ false = ground arith in
    elim (Bool-cases (is_ok r.status)) [
      | inr bad ↦ rw (open_door, bad) (refl, (refl, bad))
      | inl good ↦
          rw (open_door, good)
            (elim (Bool-cases (r.status == 204)) [
              | inl empty ↦ rw empty (refl, tt)
              | inr full ↦ rw full (refl, body-Refused r r.body)
            ])
    ]

-- Only a 401 signs out: it clears the token, calls the handler once if one is set, and throws an
-- `ApiError` of status 401. After any other answer, a rejected fetch too, the browser is as it was, and
-- a call throws no `ApiError` but one with the status of an answer that is not a success.
pub handle-cases :
    (answer : Answer) (b : Browser)
    → (Denies answer × SignsOut b (handle answer b))
      ⊎ ((¬ (Denies answer)) × ((handle answer b).1 ≡ b) × Refused answer (handle answer b).0)
handle-cases rejected b =
    let (same, refused) = handle-other rejected b (λ d. d) in inr ((λ d. d), same, refused)
handle-cases (answered r) b = elim (Bool-cases (r.status == 401)) [
  | inl denied ↦
      let status : r.status ≡ 401 = ground arith in inl (status, handle-unauthorized r b status)
  | inr open_door ↦
      let other : ¬ (r.status ≡ 401) = λ e. absurd (ground arith) in
      let (same, refused) = handle-other (answered r) b other in inr (other, same, refused)
]

-- Parameters with a value.
abbrev pub HasValue : Text × Text → Type 0
HasValue (k, v) = v ≢ []

set_param-HasValue :
    (key v : Text) (query : List (Text × Text))
    → v ≢ []
    → All HasValue query
    → All HasValue (set_param key v query)
unfolding set_param
set_param-HasValue key v [] ne ps = (ne, tt)
set_param-HasValue key v ((k, w) ∷ rest) ne (p, ps) = elim (Bool-cases (text_eq k key)) [
  | inl e ↦ rw e (ne, ps)
  | inr e ↦ rw e (p, set_param-HasValue key v rest ne ps)
]

add_params-HasValue :
    (params : List (Text × Option Text)) (query : List (Text × Text))
    → All HasValue query
    → All HasValue (add_params params query)
unfolding add_params
add_params-HasValue [] query ps = ps
add_params-HasValue ((key, none) ∷ rest) query ps = add_params-HasValue rest query ps
add_params-HasValue ((key, some []) ∷ rest) query ps = add_params-HasValue rest query ps
add_params-HasValue ((key, some (c ∷ cs)) ∷ rest) query ps =
    add_params-HasValue rest (set_param key (c ∷ cs) query)
      (set_param-HasValue key (c ∷ cs) query (λ e. cc) ps)

bearer_iff : (token : Option Text) → (bearer token ≡ none) ↔ ((token ≡ none) ⊎ (token ≡ some []))
bearer_iff none = ((λ h. inl refl), (λ h. refl))
bearer_iff (some []) = ((λ h. inr refl), (λ h. refl))
bearer_iff (some (c ∷ cs)) = ((λ h. absurd (ground arith)), (λ h. absurd (ground arith)))

-- No request carries a query parameter with an empty value, whatever parameters it is given; and it
-- carries an authorization exactly if there is a token that is not empty.
pub build_request-HasValue :
    (b : Browser) (path : Text) (options : RequestOptions)
    → All HasValue (build_request b path options).query
      × (((build_request b path options).authorization ≡ none)
          ↔ ((b.token ≡ none) ⊎ (b.token ≡ some [])))
unfolding build_request
build_request-HasValue b path options =
    (add_params-HasValue options.params [] tt, bearer_iff b.token)
