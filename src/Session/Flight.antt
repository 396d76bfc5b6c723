-- ===== src/Session/Flight.antt =====
-- The session while several requests are on their way: the operations of frontend/src/auth/AuthContext.tsx,
-- cut at their requests, in any order of clicks and answers. The server is a parameter: the user whom it
-- knows by a token.
pub mod Kept
pub mod Stale
pub mod Own
use mathlib.Core.Option.{some-injective}
use energlens.Common.{
  ◌≡◌, refl, sym, ap, ◌∙◌, Bool, true, false, ◌&&◌, Option, none, some, List, [], ◌∷◌, Text, All,
  if◌then◌else◌, ltb, ◌==◌, Bool-cases, inl, inr, ◌⊎◌, arith,
}
use energlens.Client.{
  Json, json_null, json_text, json_other, json_detail, Answer, rejected, answered, Browser, Outcome,
  returned, returned_undefined, thrown, Thrown, handle,
}
use energlens.Session.Auth.{
  Auth, has_token, receive, mounted, start_boot, finish_boot, retry_boot, logout, start_login,
  finish_login, user_of, login_result, boot_result,
}
use energlens.Session.Auth.Login.{finish_credentials}

-- A request on its way, with the token that it carries.
pub data Sent : Type 0 where
  -- `/users/me` of the boot effect, and of `loginWithToken`
  boot me : Text → Sent
  credentials : Sent
  -- a request of a page
  page_request : Sent

pub record Session : Type 0 where
  pub auth : Auth
  pub sent : List Sent

abbrev asks_user : Sent → Bool
asks_user (boot t) = true
asks_user (me t) = true
asks_user _ = false

-- The provider is mounted, and nothing is on its way.
abbrev pub fresh : Browser → Session
fresh b = record { auth = mounted b; sent = [] }

-- No `/users/me` is on its way.
abbrev pub quiet : List Sent → Bool
quiet [] = true
quiet (r ∷ rest) = if asks_user r then false else quiet rest

-- The request of the boot effect, if there is a token.
abbrev pub sent_with : Bool → Option Text → List Sent → List Sent
sent_with true (some t) sent = boot t ∷ sent
sent_with _ _ sent = sent

abbrev pub boot_sent : Auth → List Sent → List Sent
boot_sent s sent = sent_with (has_token s) s.browser.token sent

-- The answer to one request takes it from those on their way.
pub data Takes (r : Sent) : List Sent → List Sent → Type 0 where
  first : {rest : List Sent} → Takes r (r ∷ rest) rest
  later : {q : Sent} {sent rest : List Sent} → Takes r sent rest → Takes r (q ∷ sent) (q ∷ rest)

-- The stored token is this one, or there is none any more.
abbrev pub Carries : Text → Auth → Type 0
Carries t s = (u : Text) → s.browser.token ≡ some u → u ≡ t

-- A request for the user carries the token that is stored.
abbrev pub IsCurrent : Auth → Sent → Type 0
IsCurrent s (boot t) = Carries t s
IsCurrent s (me t) = Carries t s
IsCurrent s _ = Unit

module _ (who : Text → Json) where
  -- If the server answers `/users/me` with a value, it is the user of the token.
  abbrev pub IsHonest : Text → Answer → Type 0
  IsHonest t answer =
      (b : Browser) (user : Json) → (handle answer b).0 ≡ returned user → user ≡ who t

  -- The user shown is the one whom the stored token belongs to.
  abbrev pub IsOwn : Auth → Type 0
  IsOwn s = (t : Text) (user : Json) → s.browser.token ≡ some t → s.user ≡ some user → user ≡ who t

  pub record IsSound (s : Session) : Type 0 where
    pub own : IsOwn s.auth
    pub current : All (IsCurrent s.auth) s.sent

module _ (who : Text → Json) (token_of : Json → Text) where
  -- What happens next. A token is stored only while nobody is signed in and no `/users/me` is on its way.
  pub data Step : Session → Session → Type 0 where
    boots :
        (s : Session)
        → Step s (record s { auth = start_boot s.auth; sent = boot_sent s.auth s.sent })
    retries :
        (s : Session)
        → Step s (record s { auth = retry_boot s.auth; sent = boot_sent s.auth s.sent })
    booted :
        (s : Session) (t : Text) (answer : Answer) (rest : List Sent)
        → Takes (boot t) s.sent rest
        → IsHonest who t answer
        → Step s (record s { auth = finish_boot answer s.auth; sent = rest })
    submits : (s : Session) → Step s (record s { sent = credentials ∷ s.sent })
    refuses :
        (s : Session) (answer : Answer) (rest : List Sent) (e : Thrown)
        → Takes credentials s.sent rest
        → (finish_credentials token_of answer s.auth).0 ≡ some e
        → Step s (record s { auth = (finish_credentials token_of answer s.auth).1; sent = rest })
    -- The login goes on with the token that it was given.
    grants :
        (s : Session) (t : Text) (answer : Answer) (rest : List Sent)
        → Takes credentials s.sent rest
        → (finish_credentials token_of answer s.auth).1.browser.token ≡ some t
        → (finish_credentials token_of answer s.auth).0 ≡ none
        → quiet rest ≡ true
        → s.auth.user ≡ none
        → Step s
            (record s { auth = (finish_credentials token_of answer s.auth).1; sent = me t ∷ rest })
    -- `loginWithToken` of the OAuth callback
    calls_back :
        (s : Session) (t : Text)
        → quiet s.sent ≡ true
        → s.auth.user ≡ none
        → Step s (record s { auth = start_login t s.auth; sent = me t ∷ s.sent })
    signs_in :
        (s : Session) (t : Text) (answer : Answer) (rest : List Sent)
        → Takes (me t) s.sent rest
        → IsHonest who t answer
        → Step s (record s { auth = (finish_login answer s.auth).1; sent = rest })
    requests : (s : Session) → Step s (record s { sent = page_request ∷ s.sent })
    responds :
        (s : Session) (answer : Answer) (rest : List Sent)
        → Takes page_request s.sent rest
        → Step s (record s { auth = (receive answer s.auth).1; sent = rest })
    logs_out : (s : Session) → Step s (record s { auth = logout s.auth })

  pub data Runs : Session → Session → Type 0 where
    rests : {s : Session} → Runs s s
    steps : {s t u : Session} → Step s t → Runs t u → Runs s u
