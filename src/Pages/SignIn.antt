-- ===== src/Pages/SignIn.antt =====
-- Signing in: frontend/src/pages/AuthPage.tsx, frontend/src/auth/OAuthCallbackPage.tsx and
-- frontend/src/components/OAuthButtons.tsx. The answers of the server are arguments.
use energlens.Common.{
  ℕ, Bool, true, false, Option, none, some, List, [], ◌∷◌, ◌++◌, map, filter_by, Text, codes,
  text_eq, if◌then◌else◌, leb, length, ◌==◌,
}
use energlens.Number.{Number}
use energlens.Calendar.{Zone}
use energlens.Bills.{parse_bills, effective_price_series}
use energlens.Demo.{seed_bills, main_residence, seed_months, seed_end}
use energlens.Pages.Home.{trend_of}
use energlens.Client.{Json, Answer, Thrown, api_failure}
use energlens.Session.Auth.{Auth, start_login, finish_login}
use energlens.Session.Auth.Login.{login, register}

pub data Mode : Type 0 where
  sign_in create : Mode

pub record SignIn : Type 0 where
  pub mode : Mode
  -- the address, which `navigate` replaces
  pub pathname : Text
  pub failure : Option Text
  pub auth : Auth

abbrev pub path_of : Mode → Text
path_of create = codes "/register"
path_of sign_in = codes "/login"

-- The effect on the mode.
abbrev settle : SignIn → SignIn
settle s = record s { pathname = path_of s.mode }

-- The mount and its effect.
unfoldable pub opened_at : Text → Auth → SignIn
opened_at pathname auth = settle (record {
  mode = if text_eq pathname (codes "/register") then create else sign_in;
  pathname = pathname;
  failure = none;
  auth = auth;
})

-- The toggle and the effect that follows it.
unfoldable pub switch_mode : Mode → SignIn → SignIn
switch_mode mode s = settle (record s { mode = mode; failure = none })

-- `required` and `minLength`; `handleSubmit` calls `onSubmit` only if they hold.
unfoldable pub is_valid : Mode → Text → Text → Bool
is_valid mode [] password = false
is_valid mode email [] = false
is_valid create email password = leb 8 (length password)
is_valid sign_in email password = true

abbrev is_refusal : Thrown → Bool
is_refusal (api_failure e) = e.status == 400
is_refusal _ = false

-- The text for what was thrown.
unfoldable pub failure_text : Mode → Thrown → Text
failure_text create e =
    if is_refusal e
    then codes "An account with this email already exists."
    else codes "Could not create the account — is the API running?"
failure_text sign_in e =
    if is_refusal e
    then codes "Wrong email or password."
    else codes "Could not sign in — is the API running?"

abbrev pub concluded : SignIn → Option Thrown × Auth → SignIn
concluded s (none, auth) = record s { failure = none; pathname = codes "/"; auth = auth }
concluded s (some e, auth) = record s { failure = some (failure_text s.mode e); auth = auth }

-- `onSubmit` with the answers to its requests; `made` answers the registration.
unfoldable pub submit : (Json → Text) → Answer → Answer → Answer → SignIn → SignIn
submit token_of made granted me s = concluded s (elim s.mode [
  | create ↦ register token_of made granted me s.auth
  | sign_in ↦ login token_of granted me s.auth
])

-- `OAuthCallbackPage`
pub data Callback : Type 0 where
  signing_in gone_home : Callback
  problem : Text → Callback

-- The effect up to the request: the token of the address, which is scrubbed from it.
unfoldable pub start_callback : Option Text → Auth → Callback × Auth
start_callback none auth = (problem (codes "No token in callback URL"), auth)
start_callback (some []) auth = (problem (codes "No token in callback URL"), auth)
start_callback (some (c ∷ cs)) auth = (signing_in, start_login (c ∷ cs) auth)

unfoldable pub finish_callback : Answer → Auth → Callback × Auth
finish_callback me auth = settled (finish_login me auth)
  where
    settled : Option Thrown × Auth → Callback × Auth
    settled (none, auth') = (gone_home, auth')
    settled (some e, auth') = (problem (codes "Login failed — please try again"), auth')

-- `PROVIDERS`, from the parts between the commas; `strip` is the language's `trim`.
unfoldable pub providers : (Text → Text) → List Text → List Text
providers strip parts = filter_by is_written (map strip parts)
  where
    is_written : Text → Bool
    is_written [] = false
    is_written (c ∷ cs) = true

unfoldable pub provider_label : Text → Text
provider_label provider =
    if text_eq provider (codes "google")
    then codes "Continue with Google"
    else if text_eq provider (codes "github")
    then codes "Continue with GitHub"
    else codes "Continue with " ++ provider

-- Where a provider's button leads.
unfoldable pub provider_url : Text → Text → Text
provider_url api_url provider = api_url ++ codes "/auth/" ++ provider ++ codes "/login"

pub data Event : Type 0 where
  switches : Mode → Event
  submits : Answer → Answer → Answer → Event

unfoldable pub handle_event : (Json → Text) → Event → SignIn → SignIn
handle_event token_of (switches mode) s = switch_mode mode s
handle_event token_of (submits made granted me) s = submit token_of made granted me s

module _ {F : Type 0} ⦃n : Number F⦄ (pi : F) (cos : F → F) (to_fixed : ℕ → F → Text) where
  -- `demo`: the prices of the demo place and how they changed
  unfoldable pub demo_picture : Zone → List F × Option F
  demo_picture z =
      let bills =
        seed_bills pi cos to_fixed main_residence (codes "place-1") seed_months seed_end in
      let spark = effective_price_series (parse_bills z bills) in (spark, trend_of spark)
