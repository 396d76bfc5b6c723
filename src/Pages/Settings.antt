-- ===== src/Pages/Settings.antt =====
-- frontend/src/pages/SettingsPage.tsx: the account's forms, the export and the deletion. A handler runs in
-- two pieces, up to its request and from the answer on; `in_flight` are the changes of the account whose
-- answer has not come. `email_of` and `strip` are the user's field and the language's `trim`.

pub mod Saves
use energlens.Common.{
  ℕ, ◌<◌, ◌≡◌, Bool, true, false, not, ◌&&◌, ◌||◌, Option, none, some, List, [], ◌∷◌, ◌++◌, Text,
  codes, text_eq, if◌then◌else◌, ltb, ◌==◌, is_some, length, or_else,
}
use energlens.Client.{
  Json, Answer, Outcome, returned, returned_undefined, thrown, Thrown, api_failure,
}
use energlens.Session.Auth.{Auth, receive, logout}

pub data AccountField : Type 0 where
  email_field password_field : AccountField

pub record Settings : Type 0 where
  pub email : Text
  pub password : Text
  pub saving : Option AccountField
  pub notice : Option Text
  pub failure : Option Text
  pub exporting : Bool
  pub deleting : Bool
  -- the account's changes that were sent and not answered, with the value sent
  pub in_flight : List (AccountField × Text)
  -- where `navigate` has led
  pub route : Option Text
  pub auth : Auth

-- `user?.email ?? ''`, at the mount
unfoldable pub first_settings : (Json → Text) → Auth → Settings
first_settings email_of auth = record {
  email = user_email auth.user;
  password = [];
  saving = none;
  notice = none;
  failure = none;
  exporting = false;
  deleting = false;
  in_flight = [];
  route = none;
  auth = auth;
}
  where
    user_email : Option Json → Text
    user_email none = []
    user_email (some user) = email_of user

abbrev is_empty : Text → Bool
is_empty [] = true
is_empty (c ∷ cs) = false

-- The `disabled` of the two buttons.
unfoldable pub save_disabled : (Json → Text) → (Text → Text) → AccountField → Settings → Bool
save_disabled email_of strip email_field s =
    is_some s.saving || (same_email s.auth.user || is_empty (strip s.email))
  where
    same_email : Option Json → Bool
    same_email none = false
    same_email (some user) = text_eq s.email (email_of user)
save_disabled email_of strip password_field s = is_some s.saving || ltb (length s.password) 8

abbrev pub value_of : AccountField → Settings → Text
value_of email_field s = s.email
value_of password_field s = s.password

-- `patchMe`, up to the request
unfoldable pub start_patch : AccountField → Settings → Settings
start_patch field s = record s {
  saving = some field;
  notice = none;
  failure = none;
  in_flight = (field, value_of field s) ∷ s.in_flight;
}

abbrev pub saved_notice : AccountField → Text
saved_notice email_field = codes "Email updated."
saved_notice password_field = codes "Password updated."

abbrev password_after : AccountField → Text → Text
password_after email_field password = password
password_after password_field password = []

abbrev patch_failure : Thrown → Text
patch_failure (api_failure e) =
    if e.status == 400
    then codes "That was rejected — the email may already be in use, or the password too weak."
    else codes "Could not save that change."
patch_failure _ = codes "Could not save that change."

abbrev saved : AccountField → Settings → Settings
saved field s = record s {
  notice = some (saved_notice field);
  password = password_after field s.password;
}

abbrev pub settled : AccountField → Outcome → Settings → Settings
settled field (thrown e) s = record s { failure = some (patch_failure e) }
settled field _ s = saved field s

-- `patchMe`, from the answer on, with the requests that are still out
unfoldable pub finish_patch :
    AccountField → Answer → List (AccountField × Text) → Settings → Settings
finish_patch field answer still_out s =
    let (outcome, auth) = receive answer s.auth in
    settled field outcome (record s { auth = auth; saving = none; in_flight = still_out })

-- `exportAll`, up to the requests
unfoldable pub start_export : Settings → Settings
start_export s = record s { exporting = true; failure = none }

-- `Promise.all` over the places: the answers in the order in which they come. It throws if one does.
unfoldable pub gather : List (Text × Answer) → Auth → Option (List (Text × Outcome)) × Auth
gather [] auth = (some [], auth)
gather ((place, answer) ∷ rest) auth =
    let (outcome, auth') = receive answer auth in
    let (others, auth'') = gather rest auth' in (both outcome others, auth'')
  where
    both : Outcome → Option (List (Text × Outcome)) → Option (List (Text × Outcome))
    both (thrown e) others = none
    both outcome none = none
    both outcome (some others) = some ((place, outcome) ∷ others)

abbrev pub built :
    Settings → Option (List (Text × Outcome)) × Auth → Option (List (Text × Outcome)) × Settings
built s (some places, auth) = (some places, record s { auth = auth; exporting = false })
built s (none, auth) = (
  none,
  record s { auth = auth; exporting = false; failure = some (codes "Could not build the export.") },
)

-- `exportAll`, from the answers on: the file's content, if it is built
unfoldable pub finish_export :
    List (Text × Answer) → Settings → Option (List (Text × Outcome)) × Settings
finish_export answers s = built s (gather answers s.auth)

-- `deleteAccount`, up to the request; `false` is a confirmation that was refused.
unfoldable pub start_delete : Bool → Settings → Settings
start_delete true s = record s { deleting = true }
start_delete false s = s

abbrev pub gone : Outcome → Settings → Settings
gone (thrown e) s = record s {
  failure = some (codes "Could not delete the account.");
  deleting = false;
}
gone _ s = record s { auth = logout s.auth; route = some (codes "/login") }

unfoldable pub finish_delete : Answer → Settings → Settings
finish_delete answer s =
    let (outcome, auth) = receive answer s.auth in gone outcome (record s { auth = auth })
