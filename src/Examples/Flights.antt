-- ===== src/Examples/Flights.antt =====
-- Runs of the theorems on requests that are on their way together.
use energlens.Common.{◌≡◌, refl, false, none, some, [], ◌∷◌, Text, codes, arith}
use energlens.Client.{
  Json, json_other, json_null, answered, Answer, Response, Browser, handle, set_token,
  set_unauthorized_handler,
}
use energlens.Session.Auth.{mounted, start_boot, finish_boot, start_login, finish_login, receive}
use energlens.Session.Auth.Login.{finish_credentials, login}
use energlens.Session.Flight
use energlens.Session.Flight.{
  Session, fresh, boot, me, credentials, first, boots, booted, submits, grants, signs_in, IsHonest,
}
use energlens.Session.Flight.Own.{Runs-IsOwn}
use energlens.Session.Flight.Stale.{finish_boot-login}
use energlens.Examples.App.{denied, granted, read_token, at_start, granted-Carries}

-- Every token is the user's name.
abbrev named : Text → Json
named t = json_other t

abbrev old_token : Browser
old_token = record { token = some (codes "old"); has_handler = false; unauthorized_calls = 0 }

abbrev booting : Session
booting = record { auth = start_boot (mounted old_token); sent = boot (codes "old") ∷ [] }

abbrev asked : Session
asked = record { auth = finish_boot (answered denied) booting.auth; sent = credentials ∷ [] }

abbrev allowed : Session
allowed = record {
  auth = (finish_credentials read_token (answered granted) asked.auth).1;
  sent = me (codes "t") ∷ [];
}

abbrev at_home : Session
at_home = record { auth = (finish_login (answered granted) allowed.auth).1; sent = [] }

denied-IsHonest : IsHonest named (codes "old") (answered denied)
unfolding handle
denied-IsHonest b user h = absurd (ground arith)

granted-IsHonest : IsHonest named (codes "t") (answered granted)
unfolding handle
granted-IsHonest b user h = ground arith

-- The old token is denied, and a login follows.
one_login : Flight.Runs named read_token (fresh old_token) at_home
unfolding mounted set_unauthorized_handler start_boot finish_boot receive handle finish_credentials
    start_login set_token finish_login energlens.Client.api_error
one_login = Flight.steps (boots (fresh old_token)) (
    Flight.steps (booted booting (codes "old") (answered denied) [] first denied-IsHonest) (
      Flight.steps (submits (record asked { sent = [] })) (
        Flight.steps (grants asked (codes "t") (answered granted) [] first refl refl refl refl) (
          Flight.steps (signs_in allowed (codes "t") (answered granted) [] first granted-IsHonest)
            Flight.rests))))

Runs-IsOwn_example : json_other (codes "t") ≡ named (codes "t")
unfolding mounted set_unauthorized_handler start_boot finish_boot receive handle finish_credentials
    start_login set_token finish_login energlens.Client.api_error
Runs-IsOwn_example =
    Runs-IsOwn named read_token old_token one_login (codes "t") (json_other (codes "t")) refl refl

finish_boot-login_example :
    let out = (login read_token (answered granted) (answered granted) at_start).1 in
    ((finish_boot (answered granted) out).user ≡ some (json_other (codes "t")))
    × ((finish_boot (answered granted) out).browser.token ≡ some (codes "t"))
    × ((finish_boot (answered denied) out).user ≡ none)
    × ((finish_boot (answered denied) out).browser.token ≡ none)
finish_boot-login_example =
    finish_boot-login read_token granted granted granted denied (json_other (codes "t"))
      (json_other (codes "t")) (json_other (codes "t")) at_start granted-Carries granted-Carries
      granted-Carries refl refl
