-- ===== src/Session/Flight/Stale.antt =====
-- The boot request that is overtaken by a login: the boot effect has no clean-up, so the answer counts whenever
-- it comes.
use energlens.Common.{Text, ◌≢◌, false, ◌≡◌, refl, true, none, some, ap, ◌∙◌, arith}
use energlens.Client.{
  returned, api_error, Json, json_null, json_text, json_other, json_detail, answered, Response,
  handle, set_token,
}
use energlens.Session.Auth.{Auth, receive, finish_boot, start_login, boot_result}
use energlens.Session.Auth.Login.{login, login-eq, Carries, receive-Carries}

boot_result-eq :
    (user : Json) (s : Auth)
    → user ≢ json_null
    → boot_result (returned user, s) ≡ record s { user = some user; loading = false }
boot_result-eq json_null s ne = absurd (ne refl)
boot_result-eq (json_text t) s ne = refl
boot_result-eq (json_other t) s ne = refl
boot_result-eq (json_detail d) s ne = refl

finish_boot-eq :
    (r : Response) (user : Json) (s : Auth)
    → Carries r user
    → finish_boot (answered r) s ≡ record s { user = some user; loading = false }
unfolding finish_boot
finish_boot-eq r user s c =
    ap boot_result (receive-Carries r user s c) ∙ boot_result-eq user s c.not_null

-- A denial counts for whatever token is stored when it comes.
finish_boot-signed_out :
    (d : Response) (s : Auth)
    → d.status ≡ 401
    → s.browser.has_handler ≡ true
    → ((finish_boot (answered d) s).user ≡ none)
      × ((finish_boot (answered d) s).browser.token ≡ none)
unfolding finish_boot receive handle api_error
finish_boot-signed_out d s e h = ground arith

-- A login has succeeded while the boot request, with the token of before, was on its way. If the boot
-- request then succeeds, the user of the old token is shown over the session of the new one; and if it
-- is denied, the new token is thrown away and nobody is signed in.
pub finish_boot-login :
    (token_of : Json → Text) (granted me r d : Response) (body user old : Json) (s : Auth)
    → Carries granted body
    → Carries me user
    → Carries r old
    → d.status ≡ 401
    → s.browser.has_handler ≡ true
    → let out = (login token_of (answered granted) (answered me) s).1 in
      ((finish_boot (answered r) out).user ≡ some old)
      × ((finish_boot (answered r) out).browser.token ≡ some (token_of body))
      × ((finish_boot (answered d) out).user ≡ none)
      × ((finish_boot (answered d) out).browser.token ≡ none)
unfolding start_login set_token
finish_boot-login token_of granted me r d body user old s g m c e h =
    let signed_in = record (start_login (token_of body) s) {
      boot_error = none;
      user = some user;
    } in
    let (gone, cleared) = finish_boot-signed_out d signed_in e h in
    rw (login-eq token_of granted me body user s g m, finish_boot-eq r old signed_in c)
      (refl, refl, gone, cleared)
