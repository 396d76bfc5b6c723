-- ===== src/Session/Flight/Own.antt =====
-- In runs that store a token only while no request for the user is on its way, the user shown is the one of
-- the stored token.
use mathlib.Core.Option.{some-injective}
use mathlib.Core.Path.{subst}
use energlens.Common.{
  ◌+◌, Bool, true, false, ◌≡◌, refl, sym, ◌∙◌, Option, none, some, List, ◌∷◌, Text, All, ◌⊎◌, inl,
  inr, arith,
}
use energlens.Client.{
  Json, Browser, json_null, json_text, json_other, json_detail, Answer, Outcome, returned,
  returned_undefined, thrown, Thrown, set_token,
}
use energlens.Session.Auth.{
  Auth, receive, start_boot, finish_boot, retry_boot, logout, start_login, mounted, finish_login,
  login_result, boot_result, has_token,
}
use energlens.Session.Auth.Login.{finish_credentials, credentials_result}
use energlens.Session.Flight.{
  Sent, boot, me, Session, fresh, quiet, sent_with, boot_sent, Takes, IsHonest, Step, boots,
  retries, booted, submits, refuses, grants, calls_back, signs_in, requests, responds, logs_out,
  Runs, rests, steps, IsOwn, IsCurrent, IsSound,
}
use energlens.Session.Flight.Kept.{
  KeepsToken, KeepsUser, receive-Keeps, receive-outcome, Keeps-IsOwn, Keeps-Carries,
  Keeps-IsCurrent, quiet-IsCurrent, All-Takes, boot_result-token, boot_result-IsOwn,
  login_result-IsOwn, login_result-token,
}

module _ (who : Text → Json) (token_of : Json → Text) where
  -- The answer to a request for the user, which is taken from those on their way.
  finish_boot-IsSound :
      (t : Text) (answer : Answer) (s : Session) (rest : List Sent)
      → Takes (boot t) s.sent rest
      → IsHonest who t answer
      → IsSound who s
      → IsSound who (record s { auth = finish_boot answer s.auth; sent = rest })
  unfolding finish_boot
  finish_boot-IsSound t answer s rest taken honest sound =
      let (token, user) = receive-Keeps answer s.auth in
      let u = (receive answer s.auth).1 in
      let (c, cs) = All-Takes (IsCurrent s.auth) taken sound.current in
      record {
        own =
            boot_result-IsOwn who t (receive answer s.auth).0 u (Keeps-Carries s.auth u t token c)
              (Keeps-IsOwn who s.auth u token user sound.own)
              (λ body e. honest s.auth.browser body (sym (receive-outcome answer s.auth) ∙ e));
        current =
            Keeps-IsCurrent u (boot_result ((receive answer s.auth).0, u)) rest
              (inl (boot_result-token (receive answer s.auth).0 u))
              (Keeps-IsCurrent s.auth u rest token cs);
      }

  finish_login-IsSound :
      (t : Text) (answer : Answer) (s : Session) (rest : List Sent)
      → Takes (me t) s.sent rest
      → IsHonest who t answer
      → IsSound who s
      → IsSound who (record s { auth = (finish_login answer s.auth).1; sent = rest })
  unfolding finish_login
  finish_login-IsSound t answer s rest taken honest sound =
      let (token, user) = receive-Keeps answer s.auth in
      let u = (receive answer s.auth).1 in
      let (c, cs) = All-Takes (IsCurrent s.auth) taken sound.current in
      record {
        own =
            login_result-IsOwn who t (receive answer s.auth).0 u (Keeps-Carries s.auth u t token c)
              (Keeps-IsOwn who s.auth u token user sound.own)
              (λ body e. honest s.auth.browser body (sym (receive-outcome answer s.auth) ∙ e));
        current =
            Keeps-IsCurrent u (login_result ((receive answer s.auth).0, u)).1 rest
              (inl (login_result-token (receive answer s.auth).0 u))
              (Keeps-IsCurrent s.auth u rest token cs);
      }

  -- What keeps or drops the token and the user of a sound state.
  kept-IsSound :
      (s : Session) (u : Auth) (rest : List Sent)
      → KeepsToken s.auth u
      → KeepsUser s.auth u
      → All (IsCurrent s.auth) rest
      → IsSound who s
      → IsSound who (record s { auth = u; sent = rest })
  kept-IsSound s u rest token user cs sound = record {
    own = Keeps-IsOwn who s.auth u token user sound.own;
    current = Keeps-IsCurrent s.auth u rest token cs;
  }

  -- What stores a token while nobody is signed in.
  stored-IsSound :
      (t : Text) (s : Session) (u : Auth) (rest : List Sent)
      → u.browser.token ≡ some t
      → u.user ≡ none
      → quiet rest ≡ true
      → IsSound who (record s { auth = u; sent = me t ∷ rest })
  stored-IsSound t s u rest e none_in q = record {
    own = λ w user h k. absurd (ground arith);
    current = (λ w h. some-injective _ _ (sym h ∙ e), quiet-IsCurrent u rest q);
  }

  credentials_result-refused :
      (o : Outcome) (s : Auth) (e : Thrown)
      → (credentials_result token_of (o, s)).0 ≡ some e
      → (credentials_result token_of (o, s)).1 ≡ s
  credentials_result-refused (returned json_null) s e h = refl
  credentials_result-refused (returned (json_text x)) s e h = absurd (ground arith)
  credentials_result-refused (returned (json_other x)) s e h = absurd (ground arith)
  credentials_result-refused (returned (json_detail d)) s e h = absurd (ground arith)
  credentials_result-refused returned_undefined s e h = refl
  credentials_result-refused (thrown f) s e h = refl

  credentials_result-user :
      (o : Outcome) (s : Auth) → (credentials_result token_of (o, s)).1.user ≡ s.user
  unfolding start_login
  credentials_result-user (returned json_null) s = refl
  credentials_result-user (returned (json_text x)) s = refl
  credentials_result-user (returned (json_other x)) s = refl
  credentials_result-user (returned (json_detail d)) s = refl
  credentials_result-user returned_undefined s = refl
  credentials_result-user (thrown f) s = refl

  start_boot-Keeps : (s : Auth) → KeepsToken s (start_boot s) × KeepsUser s (start_boot s)
  unfolding start_boot
  start_boot-Keeps s = ground arith

  sent_with-IsCurrent :
      (s : Auth) (has : Bool) (token : Option Text) (sent : List Sent)
      → s.browser.token ≡ token
      → All (IsCurrent s) sent
      → All (IsCurrent s) (sent_with has token sent)
  sent_with-IsCurrent s true (some t) sent e cs = (λ u h. some-injective _ _ (sym h ∙ e), cs)
  sent_with-IsCurrent s true none sent e cs = cs
  sent_with-IsCurrent s false token sent e cs = cs

  start_boot-IsSound :
      (s : Session) (u : Auth)
      → u.browser.token ≡ s.auth.browser.token
      → u.user ≡ s.auth.user
      → IsSound who s
      → IsSound who (record s { auth = start_boot u; sent = boot_sent s.auth s.sent })
  start_boot-IsSound s u t v sound =
      let (token, user) = start_boot-Keeps u in
      kept-IsSound (record s { sent = boot_sent s.auth s.sent }) (start_boot u)
        (boot_sent s.auth s.sent) (via token t) (via user v)
        (sent_with-IsCurrent s.auth (has_token s.auth) s.auth.browser.token s.sent refl
          sound.current)
        (record {
          own = sound.own;
          current =
              sent_with-IsCurrent s.auth (has_token s.auth) s.auth.browser.token s.sent refl
                sound.current;
        })
    where
      via : {A : Type 0} {x y z : Option A} → (z ≡ y) ⊎ (z ≡ none) → y ≡ x → (z ≡ x) ⊎ (z ≡ none)
      via (inl e) f = inl (e ∙ f)
      via (inr e) f = inr e

  still_none : {x y : Option Json} → (y ≡ x) ⊎ (y ≡ none) → x ≡ none → y ≡ none
  still_none (inl e) h = e ∙ h
  still_none (inr e) h = e

  Step-IsSound : {s t : Session} → Step who token_of s t → IsSound who s → IsSound who t
  unfolding retry_boot logout set_token start_login finish_credentials
  Step-IsSound (boots s) sound = start_boot-IsSound s s.auth refl refl sound
  Step-IsSound (retries s) sound =
      start_boot-IsSound s (record s.auth { boot_attempt = s.auth.boot_attempt + 1 }) refl refl
        sound
  Step-IsSound (booted s t answer rest taken honest) sound =
      finish_boot-IsSound t answer s rest taken honest sound
  Step-IsSound (submits s) sound = record { own = sound.own; current = (tt, sound.current) }
  Step-IsSound (refuses s answer rest e taken h) sound =
      let (token, user) = receive-Keeps answer s.auth in
      let same =
        credentials_result-refused (receive answer s.auth).0 (receive answer s.auth).1 e h in
      subst (λ u. IsSound who (record s { auth = u; sent = rest })) (sym same)
        (kept-IsSound s (receive answer s.auth).1 rest token user
          (All-Takes (IsCurrent s.auth) taken sound.current).1 sound)
  Step-IsSound (grants s t answer rest taken h ok q none_in) sound =
      stored-IsSound t s (finish_credentials token_of answer s.auth).1 rest h
        (credentials_result-user (receive answer s.auth).0 (receive answer s.auth).1
          ∙ still_none (receive-Keeps answer s.auth).1 none_in)
        q
  Step-IsSound (calls_back s t q none_in) sound =
      stored-IsSound t s (start_login t s.auth) s.sent refl none_in q
  Step-IsSound (signs_in s t answer rest taken honest) sound =
      finish_login-IsSound t answer s rest taken honest sound
  Step-IsSound (requests s) sound = record { own = sound.own; current = (tt, sound.current) }
  Step-IsSound (responds s answer rest taken) sound =
      let (token, user) = receive-Keeps answer s.auth in
      kept-IsSound s (receive answer s.auth).1 rest token user
        (All-Takes (IsCurrent s.auth) taken sound.current).1 sound
  Step-IsSound (logs_out s) sound =
      kept-IsSound s (logout s.auth) s.sent (inr refl) (inr refl) sound.current sound

  Runs-IsSound : {s t : Session} → Runs who token_of s t → IsSound who s → IsSound who t
  Runs-IsSound rests sound = sound
  Runs-IsSound (steps step run) sound = Runs-IsSound run (Step-IsSound step sound)

  -- Whatever is clicked after the start and in whatever order the answers come, logouts and refused
  -- requests of pages included: if a token is stored only while nobody is signed in and no request for
  -- the user is on its way, the user shown is the one of the stored token.
  pub Runs-IsOwn : (b : Browser) {t : Session} → Runs who token_of (fresh b) t → IsOwn who t.auth
  unfolding mounted
  Runs-IsOwn b run =
      (Runs-IsSound run (record { own = λ t user h k. absurd (ground arith); current = tt })).own
