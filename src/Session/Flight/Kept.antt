-- ===== src/Session/Flight/Kept.antt =====
-- What the operations of a session keep: the token, the user, and which requests carry the token.
use mathlib.Core.Option.{some-injective}
use energlens.Common.{
  true, ◌≡◌, refl, sym, ap, ◌∙◌, none, some, List, [], ◌∷◌, Text, All, ◌⊎◌, inl, inr, arith,
}
use energlens.Client.{
  Json, json_null, json_text, json_other, json_detail, Answer, rejected, answered, Outcome,
  returned, returned_undefined, thrown, Thrown, handle,
}
use energlens.Session.Auth.{Auth, receive, user_of, login_result, boot_result}
use energlens.Session.Flight.{
  Sent, boot, me, credentials, page_request, quiet, Takes, first, later, IsOwn, Carries, IsCurrent,
}

-- From one state to the other the token, and the user, are kept or dropped.
abbrev pub KeepsToken : Auth → Auth → Type 0
KeepsToken s u = (u.browser.token ≡ s.browser.token) ⊎ (u.browser.token ≡ none)

abbrev pub KeepsUser : Auth → Auth → Type 0
KeepsUser s u = (u.user ≡ s.user) ⊎ (u.user ≡ none)

pub receive-Keeps :
    (answer : Answer) (s : Auth)
    → KeepsToken s (receive answer s).1 × KeepsUser s (receive answer s).1
unfolding receive handle
receive-Keeps rejected s = ground arith
receive-Keeps (answered r) s = ground arith

pub receive-outcome :
    (answer : Answer) (s : Auth) → (receive answer s).0 ≡ (handle answer s.browser).0
unfolding receive
receive-outcome answer s = refl

pub Keeps-Carries : (s u : Auth) (t : Text) → KeepsToken s u → Carries t s → Carries t u
Keeps-Carries s u t (inl e) c w h = c w (sym e ∙ h)
Keeps-Carries s u t (inr e) c w h = absurd (ground arith)

pub Keeps-IsCurrent :
    (s u : Auth) (sent : List Sent)
    → KeepsToken s u
    → All (IsCurrent s) sent
    → All (IsCurrent u) sent
Keeps-IsCurrent s u [] k cs = tt
Keeps-IsCurrent s u (boot t ∷ rest) k (c, cs) =
    (Keeps-Carries s u t k c, Keeps-IsCurrent s u rest k cs)
Keeps-IsCurrent s u (me t ∷ rest) k (c, cs) =
    (Keeps-Carries s u t k c, Keeps-IsCurrent s u rest k cs)
Keeps-IsCurrent s u (credentials ∷ rest) k (c, cs) = (tt, Keeps-IsCurrent s u rest k cs)
Keeps-IsCurrent s u (page_request ∷ rest) k (c, cs) = (tt, Keeps-IsCurrent s u rest k cs)

pub quiet-IsCurrent : (u : Auth) (sent : List Sent) → quiet sent ≡ true → All (IsCurrent u) sent
quiet-IsCurrent u [] q = tt
quiet-IsCurrent u (boot t ∷ rest) q = absurd (ground arith)
quiet-IsCurrent u (me t ∷ rest) q = absurd (ground arith)
quiet-IsCurrent u (credentials ∷ rest) q = (tt, quiet-IsCurrent u rest q)
quiet-IsCurrent u (page_request ∷ rest) q = (tt, quiet-IsCurrent u rest q)

pub All-Takes :
    (P : Sent → Type 0) {r : Sent} {sent rest : List Sent}
    → Takes r sent rest
    → All P sent
    → P r × All P rest
All-Takes P first ps = ps
All-Takes P (later t) (p, ps) = let (q, qs) = All-Takes P t ps in (q, (p, qs))

pub user_of-some : (body user : Json) → user_of body ≡ some user → user ≡ body
user_of-some json_null user h = absurd (ground arith)
user_of-some (json_text x) user h = sym (some-injective _ _ h)
user_of-some (json_other x) user h = sym (some-injective _ _ h)
user_of-some (json_detail d) user h = sym (some-injective _ _ h)

pub boot_result-token :
    (o : Outcome) (s : Auth) → (boot_result (o, s)).browser.token ≡ s.browser.token
boot_result-token (returned body) s = refl
boot_result-token returned_undefined s = refl
boot_result-token (thrown e) s = ground arith

pub boot_result-thrown : (e : Thrown) (s : Auth) → (boot_result (thrown e, s)).user ≡ s.user
boot_result-thrown e s = ground arith

pub login_result-token :
    (o : Outcome) (s : Auth) → (login_result (o, s)).1.browser.token ≡ s.browser.token
login_result-token (returned body) s = refl
login_result-token returned_undefined s = refl
login_result-token (thrown e) s = refl

module _ (who : Text → Json) where
  abbrev Own : Auth → Type 0
  Own = IsOwn who

  pub Keeps-IsOwn : (s u : Auth) → KeepsToken s u → KeepsUser s u → Own s → Own u
  Keeps-IsOwn s u (inl t) (inl v) own w user h k = own w user (sym t ∙ h) (sym v ∙ k)
  Keeps-IsOwn s u (inr t) _ own w user h k = absurd (ground arith)
  Keeps-IsOwn s u _ (inr v) own w user h k = absurd (ground arith)

  -- The user of an honest answer to a request that carries the stored token is the token's.
  pub answer-IsOwn :
      (t : Text) (body : Json) (s : Auth)
      → Carries t s
      → body ≡ who t
      → (u : Text) (user : Json) → s.browser.token ≡ some u
      → user_of body ≡ some user
      → user ≡ who u
  answer-IsOwn t body s c e u user h k = user_of-some body user k ∙ e ∙ ap who (sym (c u h))

  pub boot_result-IsOwn :
      (t : Text) (o : Outcome) (s : Auth)
      → Carries t s
      → Own s
      → ((body : Json) → o ≡ returned body → body ≡ who t)
      → Own (boot_result (o, s))
  boot_result-IsOwn t (returned body) s c own honest u user h k =
      answer-IsOwn t body s c (honest body refl) u user h k
  boot_result-IsOwn t returned_undefined s c own honest u user h k = absurd (ground arith)
  boot_result-IsOwn t (thrown e) s c own honest u user h k =
      own u user (sym (boot_result-token (thrown e) s) ∙ h) (sym (boot_result-thrown e s) ∙ k)

  pub login_result-IsOwn :
      (t : Text) (o : Outcome) (s : Auth)
      → Carries t s
      → Own s
      → ((body : Json) → o ≡ returned body → body ≡ who t)
      → Own (login_result (o, s)).1
  login_result-IsOwn t (returned body) s c own honest u user h k =
      answer-IsOwn t body s c (honest body refl) u user h k
  login_result-IsOwn t returned_undefined s c own honest u user h k = absurd (ground arith)
  login_result-IsOwn t (thrown e) s c own honest u user h k = own u user h k
