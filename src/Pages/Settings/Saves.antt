-- ===== src/Pages/Settings/Saves.antt =====
-- The changes of the account on the settings page, in any order of clicks, typing and answers.
use mathlib.Core.Path.{subst}
use energlens.Common.{
  ◌≡◌, refl, sym, ◌∙◌, Bool, true, false, ◌||◌, Option, none, some, List, [], ◌∷◌, ◌++◌, Text,
  is_some, arith,
}
use energlens.Client.{Json, Answer, Outcome, returned, returned_undefined, thrown}
use energlens.Session.Auth.{Auth, receive}
use energlens.Pages.Settings.{
  Settings, AccountField, email_field, password_field, save_disabled, start_patch, finish_patch,
  start_export, finish_export, gather, start_delete, finish_delete, value_of, settled, built, gone,
}

module _ (email_of : Json → Text) (strip : Text → Text) where
  -- What can happen next on the page.
  pub data Step : Settings → Settings → Type 0 where
    types_email : (s : Settings) (text : Text) → Step s (record s { email = text })
    types_password : (s : Settings) (text : Text) → Step s (record s { password = text })
    clicks :
        (s : Settings) (field : AccountField)
        → save_disabled email_of strip field s ≡ false
        → Step s (start_patch field s)
    answers :
        (s : Settings) (before after : List (AccountField × Text)) (field : AccountField)
        (value : Text) (answer : Answer)
        → s.in_flight ≡ before ++ ((field, value) ∷ after)
        → Step s (finish_patch field answer (before ++ after) s)
    exports : (s : Settings) → Step s (start_export s)
    exported : (s : Settings) (got : List (Text × Answer)) → Step s (finish_export got s).1
    deletes : (s : Settings) (confirmed : Bool) → Step s (start_delete confirmed s)
    deleted : (s : Settings) (answer : Answer) → Step s (finish_delete answer s)

  pub data Runs : Settings → Settings → Type 0 where
    rests : {s : Settings} → Runs s s
    steps : {s t u : Settings} → Step s t → Runs t u → Runs s u

abbrev pub Only : Option AccountField → List (AccountField × Text) → Type 0
Only none out = out ≡ []
Only (some field) out = (value : Text) × (out ≡ (field, value) ∷ [])

-- At most one change is in flight: the one that `saving` names.
abbrev pub IsSingle : Settings → Type 0
IsSingle s = Only s.saving s.in_flight

none_saving : (o : Option AccountField) (b : Bool) → (is_some o || b) ≡ false → o ≡ none
none_saving none b h = refl
none_saving (some field) b h = absurd (ground arith)

enabled_saving :
    (email_of : Json → Text) (strip : Text → Text) (field : AccountField) (s : Settings)
    → save_disabled email_of strip field s ≡ false
    → s.saving ≡ none
unfolding save_disabled
enabled_saving email_of strip email_field s h = none_saving s.saving _ h
enabled_saving email_of strip password_field s h = none_saving s.saving _ h

start_patch-IsSingle :
    (field : AccountField) (s : Settings)
    → s.saving ≡ none
    → IsSingle s
    → IsSingle (start_patch field s)
unfolding start_patch
start_patch-IsSingle field s free single =
    let out : s.in_flight ≡ [] = subst (λ o. Only o s.in_flight) free single in
    (value_of field s, rw out refl)

no_item : {x : AccountField × Text} {xs : List (AccountField × Text)} → [] ≡ x ∷ xs → ⊥
no_item h = ground arith

tail : {x y : AccountField × Text} {xs ys : List (AccountField × Text)} → x ∷ xs ≡ y ∷ ys → xs ≡ ys
tail h = ground arith

last_out :
    (o : Option AccountField) (out before after : List (AccountField × Text))
    (x : AccountField × Text)
    → out ≡ before ++ (x ∷ after)
    → Only o out
    → before ++ after ≡ []
last_out none out [] after x e single = absurd (no_item (sym single ∙ e))
last_out none out (y ∷ before) after x e single = absurd (no_item (sym single ∙ e))
last_out (some field) out [] after x e (value, single) = tail (sym e ∙ single)
last_out (some field) out (y ∷ []) after x e (value, single) =
    absurd (no_item (sym (tail (sym e ∙ single))))
last_out (some field) out (y ∷ z ∷ before) after x e (value, single) =
    absurd (no_item (sym (tail (sym e ∙ single))))

settled-IsSingle :
    (field : AccountField) (outcome : Outcome) (s : Settings)
    → IsSingle s
    → IsSingle (settled field outcome s)
settled-IsSingle field (thrown e) s single = single
settled-IsSingle field (returned body) s single = single
settled-IsSingle field returned_undefined s single = single

gone-IsSingle : (outcome : Outcome) (s : Settings) → IsSingle s → IsSingle (gone outcome s)
gone-IsSingle (thrown e) s single = single
gone-IsSingle (returned body) s single = single
gone-IsSingle returned_undefined s single = single

built-IsSingle :
    (s : Settings) (got : Option (List (Text × Outcome)) × Auth)
    → IsSingle s
    → IsSingle (built s got).1
built-IsSingle s (some places, auth) single = single
built-IsSingle s (none, auth) single = single

Step-IsSingle :
    (email_of : Json → Text) (strip : Text → Text) {s t : Settings}
    → Step email_of strip s t
    → IsSingle s
    → IsSingle t
unfolding finish_patch start_export finish_export start_delete finish_delete
Step-IsSingle email_of strip (types_email s text) single = single
Step-IsSingle email_of strip (types_password s text) single = single
Step-IsSingle email_of strip (clicks s field enabled) single =
    start_patch-IsSingle field s (enabled_saving email_of strip field s enabled) single
Step-IsSingle email_of strip (answers s before after field value answer out) single =
    settled-IsSingle field (receive answer s.auth).0
      (record s { auth = (receive answer s.auth).1; saving = none; in_flight = before ++ after })
      (last_out s.saving s.in_flight before after (field, value) out single)
Step-IsSingle email_of strip (exports s) single = single
Step-IsSingle email_of strip (exported s got) single = built-IsSingle s (gather got s.auth) single
Step-IsSingle email_of strip (deletes s true) single = single
Step-IsSingle email_of strip (deletes s false) single = single
Step-IsSingle email_of strip (deleted s answer) single =
    gone-IsSingle (receive answer s.auth).0 (record s { auth = (receive answer s.auth).1 }) single

-- Whatever is typed and clicked on the page and in whatever order the answers come, at most one change of
-- the account is in flight at a time, and `saving` names it.
pub Runs-IsSingle :
    (email_of : Json → Text) (strip : Text → Text) {s t : Settings}
    → Runs email_of strip s t
    → IsSingle s
    → IsSingle t
Runs-IsSingle email_of strip rests single = single
Runs-IsSingle email_of strip (steps step rest) single =
    Runs-IsSingle email_of strip rest (Step-IsSingle email_of strip step single)
