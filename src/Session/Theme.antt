-- ===== src/Session/Theme.antt =====
-- The theme, frontend/src/theme/ThemeProvider.tsx. The state is that of the provider with the
-- browser's part in it: the stored choice, the `data-theme` attribute and the OS's preference.
use energlens.Common.{
  ◌≡◌, refl, Bool, true, false, Option, none, some, Text, codes, text_eq, if◌then◌else◌, arith,
}

pub data ThemeChoice : Type 0 where
  light dark system : ThemeChoice

pub data ResolvedTheme : Type 0 where
  light_theme dark_theme : ResolvedTheme

pub record Theme : Type 0 where
  pub choice : ThemeChoice
  pub resolved : ResolvedTheme
  -- `document.documentElement.dataset.theme`
  pub attribute : ResolvedTheme
  -- `localStorage`: the item, and whether it can be read and written
  pub stored : Option Text
  pub readable : Bool
  pub writable : Bool
  -- the media query `(prefers-color-scheme: dark)`
  pub os_dark : Bool

abbrev pub choice_text : ThemeChoice → Text
choice_text light = codes "light"
choice_text dark = codes "dark"
choice_text system = codes "system"

abbrev choice_of : Option Text → ThemeChoice
choice_of none = system
choice_of (some s) =
    if text_eq s (codes "light") then light else if text_eq s (codes "dark") then dark else system

unfoldable pub read_choice : Theme → ThemeChoice
read_choice t = if t.readable then choice_of t.stored else system

abbrev pub system_theme : Bool → ResolvedTheme
system_theme true = dark_theme
system_theme false = light_theme

unfoldable pub resolve : Bool → ThemeChoice → ResolvedTheme
resolve os_dark system = system_theme os_dark
resolve os_dark light = light_theme
resolve os_dark dark = dark_theme

-- The first render, and the effect that asserts the attribute.
unfoldable pub mount : Theme → Theme
mount t =
    let resolved = resolve t.os_dark (read_choice t) in
    record t { choice = read_choice t; resolved = resolved; attribute = resolved }

unfoldable pub set_choice : ThemeChoice → Theme → Theme
set_choice next t =
    let resolved = resolve t.os_dark next in
    record t {
      attribute = resolved;
      resolved = resolved;
      choice = next;
      stored = if t.writable then some (choice_text next) else t.stored;
    }

-- The OS changes its preference; the listener is there only under `system`.
unfoldable pub os_change : Bool → Theme → Theme
os_change os_dark t = elim t.choice [
  | system ↦ record t {
    os_dark = os_dark;
    attribute = system_theme os_dark;
    resolved = system_theme os_dark;
  }
  | _ ↦ record t { os_dark = os_dark }
]

pub data Step : Theme → Theme → Type 0 where
  chooses : (next : ThemeChoice) (t : Theme) → Step t (set_choice next t)
  os_changes : (os_dark : Bool) (t : Theme) → Step t (os_change os_dark t)

pub data Reach (s : Theme) : Theme → Type 0 where
  here : Reach s s
  next : {t u : Theme} → Reach s t → Step t u → Reach s u

-- What a choice stands for: itself, or what the OS prefers.
abbrev pub meant : Bool → ThemeChoice → ResolvedTheme
meant os_dark light = light_theme
meant os_dark dark = dark_theme
meant true system = dark_theme
meant false system = light_theme

resolve-eq-meant : (os_dark : Bool) (c : ThemeChoice) → resolve os_dark c ≡ meant os_dark c
unfolding resolve
resolve-eq-meant os_dark light = refl
resolve-eq-meant os_dark dark = refl
resolve-eq-meant true system = refl
resolve-eq-meant false system = refl

-- The page shows what the choice stands for now.
pub record IsShown (t : Theme) : Type 0 where
  pub resolved_is : t.resolved ≡ meant t.os_dark t.choice
  pub attribute_is : t.attribute ≡ t.resolved

set_choice-IsShown : (c : ThemeChoice) (t : Theme) → IsShown (set_choice c t)
unfolding set_choice
set_choice-IsShown c t = record { resolved_is = resolve-eq-meant t.os_dark c; attribute_is = refl }

os_change-IsShown : (os_dark : Bool) (t : Theme) → IsShown t → IsShown (os_change os_dark t)
unfolding os_change resolve
os_change-IsShown os_dark t v = ground arith

Step-IsShown : {t u : Theme} → Step t u → IsShown t → IsShown u
Step-IsShown (chooses c t) v = set_choice-IsShown c t
Step-IsShown (os_changes d t) v = os_change-IsShown d t v

Reach-IsShown : {s t : Theme} → IsShown s → Reach s t → IsShown t
Reach-IsShown v here = v
Reach-IsShown v (next r st) = Step-IsShown st (Reach-IsShown v r)

mount-IsShown : (t : Theme) → IsShown (mount t)
unfolding mount
mount-IsShown t = record {
  resolved_is = resolve-eq-meant t.os_dark (read_choice t);
  attribute_is = refl;
}

-- After any choices of the user and changes of the OS, the resolved theme and the attribute are what
-- the choice stands for under the OS's present preference.
pub mount-Reach-IsShown : (s : Theme) {t : Theme} → Reach (mount s) t → IsShown t
mount-Reach-IsShown s r = Reach-IsShown (mount-IsShown s) r

-- The stored text is the choice, not what it resolved to: after a reload the page has the same
-- choice, also `system`, and follows the OS again.
pub read_choice-set_choice :
    (c : ThemeChoice) (t : Theme)
    → t.writable ≡ true
    → t.readable ≡ true
    → read_choice (set_choice c t) ≡ c
unfolding read_choice set_choice
read_choice-set_choice light t w r = rw (w, r) refl
read_choice-set_choice dark t w r = rw (w, r) refl
read_choice-set_choice system t w r = rw (w, r) refl
