-- ===== src/Ui/Drawer.antt =====
-- frontend/src/components/ui/Drawer.tsx: the effect on the document and its clean-up. React runs the clean-up
-- and the effect again whenever `open` or `onClose` is another value than at the last render.
use energlens.Common.{ℕ, ◌+◌, ◌-◌, ◌≡◌, refl, ap, Option, some, Text, codes, or_else, arith}

pub record Document : Type 0 where
  -- `document.activeElement`
  pub focus : Text
  pub overflow : Text
  pub key_listeners : ℕ

-- What the effect leaves for its clean-up: the ref, and the overflow it found.
pub record Saved : Type 0 where
  pub restore_focus_to : Text
  pub previous_overflow : Text

-- The effect of an open drawer; its panel's first field, if it has one, is an argument.
unfoldable pub open_effect : Option Text → Document → Document × Saved
open_effect first_field d = (
  record {
    focus = or_else first_field d.focus;
    overflow = codes "hidden";
    key_listeners = d.key_listeners + 1;
  },
  record { restore_focus_to = d.focus; previous_overflow = d.overflow },
)

unfoldable pub clean_up : Document × Saved → Document
clean_up (d, saved) = record {
  focus = saved.restore_focus_to;
  overflow = saved.previous_overflow;
  key_listeners = d.key_listeners - 1;
}

-- A render in which the drawer stays open and `onClose` is a new function, as the pages pass it.
unfoldable pub rerender : Option Text → Document × Saved → Document × Saved
rerender first_field (d, saved) = open_effect first_field (clean_up (d, saved))

-- The reader's moves between the two: the focus goes elsewhere.
abbrev pub focused : Text → Document × Saved → Document × Saved
focused element (d, saved) = (record d { focus = element }, saved)

-- The document of a drawer that was opened over `d` and has been re-rendered and typed in.
abbrev pub IsOver : Document → Document × Saved → Type 0
IsOver d o =
    (o.1.restore_focus_to ≡ d.focus)
    × (o.1.previous_overflow ≡ d.overflow)
    × (o.0.key_listeners ≡ d.key_listeners + 1)

open_effect-IsOver :
    (first_field : Option Text) (d : Document) → IsOver d (open_effect first_field d)
unfolding open_effect
open_effect-IsOver first_field d = (refl, refl, refl)

rerender-IsOver :
    (first_field : Option Text) (d : Document) (o : Document × Saved)
    → IsOver d o
    → IsOver d (rerender first_field o)
unfolding rerender open_effect clean_up
rerender-IsOver first_field d (e, saved) (focus, overflow, listeners) =
    (focus, overflow, omega arith)

pub data Life (first_field : Option Text) : Document × Saved → Document × Saved → Type 0 where
  stays : {o : Document × Saved} → Life first_field o o
  renders_again :
      {o later : Document × Saved}
      → Life first_field (rerender first_field o) later
      → Life first_field o later
  moves :
      {o later : Document × Saved} (element : Text)
      → Life first_field (focused element o) later
      → Life first_field o later

Life-IsOver :
    (first_field : Option Text) (d : Document) {o later : Document × Saved}
    → Life first_field o later
    → IsOver d o
    → IsOver d later
Life-IsOver first_field d stays over = over
Life-IsOver first_field d {o = o} (renders_again rest) over =
    Life-IsOver first_field d rest (rerender-IsOver first_field d o over)
Life-IsOver first_field d (moves element rest) over = Life-IsOver first_field d rest over

-- A drawer that is closed, after any renders and any moves of the focus in between, leaves the document
-- as it was when it was opened: the focus, the scrolling of the page and the listeners for keys.
pub clean_up-open_effect :
    (first_field : Option Text) (d : Document) {later : Document × Saved}
    → Life first_field (open_effect first_field d) later
    → clean_up later ≡ d
unfolding clean_up
clean_up-open_effect first_field d {later} life =
    let (focus, overflow, listeners) =
      Life-IsOver first_field d life (open_effect-IsOver first_field d) in
    rw (focus, overflow, listeners) (ap (λ k. record d { key_listeners = k }) (omega arith))

-- A render with a new `onClose` takes the focus from where the reader is and puts it on the first field.
pub rerender-focus :
    (field element : Text) (o : Document × Saved)
    → (rerender (some field) (focused element o)).0.focus ≡ field
unfolding rerender open_effect clean_up
rerender-focus field element o = refl
