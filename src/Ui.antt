-- ===== src/Ui.antt =====
-- The components that the pages share, frontend/src/components/ui, QueryError.tsx and ErrorBoundary.tsx, as far
-- as they decide something: what they show, and which of their buttons act.
pub mod Drawer
pub mod Picker
use energlens.Common.{
  ℕ, ◌≡◌, Bool, true, false, not, ◌&&◌, ◌||◌, Option, none, some, List, [], ◌∷◌, map, Text, codes,
  text_eq, if◌then◌else◌, or_else,
}
use energlens.Number.{Number}
use energlens.Format.{Intl, fmt_signed_pct}
use energlens.Client.{Thrown}
use energlens.Errors.{describe_error}

-- `DeltaChip`: its class, without the caller's own, and its text.
pub data Direction : Type 0 where
  flat up down : Direction

module _ {F : Type 0} ⦃n : Number F⦄ (intl : Intl F) where
  open n use {lit, abs, lt, is_finite}

  unfoldable pub delta_chip : Option F → Text → Direction × Text
  delta_chip none fallback = (flat, fallback)
  delta_chip (some value) fallback = if not (is_finite value) then (flat, fallback) else (
    if lt (abs value) (lit 5 2) then flat else if lt (lit 0 0) value then up else down,
    fmt_signed_pct intl (some value) 1,
  )

  -- The foot of a `StatCell`: a chip if there is a delta, which may be null, and a note.
  unfoldable pub stat_foot :
      Option (Option F) → Option Text → Option Text → Option (Direction × Text) × Option Text
  stat_foot delta fallback note = (chip delta, shown note)
    where
      chip : Option (Option F) → Option (Direction × Text)
      chip none = none
      chip (some value) = some (delta_chip value (or_else fallback (8212 ∷ [])))

      shown : Option Text → Option Text
      shown (some (c ∷ cs)) = some (c ∷ cs)
      shown _ = none

pub record SegmentedOption : Type 0 where
  pub value : Text
  pub label : Text
  pub disabled : Bool

-- A button of `Segmented`: whether it is pressed, and what a click on it calls `onChange` with.
unfoldable pub segment : Bool → Text → SegmentedOption → Bool × Option Text
segment is_disabled chosen option = (
  text_eq option.value chosen,
  if is_disabled || option.disabled then none else some option.value,
)

-- `QueryError`: the title, the detail, and the state of the retry button if there is one
unfoldable pub query_error : Bool → Thrown → Option Text → Bool → Bool → Text × Text × Option Bool
query_error is_offline error title has_retry is_retrying =
    let described = describe_error is_offline error in
    (
      or_else title described.title,
      described.detail,
      if described.can_retry && has_retry then some (not is_retrying) else none,
    )

-- What `ErrorBoundary` renders.
pub data Boundary : Type 0 where
  children inline_fallback page_fallback : Boundary

unfoldable pub boundary : Bool → Bool → Boundary
boundary has_error is_inline =
    if has_error then (if is_inline then inline_fallback else page_fallback) else children

-- `LAYERS`
unfoldable pub layers : List (Text × ℕ)
layers =
    (codes "rail", 5)
    ∷ (codes "topbar", 10)
    ∷ (codes "scrim", 19)
    ∷ (codes "popover", 20)
    ∷ (codes "tiles", 21)
    ∷ (codes "drawerScrim", 39)
    ∷ (codes "drawer", 40)
    ∷ []
