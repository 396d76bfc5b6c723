-- ===== src/Ui/Picker.antt =====
-- frontend/src/components/compare/MetricPicker.tsx: the popover of the metrics. An event is one of the
-- document's or of the component; a click on something outside first is a press there.
use energlens.Common.{◌≡◌, refl, Bool, true, false, not, if◌then◌else◌}
use energlens.Compare.{MetricId}

-- What can be pressed: the picker's button, one of its options, or a tile outside it.
pub data Target : Type 0 where
  button outside : Target
  option tile : MetricId → Target

pub record Picker : Type 0 where
  pub is_open : Bool
  pub selected : MetricId

abbrev is_inside : Target → Bool
is_inside button = true
is_inside (option id) = true
is_inside _ = false

-- `onPointerDown`, which listens only while the popover is open
unfoldable pub pointer_down : Target → Picker → Picker
pointer_down target p = if is_inside target then p else record p { is_open = false }

-- `onClick` of what is pressed; an option is there only while the popover is open.
unfoldable pub click : Target → Picker → Picker
click button p = record p { is_open = not p.is_open }
click (option id) p = if p.is_open then record p { is_open = false; selected = id } else p
click (tile id) p = record p { selected = id }
click outside p = p

unfoldable pub escape : Picker → Picker
escape p = record p { is_open = false }

-- The press and the click of one gesture.
unfoldable pub press : Target → Picker → Picker
press target p = click target (pointer_down target p)

-- One press on a tile selects its metric, whether the popover is open or not, and leaves it shut.
pub press-tile :
    (id : MetricId) (p : Picker) → press (tile id) p ≡ record { is_open = false; selected = id }
unfolding press click pointer_down
press-tile id p = refl
