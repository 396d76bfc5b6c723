-- ===== src/Session/Preferences.antt =====
-- Preferences, frontend/src/prefs/PreferencesProvider.tsx. `localStorage` and `JSON` are the
-- browser's: a store is a text that may be missing, or that cannot be reached, and `Codec` is how
-- JSON is read and written.
use energlens.Common.{
  ◌≡◌, refl, Bool, true, false, Option, none, some, [], ◌∷◌, Text, codes, text_eq, if◌then◌else◌,
  or_else, arith,
}

pub data NumberFormat : Type 0 where
  locale plain : NumberFormat

pub data DefaultRange : Type 0 where
  range12 range24 range_all : DefaultRange

pub record Preferences : Type 0 where
  pub number_format : NumberFormat
  pub default_range : DefaultRange

abbrev pub defaults : Preferences
defaults = record { number_format = locale; default_range = range24 }

-- The two fields of a parsed object, each a string or something else.
pub record Parsed : Type 0 where
  pub number_format : Option Text
  pub default_range : Option Text

-- `JSON.parse`, which may throw, as it reads the two fields, and `JSON.stringify`.
pub record Codec : Type 0 where
  pub parse : Text → Option Parsed
  pub stringify : Parsed → Text

abbrev pub number_format_text : NumberFormat → Text
number_format_text locale = codes "locale"
number_format_text plain = codes "plain"

abbrev pub default_range_text : DefaultRange → Text
default_range_text range12 = codes "12m"
default_range_text range24 = codes "24m"
default_range_text range_all = codes "all"

abbrev read_format : Option Text → NumberFormat
read_format none = defaults.number_format
read_format (some s) =
    if text_eq s (codes "plain")
    then plain
    else if text_eq s (codes "locale")
    then locale
    else defaults.number_format

abbrev read_range : Option Text → DefaultRange
read_range none = defaults.default_range
read_range (some s) =
    if text_eq s (codes "12m")
    then range12
    else if text_eq s (codes "24m")
    then range24
    else if text_eq s (codes "all")
    then range_all
    else defaults.default_range

-- The stored item, and whether the storage can be reached and takes a write.
pub record Storage : Type 0 where
  pub item : Option Text
  pub readable : Bool
  pub writable : Bool

abbrev from_item : Codec → Option Text → Preferences
from_item codec none = defaults
from_item codec (some []) = defaults
from_item codec (some (c ∷ cs)) = elim (codec.parse (c ∷ cs)) [
  | none ↦ defaults
  | some p ↦ record {
    number_format = read_format p.number_format;
    default_range = read_range p.default_range;
  }
]

-- `read`
unfoldable pub read : Codec → Storage → Preferences
read codec storage = if storage.readable then from_item codec storage.item else defaults

abbrev pub to_parsed : Preferences → Parsed
to_parsed p = record {
  number_format = some (number_format_text p.number_format);
  default_range = some (default_range_text p.default_range);
}

pub record Patch : Type 0 where
  pub number_format : Option NumberFormat
  pub default_range : Option DefaultRange

abbrev pub patched : Preferences → Patch → Preferences
patched current patch = record {
  number_format = or_else patch.number_format current.number_format;
  default_range = or_else patch.default_range current.default_range;
}

-- `setPrefs(patch)`
unfoldable pub set_prefs : Codec → Patch → Preferences × Storage → Preferences × Storage
set_prefs codec patch (current, storage) =
    let next = patched current patch in
    (
      next,
      if storage.writable
          then record storage { item = some (codec.stringify (to_parsed next)) }
          else storage,
    )

-- JSON reads back what it wrote, and never writes the empty text.
pub record IsCodec (codec : Codec) : Type 0 where
  pub parse-stringify : (p : Parsed) → codec.parse (codec.stringify p) ≡ some p
  pub stringify_nonempty : (p : Parsed) → text_eq (codec.stringify p) [] ≡ false

from_item-some :
    (codec : Codec) (s : Text) (p : Preferences)
    → codec.parse s ≡ some (to_parsed p)
    → text_eq s [] ≡ false
    → from_item codec (some s) ≡ p
from_item-some codec [] p e ne = absurd (ground arith)
from_item-some codec (c ∷ cs) p e ne = rw (e, from_item) (fields p)
  where
    fields :
        (p : Preferences)
        → ◌≡◌ {A = Preferences}
            (record {
              number_format = read_format (some (number_format_text p.number_format));
              default_range = read_range (some (default_range_text p.default_range));
            })
            p
    fields p = λ i. record {
      number_format = format_lem p.number_format i;
      default_range = range_lem p.default_range i;
    }
      where
        format_lem : (f : NumberFormat) → read_format (some (number_format_text f)) ≡ f
        format_lem locale = refl
        format_lem plain = refl

        range_lem : (r : DefaultRange) → read_range (some (default_range_text r)) ≡ r
        range_lem range12 = refl
        range_lem range24 = refl
        range_lem range_all = refl

-- Where the storage can be written and read, what `setPrefs` leaves there is read back as the
-- patch over the current preferences, which is also the new state.
pub read-set_prefs :
    (codec : Codec) (patch : Patch) (current : Preferences) (storage : Storage)
    → IsCodec codec
    → storage.readable ≡ true
    → storage.writable ≡ true
    → ((set_prefs codec patch (current, storage)).0 ≡ patched current patch)
      × (read codec (set_prefs codec patch (current, storage)).1 ≡ patched current patch)
unfolding set_prefs read
read-set_prefs codec patch current storage c r w = (
  refl,
  rw (w, r)
      (from_item-some codec _ (patched current patch) (c.parse-stringify _)
        (c.stringify_nonempty _)),
)
