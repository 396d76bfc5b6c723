-- ===== src/Examples/Choices.antt =====
-- Runs of the theorems on the preferences and the theme.
use energlens.Common.{
  ℕ, zero, suc, ◌≡◌, refl, ap, true, false, Option, none, some, [], ◌∷◌, ◌++◌, Text, length, take,
  drop,
}
use energlens.Session.Preferences.{
  Codec, IsCodec, Parsed, Patch, Storage, defaults, plain, patched, read, set_prefs, read-set_prefs,
}
use energlens.Session.Theme.{
  Theme, system, light_theme, mount, here, next, chooses, os_changes, IsShown, mount-Reach-IsShown,
  set_choice, os_change,
}

-- A codec that writes a tag for each field, the length of the first, and both.
abbrev tag : Option Text → ℕ
tag none = 0
tag (some s) = 1

abbrev text_of : Option Text → Text
text_of none = []
text_of (some s) = s

abbrev tagged : ℕ → Text → Option Text
tagged zero s = none
tagged (suc _) s = some s

abbrev write : Parsed → Text
write p =
    tag p.number_format
    ∷ tag p.default_range
    ∷ length (text_of p.number_format)
    ∷ (text_of p.number_format ++ text_of p.default_range)

abbrev parse : Text → Option Parsed
parse (t ∷ u ∷ n ∷ rest) =
    some (record { number_format = tagged t (take n rest); default_range = tagged u (drop n rest) })
parse _ = none

abbrev tag_codec : Codec
tag_codec = record { parse = parse; stringify = write }

take-++ : (s t : Text) → take (length s) (s ++ t) ≡ s
take-++ [] t = refl
take-++ (c ∷ s) t = ap (λ u. c ∷ u) (take-++ s t)

drop-++ : (s t : Text) → drop (length s) (s ++ t) ≡ t
drop-++ [] t = refl
drop-++ (c ∷ s) t = drop-++ s t

tagged-text_of : (o : Option Text) → tagged (tag o) (text_of o) ≡ o
tagged-text_of none = refl
tagged-text_of (some s) = refl

tag_codec-IsCodec : IsCodec tag_codec
tag_codec-IsCodec = record {
  parse-stringify = λ p.
      rw
        (
          take-++ (text_of p.number_format) (text_of p.default_range),
          drop-++ (text_of p.number_format) (text_of p.default_range),
          tagged-text_of p.number_format,
          tagged-text_of p.default_range,
        )
        refl;
  stringify_nonempty = λ p. refl;
}

abbrev plain_numbers : Patch
plain_numbers = record { number_format = some plain; default_range = none }

abbrev empty_storage : Storage
empty_storage = record { item = none; readable = true; writable = true }

read-set_prefs_example :
    ((set_prefs tag_codec plain_numbers (defaults, empty_storage)).0
      ≡ patched defaults plain_numbers)
    × (read tag_codec (set_prefs tag_codec plain_numbers (defaults, empty_storage)).1
        ≡ patched defaults plain_numbers)
read-set_prefs_example =
    read-set_prefs tag_codec plain_numbers defaults empty_storage tag_codec-IsCodec refl refl

abbrev first_visit : Theme
first_visit = record {
  choice = system;
  resolved = light_theme;
  attribute = light_theme;
  stored = none;
  readable = true;
  writable = true;
  os_dark = true;
}

mount-Reach-IsShown_example : IsShown (os_change false (set_choice system (mount first_visit)))
mount-Reach-IsShown_example = mount-Reach-IsShown first_visit (
    next (next here (chooses system (mount first_visit)))
      (os_changes false (set_choice system (mount first_visit))))
