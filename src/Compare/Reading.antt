-- ===== src/Compare/Reading.antt =====
-- `toCsv` against a reader of CSV: a first line of comment, a line of quoted fields, and lines of plain fields.
pub mod RoundTrip
use energlens.Common.{append_assoc, append_nil, length-append, All-map}
use energlens.Common.{
  ℕ, zero, suc, ◌+◌, ◌≤◌, ◌<◌, ◌≡◌, refl, ap, ◌∙◌, Bool, true, false, Option, none, some, List, [],
  ◌∷◌, ◌++◌, map, All, Text, if◌then◌else◌, ◌==◌, length, arith,
}
use energlens.Number.{Number}
use energlens.Compare.{
  MetricDescriptor, Cell, null, undefined, label, value, Row, cell_at, CompareData,
}
use energlens.Compare.Modes.{ModeDescriptor}
use energlens.Compare.Csv.{
  join, quoted, double_quotes, newline, cell_text, csv_row, csv_lines, to_csv,
}
use energlens.Compare.Quoting.{read_quoted, Continues, read_quoted-quoted}

-- The fields of a text between separators: the first, and the others.
abbrev split_on : ℕ → Text → Text × List Text
split_on c [] = ([], [])
split_on c (x ∷ s) =
    let rest = split_on c s in if x == c then ([], rest.0 ∷ rest.1) else (x ∷ rest.0, rest.1)

abbrev pub fields_of : ℕ → Text → List Text
fields_of c s = let fields = split_on c s in fields.0 ∷ fields.1

-- The first line, and what is left behind it.
abbrev pub cut_line : Text → Option (Text × Text)
cut_line [] = none
cut_line (x ∷ s) = let rest = cut_line s in if x == newline then some ([], s) else onto x rest
  where
    onto : ℕ → Option (Text × Text) → Option (Text × Text)
    onto x none = none
    onto x (some (line, s)) = some (x ∷ line, s)

abbrev with_field : Text → Option (List Text × Text) → Option (List Text × Text)
with_field field none = none
with_field field (some (fields, s)) = some (field ∷ fields, s)

-- Behind a field: after a comma come more.
abbrev behind :
    (Text → Option (List Text × Text)) → Option (Text × Text) → Option (List Text × Text)
behind read none = none
behind read (some (field, [])) = some (field ∷ [], [])
behind read (some (field, x ∷ s)) =
    if x == b',' then with_field field (read s) else some (field ∷ [], x ∷ s)

-- Quoted fields with commas between them, and what is left behind them.
abbrev pub read_header : ℕ → Text → Option (List Text × Text)
read_header zero s = none
read_header (suc fuel) s = behind (read_header fuel) (read_quoted s)

abbrev pub read_rows : Text → Option (List (List Text))
read_rows [] = some []
read_rows (x ∷ s) = if x == newline then some (map (fields_of b',') (fields_of newline s)) else none

-- A whole file: the comment, the fields of the header, and those of the rows.
abbrev pub File : Type 0
File = Text × List Text × List (List Text)

abbrev pub with_rows : Text → List Text → Option (List (List Text)) → Option File
with_rows comment header none = none
with_rows comment header (some rows) = some (comment, header, rows)

abbrev pub with_header : Text → Option (List Text × Text) → Option File
with_header comment none = none
with_header comment (some (header, body)) = with_rows comment header (read_rows body)

abbrev pub with_comment : Option (Text × Text) → Option File
with_comment none = none
with_comment (some (comment, rest)) = with_header comment (read_header (suc (length rest)) rest)

abbrev pub read_csv : Text → Option File
read_csv s = with_comment (cut_line s)

-- A text without the character.
abbrev pub Free : ℕ → Text → Type 0
Free c s = All (λ x. (x == c) ≡ false) s

split_on-Free : (c : ℕ) (s : Text) → Free c s → split_on c s ≡ (s, [])
split_on-Free c [] f = refl
split_on-Free c (x ∷ s) (f, fs) = rw (f, split_on-Free c s fs) refl

split_on-append :
    (c : ℕ) (s rest : Text) → Free c s → split_on c (s ++ (c ∷ rest)) ≡ (s, fields_of c rest)
split_on-append c [] rest f = ground arith
split_on-append c (x ∷ s) rest (f, fs) = rw (f, split_on-append c s rest fs) refl

-- Fields without the separator, and at least one, are read back from their join.
pub fields_of-join :
    (c : ℕ) (s : Text) (ss : List Text)
    → All (Free c) (s ∷ ss)
    → fields_of c (join c (s ∷ ss)) ≡ s ∷ ss
unfolding join
fields_of-join c s [] (f, fs) = rw (split_on-Free c s f) refl
fields_of-join c s (t ∷ ts) (f, fs) =
    rw (split_on-append c s (join c (t ∷ ts)) f) (ap (◌∷◌ s) (fields_of-join c t ts fs))

pub cut_line-append :
    (line rest : Text) → Free newline line → cut_line (line ++ (newline ∷ rest)) ≡ some (line, rest)
cut_line-append [] rest f = refl
cut_line-append (x ∷ line) rest (f, fs) = rw (f, cut_line-append line rest fs) refl

-- What may stand behind a header: nothing, or a new line.
abbrev pub Ends : Text → Type 0
Ends [] = Unit
Ends (x ∷ s) = x ≡ newline

Ends-Continues : (rest : Text) → Ends rest → Continues rest
Ends-Continues [] e = tt
Ends-Continues (x ∷ s) e = ground arith

behind-Ends :
    (read : Text → Option (List Text × Text)) (h rest : Text)
    → Ends rest
    → behind read (some (h, rest)) ≡ some (h ∷ [], rest)
behind-Ends read h [] e = refl
behind-Ends read h (x ∷ s) e = ground arith

-- With more fuel than fields the header is read back.
pub read_header-quoted :
    (fuel : ℕ) (h : Text) (hs : List Text) (rest : Text)
    → length hs < fuel
    → Ends rest
    → read_header fuel (join b',' (map quoted (h ∷ hs)) ++ rest) ≡ some (h ∷ hs, rest)
unfolding join
read_header-quoted zero h hs rest lt e = absurd (omega arith)
read_header-quoted (suc fuel) h [] rest lt e =
    ap (behind (read_header fuel)) (read_quoted-quoted h rest (Ends-Continues rest e))
    ∙ behind-Ends (read_header fuel) h rest e
read_header-quoted (suc fuel) h (g ∷ gs) rest lt e =
    let later = join b',' (map quoted (g ∷ gs)) in
    ap (λ s. behind (read_header fuel) (read_quoted s))
      (append_assoc (quoted h) (b',' ∷ later) rest)
    ∙ ap (behind (read_header fuel)) (read_quoted-quoted h (b',' ∷ (later ++ rest)) refl)
    ∙ ap (with_field h) (read_header-quoted fuel g gs rest (omega arith) e)
