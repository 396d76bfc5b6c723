-- ===== src/Compare/Quoting.antt =====
-- The header fields of `toCsv` against a reader of quoted fields.
use energlens.Common.{append_assoc}
use energlens.Common.{
  ℕ, ◌≡◌, refl, ap, ◌∙◌, Bool, true, false, Option, none, some, [], ◌∷◌, ◌++◌, Text, if◌then◌else◌,
  ◌==◌, inl, inr, Bool-cases, arith,
}
use energlens.Compare.Csv.{double_quotes, quoted}

abbrev prepend : ℕ → Option (Text × Text) → Option (Text × Text)
prepend c none = none
prepend c (some (t, rest)) = some (c ∷ t, rest)

-- The rest of a quoted field, after a quote or not: a second quote is one of the text's, and anything
-- else after a quote is outside the field. The result is the text and what is left of the line.
abbrev read_body : Bool → Text → Option (Text × Text)
read_body false [] = none
read_body true [] = some ([], [])
read_body false (c ∷ s) =
    let closing = read_body true s in
    let inside = read_body false s in if c == b'"' then closing else prepend c inside
read_body true (c ∷ s) =
    let inside = read_body false s in if c == b'"' then prepend b'"' inside else some ([], c ∷ s)

-- A reader of a quoted CSV field.
abbrev pub read_quoted : Text → Option (Text × Text)
read_quoted [] = none
read_quoted (c ∷ s) = let field = read_body false s in if c == b'"' then field else none

-- A line that ends here or goes on with something else than a quote.
abbrev pub Continues : Text → Type 0
Continues [] = Unit
Continues (c ∷ rest) = (c == b'"') ≡ false

read_body-double_quotes :
    (s rest : Text)
    → Continues rest
    → read_body false (double_quotes s ++ (b'"' ∷ rest)) ≡ some (s, rest)
unfolding double_quotes
read_body-double_quotes [] [] h = refl
read_body-double_quotes [] (c ∷ rest) h = rw h refl
read_body-double_quotes (c ∷ s) rest h =
    let later = read_body-double_quotes s rest h in
    elim (Bool-cases (c == b'"')) [
      | inl e ↦ rw e (ap (prepend b'"') later ∙ ap (λ k. some (k ∷ s, rest)) (ground arith))
      | inr e ↦ rw (e, e) (ap (prepend c) later)
    ]

-- A field of the CSV's header, with any quotes and commas in it, is read back as the text that it was
-- written from, and the reader stops at its end, if the line ends there or goes on with something
-- else than a quote.
pub read_quoted-quoted :
    (s rest : Text) → Continues rest → read_quoted (quoted s ++ rest) ≡ some (s, rest)
unfolding quoted
read_quoted-quoted s rest h =
    ap (read_body false) (append_assoc (double_quotes s) (b'"' ∷ []) rest)
    ∙ read_body-double_quotes s rest h
