-- ===== src/Paths/Glob.antt =====
-- Shell patterns: `fnmatch` on one part of a path, and `Path.match` on the whole of it.
use nova_act.Prelude.{
  ℕ, zero, suc, ◌==◌, ◌||◌, ◌&&◌, not, leb, Bool, true, false, Option, none, some, List, [], ◌∷◌,
  ◌+◌, length, if◌then◌else◌,
}
use nova_act.Prelude.Text.{Text}
use nova_act.Paths.{FilePath}

-- A character class between its brackets: single characters and ranges.
unfoldable pub in_class : Text → ℕ → Bool
in_class [] c = false
in_class (a ∷ []) c = a == c
in_class (a ∷ (b ∷ [])) c = a == c || b == c
in_class (a ∷ (b ∷ (d ∷ s))) c =
    let range = (leb a c && leb c d) || in_class s c in
    let single = a == c || in_class (b ∷ (d ∷ s)) c in if b == b'-' then range else single

abbrev put_first : ℕ → Option Text → Option Text
put_first c none = none
put_first c (some inside) = some (c ∷ inside)

-- The text up to the closing bracket, if there is one.
until_bracket : Text → Option Text
until_bracket [] = none
until_bracket (c ∷ s) =
    let rest = put_first c (until_bracket s) in if c == b']' then some [] else rest

-- The first character of a class may be a closing bracket.
class_body : Text → Option Text
unfolding until_bracket
class_body [] = none
class_body (c ∷ s) = put_first c (until_bracket s)

-- One piece of a pattern: any text, any character, a class that may be negated, or a character.
pub data Piece : Type 0 where
  any_text any_char : Piece
  class : Bool → Text → Piece
  char : ℕ → Piece

abbrev as_class : Bool → Option Text → Option (Bool × Text)
as_class negated none = none
as_class negated (some inside) = some (negated, inside)

read_class : Text → Option (Bool × Text)
unfolding class_body
read_class [] = none
read_class (c ∷ s) =
    if c == b'!' then as_class true (class_body s) else as_class false (class_body (c ∷ s))

-- The characters of a class after its opening bracket.
class_length : Bool → Text → ℕ
class_length true inside = length inside + 2
class_length false inside = length inside + 1

-- A bracket that is never closed stands for itself. `skip` counts the characters of a class that
-- are still to be passed.
unfoldable pub pieces_from : ℕ → Text → List Piece
unfolding read_class class_length
pieces_from skip [] = []
pieces_from (suc skip) (c ∷ s) = pieces_from skip s
pieces_from zero (c ∷ s) =
    let next = pieces_from zero s in
    let after = λ (n : ℕ). pieces_from n s in
    if c == b'*'
    then any_text ∷ next
    else if c == b'?'
    then any_char ∷ next
    else if c == b'['
    then elim (read_class s) [
      | none ↦ char c ∷ next
      | some (negated, inside) ↦ class negated inside ∷ after (class_length negated inside)
    ]
    else char c ∷ next

-- Some suffix of the text passes the test.
unfoldable pub some_suffix : (Text → Bool) → Text → Bool
some_suffix test [] = test []
some_suffix test (c ∷ s) = test (c ∷ s) || some_suffix test s

unfoldable pub fits : List Piece → Text → Bool
unfolding in_class some_suffix
fits [] [] = true
fits [] (c ∷ s) = false
fits (any_text ∷ ps) s = some_suffix (fits ps) s
fits (any_char ∷ ps) [] = false
fits (any_char ∷ ps) (c ∷ s) = fits ps s
fits (class negated inside ∷ ps) [] = false
fits (class true inside ∷ ps) (c ∷ s) = not (in_class inside c) && fits ps s
fits (class false inside ∷ ps) (c ∷ s) = in_class inside c && fits ps s
fits (char a ∷ ps) [] = false
fits (char a ∷ ps) (c ∷ s) = a == c && fits ps s

-- `fnmatch.fnmatchcase(s, pattern)`.
unfoldable pub fnmatch : Text → Text → Bool
unfolding pieces_from fits
fnmatch s pattern = fits (pieces_from zero pattern) s

unfoldable pub match_parts : List Text → List Text → Bool
unfolding fnmatch
match_parts [] [] = true
match_parts (p ∷ ps) (q ∷ qs) = fnmatch p q && match_parts ps qs
match_parts _ _ = false

-- `path.match(pattern)` for an absolute pattern, which has to match the whole path.
unfoldable pub match : FilePath → FilePath → Bool
unfolding match_parts
match path pattern = path.root == pattern.root && match_parts path.parts pattern.parts
