-- ===== src/Paths.antt =====
-- File paths on POSIX, as `os.path` and `pathlib` read them: what
-- src/nova_act/util/path_validator.py uses of the standard library.
pub mod Parts
pub mod Absolute
pub mod Glob
use nova_act.Prelude.{
  ℕ, zero, suc, ◌==◌, ◌||◌, ◌&&◌, not, Bool, true, false, Option, none, some, List, [], ◌∷◌, ◌++◌,
  if◌then◌else◌,
}
use nova_act.Prelude.Text.{Text, text, text_eq, starts_with}

abbrev pub slash : ℕ
slash = 47

-- The first part is longer by a character.
abbrev pub add_first : ℕ → List Text → List Text
add_first c [] = (c ∷ []) ∷ []
add_first c (p ∷ ps) = (c ∷ p) ∷ ps

-- `s.split("/")`.
unfoldable pub split : Text → List Text
split [] = [] ∷ []
split (c ∷ s) = let rest = split s in if c == slash then [] ∷ rest else add_first c rest

-- `"/".join(parts)`.
unfoldable pub join : List Text → Text
join [] = []
join (p ∷ []) = p
join (p ∷ (q ∷ ps)) = p ++ (slash ∷ join (q ∷ ps))

-- One, two or no slashes lead a path; three or more count as one.
unfoldable pub leading_slashes : Text → ℕ
unfolding starts_with
leading_slashes s =
    if starts_with s (text "///")
    then 1
    else if starts_with s (text "//")
    then 2
    else if starts_with s (text "/")
    then 1
    else 0

abbrev pub dot : Text
dot = text "."

abbrev pub dot_dot : Text
dot_dot = text ".."

-- A `pathlib.Path`: how many slashes lead it, and its parts.
pub record FilePath : Type 0 where
  pub root : ℕ
  pub parts : List Text

abbrev pub with_root : ℕ → Text → Text
with_root zero s = s
with_root (suc n) s = slash ∷ with_root n s

-- `str(path)`; the empty path is written as a dot.
unfoldable pub path_text : FilePath → Text
unfolding join
path_text p = elim (with_root p.root (join p.parts)) [ [] ↦ dot | c ∷ s ↦ c ∷ s ]

-- Empty parts and single dots mean nothing in a path.
unfoldable pub is_void : Text → Bool
unfolding text_eq
is_void part = text_eq part [] || text_eq part dot

unfoldable pub drop_void : List Text → List Text
unfolding is_void
drop_void [] = []
drop_void (p ∷ ps) = let rest = drop_void ps in if is_void p then rest else p ∷ rest

-- `Path(s)`: two dots stay.
unfoldable pub to_path : Text → FilePath
unfolding leading_slashes split drop_void
to_path s = record { root = leading_slashes s; parts = drop_void (split s) }

abbrev pub is_top_dot_dot : List Text → Bool
is_top_dot_dot [] = false
is_top_dot_dot (p ∷ new) = text_eq p dot_dot

abbrev pub is_empty : List Text → Bool
is_empty [] = true
is_empty (p ∷ new) = false

abbrev pub pop : List Text → List Text
pop [] = []
pop (p ∷ new) = new

-- One turn of the loop of `normpath`; the new parts are kept with the last one first.
unfoldable pub push_part : Bool → Text → List Text → List Text
unfolding is_void text_eq
push_part rooted part new =
    if is_void part
    then new
    else if not (text_eq part dot_dot) || (not rooted && is_empty new) || is_top_dot_dot new
    then part ∷ new
    else pop new

unfoldable pub collapse : Bool → List Text → List Text → List Text
unfolding push_part
collapse rooted [] new = new
collapse rooted (p ∷ ps) new = collapse rooted ps (push_part rooted p new)

-- The parts in their order.
unfoldable pub turn_over : List Text → List Text → List Text
turn_over [] done = done
turn_over (p ∷ ps) done = turn_over ps (p ∷ done)

unfoldable pub norm_parts : Text → List Text
unfolding leading_slashes split collapse turn_over
norm_parts s = turn_over (collapse (not (leading_slashes s == 0)) (split s) []) []

-- The path whose text `normpath` returns.
unfoldable pub normal_path : Text → FilePath
unfolding leading_slashes norm_parts
normal_path s = record { root = leading_slashes s; parts = norm_parts s }

-- `os.path.normpath(s)`.
unfoldable pub normpath : Text → Text
unfolding normal_path path_text
normpath s = path_text (normal_path s)

-- `os.path.join(cwd, s)`, with the current directory, which ends in no slash but at the root.
unfoldable pub join_cwd : Text → Text → Text
unfolding starts_with
join_cwd cwd s =
    if starts_with s (text "/")
    then s
    else if text_eq cwd (text "/")
    then slash ∷ s
    else cwd ++ (slash ∷ s)

-- `os.path.abspath(s)`.
unfoldable pub abspath : Text → Text → Text
unfolding join_cwd normpath
abspath cwd s = normpath (join_cwd cwd s)

-- Whether the parts begin with those of a directory.
unfoldable pub has_prefix : List Text → List Text → Bool
unfolding text_eq
has_prefix parts [] = true
has_prefix [] (d ∷ ds) = false
has_prefix (p ∷ parts) (d ∷ ds) = text_eq p d && has_prefix parts ds

-- Whether `path.relative_to(directory)` returns.
unfoldable pub is_relative_to : FilePath → FilePath → Bool
unfolding has_prefix
is_relative_to path directory = path.root == directory.root && has_prefix path.parts directory.parts
