-- ===== src/PathValidator.antt =====
-- src/nova_act/util/path_validator.py: which files a URL or an upload may name. The expansion of `~`
-- and the conversion of a URL's path, which depend on the operating system, are parameters.
pub mod Allowed
pub mod Directories
use nova_act.Prelude.{
  ℕ, ◌==◌, ◌||◌, ◌&&◌, not, Bool, true, false, Option, none, some, List, [], ◌∷◌, ◌++◌, any,
  if◌then◌else◌, last?,
}
use nova_act.Prelude.Text.{Text, text, text_eq, one_of, starts_with}
use nova_act.Errors.{Exn, Result, ok, err, plain, act_exn}
use nova_act.Errors.Classes.{value_error, file_access_error, invalid_url, act_actuation_error}
use nova_act.Fallible.{◌>>=◌, except_as}
use nova_act.Metadata.{is_space}
use nova_act.Paths.{FilePath, to_path, path_text, abspath, normpath, is_relative_to, dot_dot, slash}
use nova_act.UrlParse.{ParseResult, urlparse}
use nova_act.Paths.Glob.{match}

-- What the operating system gives: `os.path.expanduser`, the current directory, `url2pathname`, and
-- the checks of a network location that `urlparse` makes.
pub record System : Type 0 where
  pub expanduser : Text → Text
  pub cwd : Text
  pub url2pathname : Text → Text
  pub check_netloc : Text → Result Unit

abbrev pub star : Text
star = text "*"

-- `s[:-1]`.
unfoldable pub drop_last : Text → Text
drop_last [] = []
drop_last (c ∷ []) = []
drop_last (c ∷ (d ∷ s)) = c ∷ drop_last (d ∷ s)

abbrev pub ends_in_star : Text → Bool
ends_in_star s = elim (last? s) [ none ↦ false | some c ↦ c == b'*' ]

-- `c in s` for one character.
unfoldable pub has_char : ℕ → Text → Bool
has_char c s = any (λ d. d == c) s

-- `".." in s`.
unfoldable pub has_dot_dot : Text → Bool
unfolding starts_with
has_dot_dot [] = false
has_dot_dot (c ∷ s) = starts_with (c ∷ s) dot_dot || has_dot_dot s

-- `_is_path_allowed`: a pattern that ends in a star allows what lies under the path before it.
unfoldable pub is_path_allowed : FilePath → Text → Bool
unfolding is_relative_to to_path drop_last match
is_path_allowed candidate allowed =
    if ends_in_star allowed
    then is_relative_to candidate (to_path (drop_last allowed))
    else match candidate (to_path allowed)

-- Every part but the last one: the directories.
abbrev pub drop_last_part : List Text → List Text
drop_last_part [] = []
drop_last_part (p ∷ []) = []
drop_last_part (p ∷ (q ∷ ps)) = p ∷ drop_last_part (q ∷ ps)

-- `not path or not path.strip()`.
unfoldable pub is_blank : Text → Bool
unfolding is_space
is_blank [] = true
is_blank (c ∷ s) = is_space c && is_blank s

module _ (system : System) where
  -- `_normalize_path`.
  unfoldable pub normalize_path : Text → Result FilePath
  unfolding has_char text_eq abspath normpath to_path
  normalize_path path =
      if has_char 0 path
      then err (plain value_error (text "Path contains null byte"))
      else if text_eq path star
      then ok (record { root = 1; parts = star ∷ [] })
      else ok (to_path (normpath (abspath system.cwd (system.expanduser path))))

  allowed_by : FilePath → Result FilePath → Bool
  unfolding path_text is_path_allowed
  allowed_by candidate (ok allowed) = is_path_allowed candidate (path_text allowed)
  allowed_by candidate (err e) = false

  -- A pattern that cannot be normalized is passed over.
  unfoldable pub some_allows : FilePath → List Text → Bool
  unfolding normalize_path allowed_by
  some_allows candidate allowed_paths =
      any (λ allowed. allowed_by candidate (normalize_path allowed)) allowed_paths

  -- The messages go on with the paths.
  abbrev pub blocked : Exn
  blocked = plain file_access_error (text "Blocked: given path is not in the list of allowed paths")

  abbrev pub unresolved : Exn
  unresolved = plain file_access_error (text "Unable to resolve path")

  check_candidate : Result FilePath → List Text → Result Unit
  unfolding some_allows
  check_candidate (err e) allowed_paths = err unresolved
  check_candidate (ok candidate) allowed_paths =
      if some_allows candidate allowed_paths then ok tt else err blocked

  -- `_validate_file_access_path`.
  unfoldable pub validate_file_access_path : Text → List Text → Result Unit
  unfolding one_of normalize_path check_candidate
  validate_file_access_path candidate_path [] = err blocked
  validate_file_access_path candidate_path (allowed ∷ allowed_paths) =
      if one_of star (allowed ∷ allowed_paths)
      then ok tt
      else check_candidate (normalize_path candidate_path) (allowed ∷ allowed_paths)

  unfoldable pub validate_file_upload_path : Text → List Text → Result Unit
  unfolding validate_file_access_path except_as act_exn
  validate_file_upload_path candidate_path allowed_paths =
      except_as file_access_error (λ e. act_exn act_actuation_error (some e.message))
        (validate_file_access_path candidate_path allowed_paths)

  -- One slash in place of two or more that lead a path.
  unfoldable pub collapse_slashes : Text → Text
  collapse_slashes [] = []
  collapse_slashes (c ∷ []) = c ∷ []
  collapse_slashes (c ∷ (d ∷ s)) =
      let rest = collapse_slashes (d ∷ s) in if c == slash && d == slash then rest else c ∷ (d ∷ s)

  -- `_file_url_to_native_path`.
  unfoldable pub file_url_to_native_path : Text → Result Text
  unfolding urlparse collapse_slashes
  file_url_to_native_path file_url = urlparse system.check_netloc file_url >>= λ parsed.
      ok (system.url2pathname (collapse_slashes parsed.path))

  unfoldable pub validate_file_url : Text → List Text → Result Unit
  unfolding starts_with file_url_to_native_path validate_file_access_path except_as
  validate_file_url candidate_url allowed_paths =
      if starts_with candidate_url (text "file:")
      then (file_url_to_native_path candidate_url >>= (λ candidate_path.
          except_as file_access_error (λ e. plain invalid_url e.message)
            (validate_file_access_path candidate_path allowed_paths)))
      else err (plain invalid_url (text "Given url is not a file:// URL"))

  as_value_error : Result FilePath → Result Unit
  as_value_error (ok p) = ok tt
  as_value_error (err e) = err (plain value_error (text "Invalid allowed path: " ++ e.message))

  unfoldable pub validate_allowed_path : Text → Result Unit
  unfolding is_blank has_dot_dot has_char to_path as_value_error normalize_path text_eq
  validate_allowed_path path =
      if is_blank path
      then err (plain value_error (text "Invalid allowed path: path cannot be empty"))
      else if has_dot_dot path
      then err (plain value_error (text "Path traversal patterns (..) are not allowed"))
      else if has_char b'*' path
          && (not (text_eq path star)
              && any (λ part. has_char b'*' part) (drop_last_part (to_path path).parts))
      then err (plain value_error (text "Wildcard characters are only allowed in the filename"))
      else as_value_error (normalize_path path)

  unfoldable pub validate_allowed_paths : List Text → Result Unit
  unfolding validate_allowed_path
  validate_allowed_paths [] = ok tt
  validate_allowed_paths (path ∷ paths) =
      validate_allowed_path path >>= λ _. validate_allowed_paths paths
