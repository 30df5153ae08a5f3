-- ===== src/UrlParse.antt =====
-- `urllib.parse.urlparse`: the scheme, the network location and the path that
-- src/nova_act/util/url.py and src/nova_act/util/path_validator.py read of a URL. urllib's own checks
-- of a network location (bracketed hosts, Unicode normalization) are a parameter.
use nova_act.Prelude.{
  ℕ, ◌==◌, ◌||◌, ◌&&◌, ◌+◌, leb, not, Bool, true, false, [], ◌∷◌, any, if◌then◌else◌,
}
use nova_act.Prelude.Text.{Text, text, starts_with}
use nova_act.Errors.{Result, ok, err, plain}
use nova_act.Errors.Classes.{value_error}
use nova_act.Fallible.{◌>>=◌}

-- The parameters that follow a `;` are left in the path; they are cut off in some schemes, of which
-- `file` is none, and the path of no other scheme is read.
pub record ParseResult : Type 0 where
  pub scheme : Text
  pub netloc : Text
  pub path : Text

-- The text before the first character that passes the test.
unfoldable pub before : (ℕ → Bool) → Text → Text
before stop [] = []
before stop (c ∷ s) = let rest = before stop s in if stop c then [] else c ∷ rest

-- The text from the first character that passes the test on.
unfoldable pub from : (ℕ → Bool) → Text → Text
from stop [] = []
from stop (c ∷ s) = let rest = from stop s in if stop c then c ∷ s else rest

abbrev pub tail : Text → Text
tail [] = []
tail (c ∷ s) = s

abbrev pub is_upper : ℕ → Bool
is_upper c = leb b'A' c && leb c b'Z'

abbrev pub is_letter : ℕ → Bool
is_letter c = is_upper c || (leb b'a' c && leb c b'z')

abbrev pub is_scheme_char : ℕ → Bool
is_scheme_char c = is_letter c || (leb b'0' c && leb c b'9') || c == b'+' || c == b'-' || c == b'.'

abbrev pub is_colon : ℕ → Bool
is_colon c = c == b':'

-- The scheme in lower case.
unfoldable pub lower : Text → Text
lower [] = []
lower (c ∷ s) = (if is_upper c then c + 32 else c) ∷ lower s

unfoldable pub all_scheme_chars : Text → Bool
all_scheme_chars [] = true
all_scheme_chars (c ∷ s) = is_scheme_char c && all_scheme_chars s

abbrev pub begins_with_letter : Text → Bool
begins_with_letter [] = false
begins_with_letter (c ∷ s) = is_letter c

abbrev pub has_scheme : Text → Bool
unfolding before all_scheme_chars
has_scheme url =
    any is_colon url && (begins_with_letter url && all_scheme_chars (before is_colon url))

-- Leading control characters and spaces, and every tab or line break, are dropped.
unfoldable pub strip_controls : Text → Text
strip_controls [] = []
strip_controls (c ∷ s) = let rest = strip_controls s in if leb c 32 then rest else c ∷ s

unfoldable pub drop_breaks : Text → Text
drop_breaks [] = []
drop_breaks (c ∷ s) =
    let rest = drop_breaks s in if c == 9 || (c == 10 || c == 13) then rest else c ∷ rest

abbrev pub ends_netloc : ℕ → Bool
ends_netloc c = c == b'/' || (c == b'?' || c == b'#')

-- The path ends before a query or a fragment.
abbrev pub ends_path : ℕ → Bool
ends_path c = c == b'?' || c == b'#'

abbrev pub is_open : ℕ → Bool
is_open c = c == b'['

abbrev pub is_close : ℕ → Bool
is_close c = c == b']'

module _ (check_netloc : Text → Result Unit) where
  -- A bracket that misses its other half is refused first.
  unfoldable pub accept_netloc : Text → Result Unit
  accept_netloc netloc =
      if (any is_open netloc && not (any is_close netloc))
        || (any is_close netloc && not (any is_open netloc))
      then err (plain value_error (text "Invalid IPv6 URL"))
      else check_netloc netloc

  unfoldable pub parse_rest : Text → Text → Result ParseResult
  unfolding starts_with before from accept_netloc
  parse_rest scheme s =
      let located = tail (tail s) in
      if starts_with s (text "//")
      then (accept_netloc (before ends_netloc located) >>= (λ _. ok (record {
        scheme = scheme;
        netloc = before ends_netloc located;
        path = before ends_path (from ends_netloc located);
      })))
      else ok (record { scheme = scheme; netloc = []; path = before ends_path s })

  parse_stripped : Text → Result ParseResult
  unfolding before from lower all_scheme_chars parse_rest
  parse_stripped url =
      if has_scheme url
      then parse_rest (lower (before is_colon url)) (tail (from is_colon url))
      else parse_rest [] url

  unfoldable pub urlparse : Text → Result ParseResult
  unfolding strip_controls drop_breaks parse_stripped
  urlparse url = parse_stripped (drop_breaks (strip_controls url))
