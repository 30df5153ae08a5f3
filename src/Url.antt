-- ===== src/Url.antt =====
-- src/nova_act/util/url.py: `validate_url`, which every navigation passes. A URL that is no `str`
-- cannot be stated here. `verify_certificate` only calls the network.
pub mod Accepted
use nova_act.Prelude.{
  ℕ, ◌==◌, ◌||◌, ◌&&◌, Bool, true, false, Option, none, some, List, [], ◌∷◌, ◌++◌, any,
  if◌then◌else◌,
}
use nova_act.Prelude.Text.{Text, text, text_eq, one_of}
use nova_act.Errors.{Exn, Result, ok, err, plain, act_exn}
use nova_act.Errors.Classes.{invalid_url, act_state_guardrail_error}
use nova_act.Fallible.{◌>>=◌}
use nova_act.Runner.{GuardrailDecision, pass, block}
use nova_act.UrlParse.{ParseResult, urlparse}
use nova_act.PathValidator.{System, validate_file_url}

-- `[<>"{}|\^`\ ]`: the backslash and the space are in it.
abbrev pub is_invalid : ℕ → Bool
is_invalid c =
    any (λ d. c == d) (b'<' ∷ b'>' ∷ 34 ∷ b'{' ∷ b'}' ∷ b'|' ∷ b'^' ∷ b'`' ∷ 92 ∷ 32 ∷ [])

abbrev pub http_schemes : List Text
http_schemes = text "http" ∷ text "https" ∷ []

abbrev pub https : Text
https = text "https://"

-- Files are open only if some path is allowed.
abbrev pub allowed_url_schemes : List Text → List Text
allowed_url_schemes [] = http_schemes ++ (text "about" ∷ [])
allowed_url_schemes (p ∷ ps) = http_schemes ++ (text "about" ∷ text "file" ∷ [])

abbrev pub is_empty : Text → Bool
is_empty [] = true
is_empty (c ∷ s) = false

abbrev pub invalid : Result Unit
invalid = err (plain invalid_url (text "Invalid URL"))

abbrev pub refuse : GuardrailDecision → Result Unit
refuse pass = ok tt
refuse block = err (act_exn act_state_guardrail_error (some (text "State guardrail blocked URL")))

unfoldable pub check_location : ParseResult → Result Unit
unfolding one_of
check_location parsed =
    if one_of parsed.scheme http_schemes && is_empty parsed.netloc then invalid else ok tt

abbrev pub ask : Option (Text → Result GuardrailDecision) → Text → Result Unit
ask none url = ok tt
ask (some state_guardrail) url = state_guardrail url >>= refuse

module _ (system : System) where
  unfoldable pub add_default : Bool → Text → Result (Text × ParseResult)
  unfolding urlparse
  add_default default_to_https url =
      if default_to_https
      then (urlparse system.check_netloc (https ++ url) >>= (λ parsed. ok (https ++ url, parsed)))
      else err (plain invalid_url (text "Invalid URL, missing 'https://' or 'http://'"))

  -- A URL that names no scheme gets `https`, or is refused.
  unfoldable pub add_scheme : Bool → Text → ParseResult → Result (Text × ParseResult)
  unfolding add_default
  add_scheme default_to_https url parsed =
      if is_empty parsed.scheme then add_default default_to_https url else ok (url, parsed)

  unfoldable pub check_scheme : List Text → Text → ParseResult → Result Unit
  unfolding one_of text_eq validate_file_url
  check_scheme allowed_file_open_paths url parsed =
      if one_of parsed.scheme (allowed_url_schemes allowed_file_open_paths)
      then (if text_eq parsed.scheme (text "file")
          then validate_file_url system url allowed_file_open_paths
          else ok tt)
      else invalid

  unfoldable pub check_parsed :
      List Text → Option (Text → Result GuardrailDecision) → Text × ParseResult → Result Text
  unfolding check_scheme check_location
  check_parsed allowed_file_open_paths state_guardrail (url, parsed) =
      check_scheme allowed_file_open_paths url parsed
      >>= (λ _. check_location parsed >>= (λ _. ask state_guardrail url >>= (λ _. ok url)))

  unfoldable pub validate_url :
      Text → Bool → List Text → Option (Text → Result GuardrailDecision) → Result Text
  unfolding urlparse add_scheme check_parsed
  validate_url url default_to_https allowed_file_open_paths state_guardrail =
      if any is_invalid url
      then err (plain invalid_url (text "URL contains invalid characters"))
      else (urlparse system.check_netloc url >>= (λ parsed.
          add_scheme default_to_https url parsed
          >>= check_parsed allowed_file_open_paths state_guardrail))
