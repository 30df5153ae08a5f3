-- ===== src/Examples/Navigating.antt =====
-- The paths and URLs of a user at work: what the validators say of them.
use nova_act.Prelude.{◌≡◌, refl, true, false, none, some, List, [], ◌∷◌, ◌++◌, ◌↔◌, All, arith}
use nova_act.Prelude.Text.{Text, text, one_of, text_eq}
use nova_act.Errors.{ok, err, plain}
use nova_act.Errors.Classes.{value_error}
use nova_act.Runner.{pass}
use nova_act.Paths.{FilePath, path_text, drop_void, is_void}
use nova_act.Paths.Parts.{IsPart}
use nova_act.PathValidator.{System, star, is_path_allowed, validate_file_access_path}
use nova_act.PathValidator.Allowed.{IsGranted, validate_file_access_path-ok}
use nova_act.PathValidator.Directories.{star_pattern, star_pattern-allows}
use nova_act.Url.{validate_url}
use nova_act.Url.Accepted.{IsValidated, validate_url-ok}

abbrev laptop : System
laptop = record {
  expanduser = λ path. path;
  cwd = text "/home/ann";
  url2pathname = λ path. path;
  check_netloc = λ netloc. ok tt;
}

abbrev reports : List Text
reports = text "/tmp/a.txt" ∷ text "/home/ann/reports/*" ∷ []

upload_granted : validate_file_access_path laptop (text "x/../reports/./may.pdf") reports ≡ ok tt
unfolding validate_file_access_path
upload_granted = refl

no_star : one_of star reports ≡ false
unfolding one_of
no_star = refl

validate_file_access_path-ok_example : IsGranted laptop (text "x/../reports/./may.pdf") reports
validate_file_access_path-ok_example =
    validate_file_access_path-ok laptop (text "home/ann") (text "x/../reports/./may.pdf") reports
      refl no_star upload_granted

abbrev notes : FilePath
notes = record { root = 1; parts = text "tmp" ∷ text "notes.txt" ∷ [] }

tmp-IsPart : All IsPart (text "tmp" ∷ [])
unfolding is_void text_eq
tmp-IsPart = (
  (((λ e. omega (arith, e)), ((λ e. omega (arith, e)), ((λ e. omega (arith, e)), tt))), refl, refl),
  tt,
)

-- The pattern `/tmp/.*`.
star_pattern-allows_example :
    (is_path_allowed notes (path_text (star_pattern (text "tmp" ∷ []) (text "."))) ≡ true) ↔ (
      (notes.root ≡ 1)
      × (rest : List Text) × (notes.parts
          ≡ ((text "tmp" ∷ []) ++ drop_void (text "." ∷ [])) ++ rest))
star_pattern-allows_example =
    star_pattern-allows notes (text "tmp" ∷ []) (text ".") tmp-IsPart ((λ e. omega (arith, e)), tt)

hidden_pattern_opens :
    is_path_allowed notes (path_text (star_pattern (text "tmp" ∷ []) (text "."))) ≡ true
unfolding is_path_allowed path_text
hidden_pattern_opens = refl

gave :
    validate_url laptop (text "nova.amazon.com/act") true [] (some (λ url. ok pass))
    ≡ ok (text "https://nova.amazon.com/act")
unfolding validate_url
gave = refl

validate_url-ok_example :
    IsValidated laptop
      (text "nova.amazon.com/act")
      true
      []
      (some (λ url. ok pass))
      (text "https://nova.amazon.com/act")
validate_url-ok_example =
    validate_url-ok laptop (text "nova.amazon.com/act") true [] (some (λ url. ok pass))
      (text "https://nova.amazon.com/act") gave

-- A bracket that is left open leaves as urllib's ValueError.
open_bracket :
    validate_url laptop (text "http://[x") true [] none
    ≡ err (plain value_error (text "Invalid IPv6 URL"))
unfolding validate_url
open_bracket = refl
