-- ===== src/Url/Accepted.antt =====
-- What a URL that `validate_url` returns satisfies.
use nova_act.Prelude.{
  ◌≡◌, refl, ◌⊎◌, inl, inr, ◌&&◌, Bool, true, false, Option, List, ◌++◌, any, arith, Bool-cases,
}
use nova_act.Prelude.Text.{Text, text, text_eq, one_of}
use nova_act.Errors.{Result, ok}
use nova_act.Fallible.{first_returned, ok-inj}
use mathlib.Core.Path.{subst}
use nova_act.Runner.{GuardrailDecision}
use nova_act.UrlParse.{ParseResult, urlparse}
use nova_act.PathValidator.{System, validate_file_url}
use nova_act.Url.{
  is_invalid, http_schemes, https, allowed_url_schemes, is_empty, add_default, add_scheme,
  check_scheme, check_location, ask, check_parsed, validate_url,
}

-- The URL as it was given, or with `https` put before it where that is the default.
abbrev pub IsFrom : Text → Bool → Text → Type 0
IsFrom url default_to_https result =
    (result ≡ url) ⊎ ((default_to_https ≡ true) × (result ≡ https ++ url))

module _ (system : System) where
  abbrev IsParsed : Text × ParseResult → Type 0
  IsParsed (url, parsed) =
      (urlparse system.check_netloc url ≡ ok parsed) × (any is_invalid url ≡ false)

  added-ok :
      (default_to_https : Bool) (url : Text) (result : Text × ParseResult)
      → any is_invalid url ≡ false
      → add_default system default_to_https url ≡ ok result
      → IsParsed result × IsFrom url default_to_https result.0
  unfolding add_default
  added-ok false url q a h = absurd (ground (arith, h))
  added-ok true url q a h =
      let again =
        first_returned (urlparse system.check_netloc (https ++ url)) (λ p. ok (https ++ url, p))
          h in
      subst (λ x. IsParsed x × IsFrom url true x.0) (ok-inj again.2)
        ((again.1, a), inr (refl, refl))

  add_scheme-ok :
      (default_to_https : Bool) (url : Text) (parsed : ParseResult) (result : Text × ParseResult)
      → IsParsed (url, parsed)
      → add_scheme system default_to_https url parsed ≡ ok result
      → IsParsed result × IsFrom url default_to_https result.0
  unfolding add_scheme
  add_scheme-ok d url parsed q a h = elim (Bool-cases (is_empty parsed.scheme)) [
    | inr n ↦ subst (λ x. IsParsed x × IsFrom url d x.0) (ok-inj (rw n at h)) (a, inl refl)
    | inl e ↦ added-ok d url q a.1 (rw e at h)
  ]

  check_scheme-ok :
      (allowed : List Text) (url : Text) (parsed : ParseResult)
      → check_scheme system allowed url parsed ≡ ok tt
      → (one_of parsed.scheme (allowed_url_schemes allowed) ≡ true)
        × ((text_eq parsed.scheme (text "file") ≡ false)
            ⊎ (validate_file_url system url allowed ≡ ok tt))
  unfolding check_scheme
  check_scheme-ok allowed url parsed h =
      elim (Bool-cases (one_of parsed.scheme (allowed_url_schemes allowed))) [
        | inr n ↦ absurd (ground (arith, rw n at h))
        | inl e ↦ (
          e,
          elim (Bool-cases (text_eq parsed.scheme (text "file"))) [
            | inl f ↦ inr (rw (e, f) at h)
            | inr g ↦ inl g
          ],
        )
      ]

  check_location-ok :
      (parsed : ParseResult)
      → check_location parsed ≡ ok tt
      → (one_of parsed.scheme http_schemes && is_empty parsed.netloc) ≡ false
  unfolding check_location
  check_location-ok parsed h =
      elim (Bool-cases (one_of parsed.scheme http_schemes && is_empty parsed.netloc)) [
        | inl e ↦ absurd (ground (arith, rw e at h))
        | inr n ↦ n
      ]

  abbrev pub IsAccepted :
      Text → List Text → Option (Text → Result GuardrailDecision) → ParseResult → Type 0
  IsAccepted url allowed state_guardrail parsed =
      (one_of parsed.scheme (allowed_url_schemes allowed) ≡ true)
      × ((one_of parsed.scheme http_schemes && is_empty parsed.netloc) ≡ false)
      × ((text_eq parsed.scheme (text "file") ≡ false)
          ⊎ (validate_file_url system url allowed ≡ ok tt))
      × (ask state_guardrail url ≡ ok tt)

  check_parsed-ok :
      (allowed : List Text) (state_guardrail : Option (Text → Result GuardrailDecision))
      (url : Text) (parsed : ParseResult) (result : Text)
      → check_parsed system allowed state_guardrail (url, parsed) ≡ ok result
      → (url ≡ result) × IsAccepted url allowed state_guardrail parsed
  unfolding check_parsed
  check_parsed-ok allowed g url parsed result h =
      let scheme = first_returned (check_scheme system allowed url parsed) _ h in
      let location = first_returned (check_location parsed) _ scheme.2 in
      let asked = first_returned (ask g url) _ location.2 in
      let permitted = check_scheme-ok allowed url parsed scheme.1 in
      (ok-inj asked.2, (permitted.0, check_location-ok parsed location.1, permitted.1, asked.1))

  abbrev pub IsValidated :
      Text → Bool → List Text → Option (Text → Result GuardrailDecision) → Text → Type 0
  IsValidated url default_to_https allowed state_guardrail result =
      IsFrom url default_to_https result
      × (any is_invalid result ≡ false)
      × (parsed : ParseResult) × (urlparse system.check_netloc result ≡ ok parsed)
      × IsAccepted result allowed state_guardrail parsed

  -- Where `validate_url` returns a URL, it is the given one, or that one after `https://` if that is
  -- the default; it has no invalid character, its scheme is one of the permitted, an http URL has a
  -- network location, a file URL passed `validate_file_url`, and the guardrail let the URL pass.
  pub validate_url-ok :
      (url : Text) (default_to_https : Bool) (allowed : List Text)
      (state_guardrail : Option (Text → Result GuardrailDecision)) (result : Text)
      → validate_url system url default_to_https allowed state_guardrail ≡ ok result
      → IsValidated url default_to_https allowed state_guardrail result
  unfolding validate_url
  validate_url-ok url d allowed g result h = elim (Bool-cases (any is_invalid url)) [
    | inl e ↦ absurd (ground (arith, rw e at h))
    | inr n ↦
        let parse = first_returned (urlparse system.check_netloc url) _ (rw n at h) in
        let schemed = first_returned (add_scheme system d url parse.0) _ parse.2 in
        let q = schemed.0 in
        let from = add_scheme-ok d url parse.0 q (parse.1, n) schemed.1 in
        let accepted = check_parsed-ok allowed g q.0 q.1 result schemed.2 in
        subst
          (λ u.
            IsFrom url d u
            × (any is_invalid u ≡ false)
            × (parsed : ParseResult) × (urlparse system.check_netloc u ≡ ok parsed)
            × IsAccepted u allowed g parsed)
          accepted.0 (from.1, from.0.1, q.1, from.0.0, accepted.1)
  ]
