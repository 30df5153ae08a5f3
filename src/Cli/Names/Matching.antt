-- ===== src/Cli/Names/Matching.antt =====
-- A valid name fits the resource name that is constructed of it.
use nova_act.Prelude.{
  and_parts, ◌==◌, ◌&&◌, ◌≡◌, inl, inr, refl, ap, ◌∙◌, true, false, List, [], ◌∷◌, ◌++◌, arith,
  Bool-cases, length, ltb,
}
use nova_act.Prelude.Text.{Text, text, text_eq, text_eq_refl, text_eq→≡}
use nova_act.Errors.{ok}
use nova_act.Paths.{split, slash}
use nova_act.Paths.Parts.{NoSlash, split-NoSlash}
use nova_act.UrlParse.{is_letter}
use nova_act.Cli.Names.{
  is_name_char, matches_rest, matches_name, validate_workflow_name,
  construct_workflow_definition_arn, last_part, extract_workflow_definition_name_from_arn,
  validate_workflow_name_matches_arn,
}

matches_rest-NoSlash : (s : Text) → matches_rest s ≡ true → NoSlash s
unfolding matches_rest text_eq
matches_rest-NoSlash [] h = tt
matches_rest-NoSlash (c ∷ s) h = elim (Bool-cases (is_name_char c && matches_rest s)) [
  | inl e ↦
      let parts = and_parts (is_name_char c) (matches_rest s) e in
      ((λ e. absurd (ground (arith, rw e at parts.0))), matches_rest-NoSlash s parts.1)
  | inr n ↦
      let parts = and_parts (c == 10) (text_eq s []) (rw n at h) in
      ((λ e. absurd (ground (arith, rw e at parts.0))), rw (text_eq→≡ s [] parts.1) tt)
]

matches_name-NoSlash : (s : Text) → matches_name s ≡ true → NoSlash s
unfolding matches_name
matches_name-NoSlash [] h = tt
matches_name-NoSlash (c ∷ s) h =
    let parts = and_parts (is_letter c) (matches_rest s) h in
    ((λ e. absurd (ground (arith, rw e at parts.0))), matches_rest-NoSlash s parts.1)

validate_workflow_name-matches :
    (name : Text)
    → validate_workflow_name name ≡ ok tt
    → (ltb 64 (length name) ≡ false) × (matches_name name ≡ true)
unfolding validate_workflow_name
validate_workflow_name-matches name h = elim (Bool-cases (text_eq name [])) [
  | inl e ↦ absurd (ground (arith, rw e at h))
  | inr a ↦ elim (Bool-cases (ltb 64 (length name))) [
    | inl e ↦ absurd (ground (arith, rw (a, e) at h))
    | inr b ↦ elim (Bool-cases (matches_name name)) [
      | inl m ↦ (b, m)
      | inr e ↦ absurd (ground (arith, rw (a, b, e) at h))
    ]
  ]
]

-- A text of several parts, of which the last one is the name.
EndsIn : Text → Text → Type 0
EndsIn name s =
    (p : Text) × (q : Text) × (ps : List Text) × (split s ≡ p ∷ (q ∷ ps))
    × (last_part (q ∷ ps) ≡ name)

slash-EndsIn : (name : Text) → NoSlash name → EndsIn name (slash ∷ name)
unfolding EndsIn split last_part
slash-EndsIn name h = ([], name, [], ap (λ l. [] ∷ l) (split-NoSlash name h), refl)

-- Whatever is put before such a text.
append-EndsIn : (s t name : Text) → EndsIn name t → EndsIn name (s ++ t)
unfolding EndsIn split last_part
append-EndsIn [] t name h = h
append-EndsIn (c ∷ s) t name h =
    let (p, q, ps, e, l) = append-EndsIn s t name h in
    elim (Bool-cases (c == slash)) [
      | inl b ↦ rw (b, e) ([], p, q ∷ ps, refl, l)
      | inr n ↦ rw (n, e) (c ∷ p, q, ps, refl, l)
    ]

EndsIn-extract :
    (name arn : Text) → EndsIn name arn → extract_workflow_definition_name_from_arn arn ≡ name
unfolding EndsIn extract_workflow_definition_name_from_arn last_part
EndsIn-extract name arn (p, q, ps, e, l) = ap last_part e ∙ l

extract-construct :
    (name region account_id : Text)
    → NoSlash name
    → extract_workflow_definition_name_from_arn
        (construct_workflow_definition_arn name region account_id)
      ≡ name
unfolding construct_workflow_definition_arn
extract-construct name region account_id h =
    EndsIn-extract name (construct_workflow_definition_arn name region account_id) (
      append-EndsIn (text "arn:aws:nova-act:") _ name (
        append-EndsIn region _ name (
          append-EndsIn (text ":") _ name (
            append-EndsIn account_id _ name
              (append-EndsIn (text ":workflow-definition") _ name (slash-EndsIn name h))))))

-- A name that `validate_workflow_name` accepts is at most 64 characters long and has no slash, and
-- it fits the resource name that is constructed of it, whatever the region and the account are.
valid_name-matches :
    (name region account_id : Text)
    → validate_workflow_name name ≡ ok tt
    → (ltb 64 (length name) ≡ false)
      × NoSlash name
      × (validate_workflow_name_matches_arn name
            (construct_workflow_definition_arn name region account_id)
          ≡ ok tt)
unfolding validate_workflow_name_matches_arn
valid_name-matches name region account_id h =
    let valid = validate_workflow_name-matches name h in
    let slashless = matches_name-NoSlash name valid.1 in
    (
      valid.0,
      slashless,
      rw (extract-construct name region account_id slashless, text_eq_refl name) refl,
    )
