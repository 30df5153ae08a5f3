-- ===== src/Cli/Names.antt =====
-- The names of workflows and of their resources: `validate_workflow_name` and the comparison with a
-- resource name in src/nova_act/cli/workflow/workflow_manager.py, and
-- src/nova_act/cli/workflow/utils/arn.py.
pub mod Matching
use nova_act.Prelude.{
  ℕ, ◌==◌, ◌||◌, ◌&&◌, ltb, leb, not, Bool, true, false, Option, none, some, List, [], ◌∷◌, ◌++◌,
  length, last?, if◌then◌else◌,
}
use nova_act.Prelude.Text.{Text, text, text_eq, starts_with}
use nova_act.Errors.{Exn, Result, ok, err, plain}
use nova_act.Errors.Classes.{cli_validation_error, workflow_name_arn_mismatch_error}
use nova_act.UrlParse.{is_letter}
use nova_act.Paths.{split, is_empty}

abbrev pub is_name_char : ℕ → Bool
is_name_char c = is_letter c || (leb b'0' c && leb c b'9') || c == b'-'

-- `[a-zA-Z0-9\-]*$`: `$` matches before a last line feed too.
unfoldable pub matches_rest : Text → Bool
matches_rest [] = true
matches_rest (c ∷ s) = (is_name_char c && matches_rest s) || (c == 10 && text_eq s [])

-- `re.match(r"^[a-zA-Z][a-zA-Z0-9\-]*$", name)`.
unfoldable pub matches_name : Text → Bool
unfolding matches_rest
matches_name [] = false
matches_name (c ∷ s) = is_letter c && matches_rest s

-- `"--" in name`.
unfoldable pub has_two_hyphens : Text → Bool
unfolding starts_with
has_two_hyphens [] = false
has_two_hyphens (c ∷ s) = starts_with (c ∷ s) (text "--") || has_two_hyphens s

abbrev pub ends_in_hyphen : Text → Bool
ends_in_hyphen name = elim (last? name) [ none ↦ false | some c ↦ c == b'-' ]

abbrev pub refused : Text → Result Unit
refused m = err (plain cli_validation_error m)

unfoldable pub validate_workflow_name : Text → Result Unit
unfolding matches_name has_two_hyphens text_eq
validate_workflow_name name =
    if text_eq name []
    then refused (text "Workflow name cannot be empty")
    else if ltb 64 (length name)
    then refused (text "Workflow name cannot exceed 64 characters")
    else if not (matches_name name)
    then refused (
        text
          "Workflow name must start with a letter and contain only letters, numbers, and hyphens")
    else if has_two_hyphens name
    then refused (text "Workflow name cannot contain consecutive hyphens")
    else if ends_in_hyphen name
    then refused (text "Workflow name cannot end with a hyphen")
    else ok tt

unfoldable pub construct_workflow_definition_arn : Text → Text → Text → Text
construct_workflow_definition_arn name region account_id =
    text "arn:aws:nova-act:"
    ++ (region ++ (text ":" ++ (account_id ++ (text ":workflow-definition/" ++ name))))

-- `parts[-1]`.
unfoldable pub last_part : List Text → Text
last_part [] = []
last_part (p ∷ []) = p
last_part (p ∷ (q ∷ ps)) = last_part (q ∷ ps)

unfoldable pub extract_workflow_definition_name_from_arn : Text → Text
unfolding split last_part
extract_workflow_definition_name_from_arn workflow_definition_arn =
    last_part (split workflow_definition_arn)

-- `_validate_workflow_name_matches_arn`.
unfoldable pub validate_workflow_name_matches_arn : Text → Text → Result Unit
unfolding extract_workflow_definition_name_from_arn text_eq
validate_workflow_name_matches_arn workflow_name workflow_definition_arn =
    if text_eq workflow_name (extract_workflow_definition_name_from_arn workflow_definition_arn)
    then ok tt
    else err (
        plain workflow_name_arn_mismatch_error
          (text "Workflow name does not match ARN resource name"))
