-- ===== src/Inputs.antt =====
-- src/nova_act/impl/inputs.py: the checks on what a client passes in.
pub mod Ranges
use nova_act.Prelude.{
  ℕ, zero, suc, ◌*◌, ◌==◌, Bool, true, false, not, ◌||◌, ◌&&◌, ltb, leb, Option, none, some, List,
  [], ◌∷◌, length, if◌then◌else◌,
}
use nova_act.Prelude.Text.{Text, text, one_of, starts_with}
use nova_act.Errors.{Result, ok, err, plain}
use nova_act.Errors.Classes.{
  invalid_input_length, invalid_timeout, invalid_max_steps, invalid_screen_resolution,
  invalid_chrome_channel, validation_failed,
}

abbrev pub min_timeout_s : ℕ
min_timeout_s = 2

abbrev pub max_timeout_s : ℕ
max_timeout_s = 1800

abbrev pub max_prompt_length : ℕ
max_prompt_length = 10000

abbrev pub min_prompt_length : ℕ
min_prompt_length = 1

abbrev pub max_param_length : ℕ
max_param_length = 2048

abbrev pub max_step_limit : ℕ
max_step_limit = 200

abbrev pub recommended_viewport_width : ℕ
recommended_viewport_width = 1600

abbrev pub recommended_viewport_height : ℕ
recommended_viewport_height = 813

unfoldable pub validate_prompt : Text → Result Unit
validate_prompt prompt =
    if leb min_prompt_length (length prompt) && leb (length prompt) max_prompt_length
    then ok tt
    else err (plain invalid_input_length (text "Prompt length must be between 1 and 10000"))

unfoldable pub validate_timeout : Option ℕ → Result Unit
validate_timeout none = ok tt
validate_timeout (some timeout) =
    if ltb timeout min_timeout_s || ltb max_timeout_s timeout
    then err (plain invalid_timeout (text "Timeout must be between 2 and 1800"))
    else ok tt

unfoldable pub validate_step_limit : Option ℕ → Result Unit
validate_step_limit none = ok tt
validate_step_limit (some max_steps) =
    if leb max_step_limit max_steps
    then err (plain invalid_max_steps (text "Please choose a number less than 200"))
    else ok tt

abbrev pub tolerance : ℕ
tolerance = 20

-- `(100 - tolerance) / 100 * recommended <= size <= (100 + tolerance) / 100 * recommended`,
-- multiplied by 100.
unfoldable pub within : ℕ → ℕ → Bool
within recommended size =
    leb (80 * recommended) (100 * size) && leb (100 * size) (120 * recommended)

-- A bad size is only logged where `warn` is set.
unfoldable pub validate_viewport_dimensions : ℕ → ℕ → Bool → Result Unit
unfolding within
validate_viewport_dimensions width height warn =
    if within recommended_viewport_width width && within recommended_viewport_height height
    then ok tt
    else if warn
    then ok tt
    else err (plain invalid_screen_resolution (text "Viewport has unsupported resolution"))

abbrev pub supported_channels : List Text
supported_channels =
    text "chrome"
    ∷ text "chromium"
    ∷ text "msedge"
    ∷ text "chrome-beta"
    ∷ text "msedge-beta"
    ∷ text "chrome-dev"
    ∷ text "msedge-dev"
    ∷ text "chrome-canary"
    ∷ text "msedge-canary"
    ∷ []

unfoldable pub validate_chrome_channel : Text → Result Unit
unfolding one_of
validate_chrome_channel chrome_channel =
    if one_of chrome_channel supported_channels
    then ok tt
    else err (plain invalid_chrome_channel (text "Invalid Chrome channel provided."))

-- The values that are passed are texts, as their types say.
unfoldable pub validate_length : List (Option Text) → Result Unit
validate_length [] = ok tt
validate_length (none ∷ values) = validate_length values
validate_length (some value ∷ values) =
    let rest = validate_length values in
    if leb max_param_length (length value)
    then err (plain invalid_input_length (text "exceeds max length of 2048"))
    else rest
