-- ===== src/Inputs/Ranges.antt =====
-- Exactly which inputs the checks let through.
use nova_act.Prelude.{
  ℕ, ◌≤◌, ◌≡◌, refl, true, false, leb, Option, none, some, List, [], ◌∷◌, length, All, arith, ◌↔◌,
  Bool-cases, inl, inr,
}
use nova_act.Prelude.Text.{Text}
use nova_act.Errors.{ok}
use nova_act.Inputs.{
  validate_timeout, validate_step_limit, within, validate_viewport_dimensions, validate_length,
}

-- A limit of steps passes up to 199, and a timeout from 2 to 1800 seconds.
limits_iff :
    (n : ℕ)
    → ((validate_step_limit (some n) ≡ ok tt) ↔ (n ≤ 199))
      × ((validate_timeout (some n) ≡ ok tt) ↔ ((2 ≤ n) × (n ≤ 1800)))
unfolding validate_step_limit validate_timeout
limits_iff n =
    ((λ h. ground arith, λ h. ground arith), (λ h. (ground arith, ground arith), λ h. ground arith))

-- Where a bad size is an error, a viewport passes just when its width is from 1280 to 1920 and
-- its height from 651 to 975; where it is a warning, every viewport passes.
viewport_iff :
    (width height : ℕ)
    → ((validate_viewport_dimensions width height false ≡ ok tt)
        ↔ ((1280 ≤ width) × (width ≤ 1920) × (651 ≤ height) × (height ≤ 975)))
      × (validate_viewport_dimensions width height true ≡ ok tt)
unfolding validate_viewport_dimensions within
viewport_iff width height = (
  (λ h. (ground arith, ground arith, ground arith, ground arith), λ h. ground arith),
  ground arith,
)

abbrev pub IsShort : Option Text → Type 0
IsShort none = Unit
IsShort (some value) = length value ≤ 2047

-- The lengths of the parameters pass just when each that is given is shorter than 2048.
validate_length_iff :
    (values : List (Option Text)) → (validate_length values ≡ ok tt) ↔ All IsShort values
unfolding validate_length
validate_length_iff [] = (λ h. tt, λ h. refl)
validate_length_iff (none ∷ values) =
    let rest = validate_length_iff values in (λ h. (tt, rest.0 h), λ h. rest.1 h.1)
validate_length_iff (some value ∷ values) =
    let rest = validate_length_iff values in
    elim (Bool-cases (leb 2048 (length value))) [
      | inl long ↦ (λ h. ground arith, λ h. absurd (ground arith))
      | inr short ↦ (λ h. (ground arith, rest.0 (ground arith)), λ h. rw short (rest.1 h.1))
    ]
