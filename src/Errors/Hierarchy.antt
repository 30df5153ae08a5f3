-- ===== src/Errors/Hierarchy.antt =====
-- `issubclass` on the modelled classes, and reachability along the `class` lines.
use nova_act.Prelude.{
  ℕ, suc, ◌==◌, ◌≡◌, refl, sym, ◌∙◌, Bool, true, false, some, List, [], ◌∷◌, arith, Bool-cases, ◌≢◌,
  Option-cases, get_elem?, inl, inr, zero, ◌↔◌,
}
use nova_act.Errors.Classes.{
  ExnClass, superclass, second_base, tag, base_exception, act_error, act_timeout_error,
  act_agent_error, act_execution_error, act_api_error, act_prompt_error,
}
use nova_act.Errors.{walk, depth, is_subclass}

abbrev all_classes : List ExnClass
all_classes =
    ExnClass.base_exception ∷ ExnClass.exception ∷ ExnClass.keyboard_interrupt
    ∷ ExnClass.value_error ∷ ExnClass.type_error ∷ ExnClass.runtime_error ∷ ExnClass.assertion_error
    ∷ ExnClass.lookup_error ∷ ExnClass.key_error ∷ ExnClass.index_error ∷ ExnClass.os_error
    ∷ ExnClass.not_implemented_error ∷ ExnClass.agent_redirect_error ∷ ExnClass.nova_act_error
    ∷ ExnClass.start_failed ∷ ExnClass.stop_failed ∷ ExnClass.pause_failed ∷ ExnClass.resume_failed
    ∷ ExnClass.cancel_failed ∷ ExnClass.auth_error ∷ ExnClass.browser_auth_error
    ∷ ExnClass.iam_auth_error ∷ ExnClass.validation_failed ∷ ExnClass.client_not_started
    ∷ ExnClass.invalid_playwright_state ∷ ExnClass.invalid_page_state
    ∷ ExnClass.unsupported_operating_system ∷ ExnClass.invalid_input_length
    ∷ ExnClass.invalid_screen_resolution ∷ ExnClass.invalid_path ∷ ExnClass.invalid_url
    ∷ ExnClass.invalid_certificate ∷ ExnClass.invalid_timeout ∷ ExnClass.invalid_max_steps
    ∷ ExnClass.invalid_chrome_channel ∷ ExnClass.page_not_found_error ∷ ExnClass.interpreter_error
    ∷ ExnClass.unknown_tool_error ∷ ExnClass.invalid_tool_arguments_error
    ∷ ExnClass.invalid_trajectory_replay ∷ ExnClass.act_error ∷ ExnClass.act_timeout_error
    ∷ ExnClass.act_agent_error ∷ ExnClass.act_invalid_model_generation_error
    ∷ ExnClass.act_invalid_tool_error ∷ ExnClass.act_invalid_tool_schema_error
    ∷ ExnClass.act_agent_failed ∷ ExnClass.act_exceeded_max_steps_error
    ∷ ExnClass.act_execution_error ∷ ExnClass.act_canceled_error
    ∷ ExnClass.no_human_input_tool_available ∷ ExnClass.approve_canceled_error
    ∷ ExnClass.ui_takeover_canceled_error ∷ ExnClass.act_actuation_error ∷ ExnClass.act_tool_error
    ∷ ExnClass.act_mcp_error ∷ ExnClass.act_state_guardrail_error ∷ ExnClass.act_api_error
    ∷ ExnClass.act_client_error ∷ ExnClass.act_bad_request_error ∷ ExnClass.act_guardrails_error
    ∷ ExnClass.act_rate_limit_exceeded_error ∷ ExnClass.act_request_throttled_error
    ∷ ExnClass.act_daily_quota_exceeded_error ∷ ExnClass.act_server_error
    ∷ ExnClass.act_bad_response_error ∷ ExnClass.act_service_unavailable_error
    ∷ ExnClass.act_internal_server_error ∷ ExnClass.act_prompt_error ∷ ExnClass.act_model_error
    ∷ ExnClass.act_dispatch_error ∷ ExnClass.act_protocol_error ∷ ExnClass.act_invalid_input_error
    ∷ ExnClass.attribute_error ∷ ExnClass.arithmetic_error ∷ ExnClass.overflow_error
    ∷ ExnClass.file_access_error ∷ ExnClass.cli_error ∷ ExnClass.configuration_error
    ∷ ExnClass.cli_validation_error ∷ ExnClass.workflow_error
    ∷ ExnClass.workflow_name_arn_mismatch_error ∷ ExnClass.session_error
    ∷ ExnClass.session_not_found_error ∷ ExnClass.session_limit_reached
    ∷ ExnClass.browser_process_dead ∷ []

tag-get : (c : ExnClass) → get_elem? all_classes (tag c) ≡ some c
unfolding tag
tag-get base_exception = refl
tag-get _ = refl

tag-injective : (c d : ExnClass) → tag c ≡ tag d → c ≡ d
tag-injective c d h = cc (tag-get c, tag-get d)

-- `c` is `d` or inherits from it.
pub data Inherits : ExnClass → ExnClass → Type 0 where
  same : {c : ExnClass} → Inherits c c
  step : {c d e : ExnClass} → superclass c ≡ some d → Inherits d e → Inherits c e
  also : {c d e : ExnClass} → second_base c ≡ some d → Inherits d e → Inherits c e

-- More fuel than `depth` finds no more.
walk-stable :
    (c : ExnClass) (found : ExnClass → Bool) → walk (suc depth) c found ≡ walk depth c found
unfolding walk
walk-stable base_exception found = refl
walk-stable _ found = refl

module _ (d : ExnClass) where
  abbrev is_it : ExnClass → Bool
  is_it x = tag x == tag d

  walk_sound : (fuel : ℕ) (c : ExnClass) → walk fuel c is_it ≡ true → Inherits c d
  unfolding walk
  walk_sound zero c h = rw (tag-injective c d (ground arith)) same
  walk_sound (suc fuel) c h = elim (Bool-cases (is_it c)) [
    | inl here ↦ rw (tag-injective c d (ground arith)) same
    | inr there ↦ elim (Option-cases (superclass c)) [
      | inl top ↦ elim (Option-cases (second_base c)) [
        | inl none_else ↦ absurd (ground arith)
        | inr (k, second) ↦ also second (walk_sound fuel k (ground arith))
      ]
      | inr (b, up) ↦ elim (Bool-cases (walk fuel b is_it)) [
        | inl found ↦ step up (walk_sound fuel b found)
        | inr not_found ↦ elim (Option-cases (second_base c)) [
          | inl none_else ↦ absurd (ground arith)
          | inr (k, second) ↦ also second (walk_sound fuel k (ground arith))
        ]
      ]
    ]
  ]

  walk_self : (fuel : ℕ) → walk fuel d is_it ≡ true
  unfolding walk
  walk_self zero = ground arith
  walk_self (suc fuel) = ground arith

  walk-up :
      (c b : ExnClass)
      → superclass c ≡ some b
      → walk depth b is_it ≡ true
      → walk (suc depth) c is_it ≡ true
  unfolding walk
  walk-up c b up h = rw (walk, up, h) (ground arith)

  walk-also :
      (c b : ExnClass)
      → second_base c ≡ some b
      → walk depth b is_it ≡ true
      → walk (suc depth) c is_it ≡ true
  unfolding walk
  walk-also c b second h = rw (walk, second, h) (ground arith)

  walk_complete : {c : ExnClass} → Inherits c d → walk depth c is_it ≡ true
  walk_complete same = walk_self depth
  walk_complete {c} (step {d = b} up i) =
      sym (walk-stable c is_it) ∙ walk-up c b up (walk_complete i)
  walk_complete {c} (also {d = b} second i) =
      sym (walk-stable c is_it) ∙ walk-also c b second (walk_complete i)

-- `issubclass` answers yes exactly when one class inherits from the other.
is_subclass_iff : (c d : ExnClass) → (is_subclass c d ≡ true) ↔ Inherits c d
unfolding is_subclass
is_subclass_iff c d = (walk_sound d depth c, walk_complete d)

abbrev pub count : List Bool → ℕ
count [] = 0
count (true ∷ bs) = suc (count bs)
count (false ∷ bs) = count bs

-- Every class below `ActError` lies below exactly one of its five direct subclasses.
act_errors_split :
    (c : ExnClass)
    → is_subclass c act_error ≡ true
    → c ≢ act_error
    → count (
        is_subclass c act_timeout_error
        ∷ is_subclass c act_agent_error
        ∷ is_subclass c act_execution_error
        ∷ is_subclass c act_api_error
        ∷ is_subclass c act_prompt_error
        ∷ [])
      ≡ 1
unfolding is_subclass
act_errors_split act_error h n = absurd (n refl)
act_errors_split act_timeout_error h n = refl
act_errors_split _ h n = ground arith

Inherits-trans : {c d e : ExnClass} → Inherits c d → Inherits d e → Inherits c e
Inherits-trans same j = j
Inherits-trans (step up i) j = step up (Inherits-trans i j)
Inherits-trans (also second i) j = also second (Inherits-trans i j)

pub is_subclass_trans :
    (c d e : ExnClass) → is_subclass c d ≡ true → is_subclass d e ≡ true → is_subclass c e ≡ true
is_subclass_trans c d e p q =
    (is_subclass_iff c e).1 (Inherits-trans ((is_subclass_iff c d).0 p) ((is_subclass_iff d e).0 q))
