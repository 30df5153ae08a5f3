-- ===== src/Step.antt =====
-- src/nova_act/types/state/step.py: one exchange with the model.
use nova_act.Prelude.{ℕ, Option, List, [], ◌∷◌}
use nova_act.Prelude.Text.{Text, text}
use nova_act.Errors.{Result, ok, err, plain}
use nova_act.Errors.Classes.{value_error}
use nova_act.Program.{Call, CallResult}

pub record ModelInput (V : Type 0) : Type 0 where
  pub image : Text
  pub prompt : Text
  pub active_url : Text
  pub simplified_dom : Text
  pub call_results : Option (List (CallResult V))

-- `Ast` is the type of the parsed program.
pub record ModelOutput (Ast : Type 0) : Type 0 where
  pub awl_raw_program : Text
  pub request_id : Text
  pub program_ast : Ast

pub record Step (V Ast : Type 0) : Type 0 where
  pub model_input : ModelInput V
  pub model_output : ModelOutput Ast
  pub observed_time : ℕ
  pub server_time_s : Option ℕ
  pub step_id : Option Text

pub record StepWithProgram (V Ast : Type 0) : Type 0 where
  pub step : Step V Ast
  pub open step use *
  pub program : List (Call V)

module _ {A : Type 0} where
  check_body : Text → A → Result A
  check_body [] a = err (plain value_error (text "Program body is required"))
  check_body (c ∷ body) a = ok a

  check_image : Text → Text → A → Result A
  unfolding check_body
  check_image [] body a = err (plain value_error (text "Screenshot is required"))
  check_image (c ∷ image) body a = check_body body a

module _ {V Ast : Type 0} where
  -- `__post_init__`, which runs on every new step.
  unfoldable pub validate : Step V Ast → Result (Step V Ast)
  unfolding check_image
  validate s = check_image s.model_input.image s.model_output.awl_raw_program s

  unfoldable pub with_program : Step V Ast → List (Call V) → StepWithProgram V Ast
  with_program s program = record { step = s; program = program }
