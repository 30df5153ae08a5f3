-- ===== src/Backends/Awl.antt =====
-- AwlBackend.step of src/nova_act/impl/backends/base.py: from the results of the last program to the
-- next one. The request itself, `awl_step` of a concrete backend, is a parameter.
pub mod Steps
use nova_act.Prelude.{
  ℕ, zero, suc, ◌||◌, Bool, true, false, Option, none, some, List, [], ◌∷◌, ◌++◌, if◌then◌else◌,
}
use nova_act.Prelude.Text.{Text, text, text_eq, Dict}
use nova_act.Metadata.{ActMetadata}
use nova_act.Errors.{Exn, Result, ok, err, plain, act_exn, isinstance}
use nova_act.Errors.Classes.{
  ExnClass, value_error, interpreter_error, unknown_tool_error, invalid_tool_arguments_error,
  act_invalid_tool_error, act_invalid_tool_schema_error, act_invalid_model_generation_error,
}
use nova_act.Effect.{M, ◌>>=◌, pure, raise, lift}
use nova_act.Json.{Value, null, float, is_null, Numbers}
use nova_act.Program.{Call, CallResult}
use nova_act.Step.{Step, StepWithProgram, with_program}
use nova_act.Act.{Act, metadata}
use nova_act.Ast.{new_call}
use nova_act.Interpreter.{Schemas, interpret_ast}

-- What the loop over the results has found so far.
pub record Found (F : Type 0) : Type 0 where
  pub observation : Value F
  pub error_executing_previous_step : Option Exn

module _ {F : Type 0} where
  with_error : Option Exn → Found F → Found F
  with_error none found = found
  with_error (some e) found = record found { error_executing_previous_step = some e }

  see : CallResult (Value F) → Found F → Found F
  unfolding with_error text_eq
  see r found =
      if text_eq r.call.name (text "takeObservation")
      then record found { observation = r.return_value }
      else with_error r.error found

  unfoldable pub scan : List (CallResult (Value F)) → Found F → Found F
  unfolding see
  scan [] found = found
  scan (r ∷ results) found = scan results (see r found)

  abbrev pub nothing_found : Found F
  nothing_found = record { observation = null; error_executing_previous_step = none }

-- An error of the interpreter, as the client sees it.
abbrev pub rejected : ExnClass → ActMetadata → Exn → Exn
rejected cls described e = record (act_exn cls (some e.message)) { metadata = some described }

module _ {A : Type 0} where
  unfoldable pub report_interpretation : ActMetadata → Result A → Result A
  report_interpretation described (ok a) = ok a
  report_interpretation described (err e) =
      if isinstance e unknown_tool_error
      then err (rejected act_invalid_tool_error described e)
      else if isinstance e invalid_tool_arguments_error
      then err (rejected act_invalid_tool_schema_error described e)
      else if isinstance e interpreter_error || isinstance e value_error
      then err (rejected act_invalid_model_generation_error described e)
      else err e

-- The parts that are not of this file: `awl_step`, and the division of milliseconds by 1000.
pub record Service (S F : Type 0) : Type 0 where
  pub awl_step :
      Act (Value F) (List (Value F))
      → Value F
      → Option Exn
      → List (CallResult (Value F))
      → M S (Step (Value F) (List (Value F)))
  pub seconds : ℕ → F

module _ {S F Tool : Type 0} (numbers : Numbers F) (schemas : Schemas F Tool)
    (service : Service S F) (logs_directory : Option Text) (tool_map : Dict Tool)
    (act : Act (Value F) (List (Value F))) where
  delay_calls : Option ℕ → List (Call (Value F))
  delay_calls none = []
  delay_calls (some zero) = []
  delay_calls (some (suc ms)) =
      new_call (text "wait") ((text "seconds", float (service.seconds (suc ms))) ∷ []) ∷ []

  -- Every program ends by letting the page settle and observing it.
  unfoldable pub trailing_calls : List (Call (Value F))
  unfolding delay_calls
  trailing_calls =
      delay_calls act.observation_delay_ms
      ++ (new_call (text "waitForPageToSettle") [] ∷ new_call (text "takeObservation") [] ∷ [])

  -- What follows the answer of the service.
  unfoldable pub interpreted :
      Step (Value F) (List (Value F)) → Result (StepWithProgram (Value F) (List (Value F)))
  unfolding report_interpretation trailing_calls interpret_ast metadata with_program
  interpreted step_object =
      elim (report_interpretation (metadata logs_directory act)
        (interpret_ast numbers schemas step_object.model_output.program_ast tool_map)) [
          | ok calls ↦ ok (with_program step_object (calls ++ trailing_calls))
          | err e ↦ err e
        ]

  unfoldable pub step :
      List (CallResult (Value F)) → M S (StepWithProgram (Value F) (List (Value F)))
  unfolding scan interpreted ◌>>=◌
  step call_results =
      let found = scan call_results nothing_found in
      if is_null found.observation
      then raise (plain value_error (text "No observation found in call_results"))
      else service.awl_step act found.observation found.error_executing_previous_step call_results
        >>= λ step_object. lift (interpreted step_object)
