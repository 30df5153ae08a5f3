-- ===== src/Act/Lifecycle.antt =====
-- An act before and after its completion.
use nova_act.Prelude.{ℕ, ◌≡◌, refl, arith, Option, some, length}
use nova_act.Prelude.Int.{ℤ}
use nova_act.Prelude.Text.{Text, text}
use nova_act.Errors.{err, plain}
use nova_act.Errors.Classes.{value_error}
use nova_act.Step.{StepWithProgram}
use nova_act.Act.{Act, ActGetResult, add_step, complete, set_time_worked}

module _ {V Ast : Type 0} (now : ℕ) (logs_directory response : Option Text) (time_worked : Option ℤ)
    (wait : ℤ) (act : Act V Ast) where
  -- Completing an act and then writing the time worked leaves it complete: its result has the
  -- response and that time, and describes the act at its end with all of its steps; and no step
  -- can be added any more.
  complete_then_worked :
      (r : ActGetResult) (step : StepWithProgram V Ast)
      → (set_time_worked time_worked wait (complete now logs_directory response act)).result
        ≡ some r
      → (r.response ≡ response)
        × (r.metadata.end_time ≡ some now)
        × (r.metadata.num_steps_executed ≡ length act.act_steps)
        × (r.metadata.time_worked_s ≡ time_worked)
        × (r.metadata.human_wait_time_s ≡ wait)
        × (add_step step
              (set_time_worked time_worked wait (complete now logs_directory response act))
            ≡ (
              err (plain value_error (text "Cannot add steps to a completed Act")),
              set_time_worked time_worked wait (complete now logs_directory response act),
            ))
  unfolding complete set_time_worked add_step
  complete_then_worked r step h =
      (ground arith, ground arith, ground arith, ground arith, ground arith, refl)
