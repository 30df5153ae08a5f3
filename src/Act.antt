-- ===== src/Act.antt =====
-- src/nova_act/types/state/act.py: the mutable record of one act, and src/nova_act/types/act_result.py.
-- The clock's reading and the log directory of the session are arguments.
pub mod Lifecycle
use nova_act.Prelude.{
  ℕ, Bool, true, false, Option, none, some, List, [], ◌∷◌, ◌++◌, length, if◌then◌else◌,
}
use nova_act.Prelude.Int.{ℤ, pos}
use nova_act.Prelude.Text.{Text, text}
use nova_act.Errors.{Result, ok, err, plain}
use nova_act.Errors.Classes.{value_error}
use nova_act.Metadata.{ActMetadata, build_trajectory_file_path}
use nova_act.Step.{StepWithProgram}

pub record ActGetResult : Type 0 where
  pub metadata : ActMetadata
  pub replayable : Bool
  pub response : Option Text

abbrev pub default_act_max_steps : ℕ
default_act_max_steps = 30

unfoldable pub convert_max_steps : Option ℕ → ℕ
convert_max_steps none = default_act_max_steps
convert_max_steps (some n) = n

-- The fields that steer an act; the model's parameters and its tools are only passed on.
pub record Act (V Ast : Type 0) : Type 0 where
  pub id : Text
  pub prompt : Text
  pub session_id : Text
  pub timeout : ℕ
  pub max_steps : ℕ
  pub observation_delay_ms : Option ℕ
  pub ignore_screen_dims_check : Bool
  pub replayable : Bool
  pub start_time : ℕ
  pub end_time : Option ℕ
  pub act_steps : List (StepWithProgram V Ast)
  pub result : Option ActGetResult
  pub is_complete : Bool
  pub did_timeout : Bool

module _ {V Ast : Type 0} where
  -- Milliseconds are whole, so that rounding to three digits changes nothing.
  unfoldable pub server_times : List (StepWithProgram V Ast) → List ℕ
  server_times [] = []
  server_times (s ∷ steps) =
      let rest = server_times steps in elim s.server_time_s [ none ↦ rest | some t ↦ t ∷ rest ]

  unfoldable pub trajectory_path : Option Text → Act V Ast → Option Text
  trajectory_path none act = none
  trajectory_path (some []) act = none
  trajectory_path (some (c ∷ dir)) act =
      some (build_trajectory_file_path (c ∷ dir) act.id act.prompt)

  unfoldable pub metadata : Option Text → Act V Ast → ActMetadata
  unfolding server_times
  metadata logs_directory act = record {
    session_id = act.session_id;
    act_id = act.id;
    num_steps_executed = length act.act_steps;
    start_time = some act.start_time;
    end_time = act.end_time;
    prompt = act.prompt;
    step_server_times_s = server_times act.act_steps;
    time_worked_s = none;
    human_wait_time_s = pos 0;
    trajectory_file_path = trajectory_path logs_directory act;
  }

  unfoldable pub add_step : StepWithProgram V Ast → Act V Ast → Result Unit × Act V Ast
  add_step step act =
      if act.is_complete
      then (err (plain value_error (text "Cannot add steps to a completed Act")), act)
      else (ok tt, record act { act_steps = act.act_steps ++ step ∷ [] })

  -- The result's metadata is taken after `end_time` is written.
  unfoldable pub complete : ℕ → Option Text → Option Text → Act V Ast → Act V Ast
  unfolding metadata
  complete now logs_directory response act =
      let ended = record act { end_time = some now } in
      record ended {
        result = some (record {
          metadata = metadata logs_directory ended;
          replayable = act.replayable;
          response = response;
        });
        is_complete = true;
      }

  unfoldable pub set_time_worked : Option ℤ → ℤ → Act V Ast → Act V Ast
  set_time_worked time_worked human_wait act = elim act.result [
    | none ↦ act
    | some r ↦ record act {
      result = some (record r {
        metadata = record r.metadata {
          time_worked_s = time_worked;
          human_wait_time_s = human_wait;
        };
      });
    }
  ]
