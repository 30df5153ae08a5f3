-- ===== src/Dispatcher.antt =====
-- src/nova_act/impl/dispatcher.py: the loop of an act. The model, the clock, the client's callbacks
-- and the log act on a world `S`, which also holds the shared wait tracker and controller.
-- Terminal output (`Thinker`, `trace_log_lines`) is left out.
pub mod Loop
pub mod Dispatch
pub mod Frame
pub mod Steps
pub mod Outcome
pub mod TimeWorked
use nova_act.Prelude.{
  ℕ, zero, suc, ◌+◌, Bool, true, false, not, Option, none, some, List, [], ◌∷◌, ◌++◌, ltb, leb,
  if◌then◌else◌,
}
use nova_act.Prelude.Int.{ℤ, pos, ◌-ℤ◌, leℤ, sub_ℕ}
use nova_act.Prelude.Text.{Text, text, Dict}
use nova_act.Errors.{Exn, Result, ok, err, isinstance, act_exn, plain}
use nova_act.Errors.Classes.{
  act_error, act_timeout_error, act_exceeded_max_steps_error, act_canceled_error, act_agent_failed,
  act_execution_error, agent_redirect_error, assertion_error,
}
use nova_act.Effect.{M, pure, raise, lift, ◌>>=◌, ◌>>◌, try_except, modify}
use nova_act.Metadata.{ActMetadata}
use nova_act.WaitTracker
use nova_act.WaitTracker.{WaitTracker, get_total_wait_time}
use nova_act.Controller
use nova_act.Controller.{Controller, ControlState, Action, read_state}
use nova_act.Compatibility.{Tool, callable_tool}
use nova_act.Program.{
  Call, CallResult, compile, has_return, has_throw, has_exception, has_observation, is_return,
}
use nova_act.Step.{StepWithProgram}
use nova_act.Act.{
  Act, ActGetResult, add_step, complete, set_time_worked, trajectory_path, server_times,
}
use nova_act.Runner.{Env, SessionState, run}
use nova_act.Inputs.{validate_viewport_dimensions}

unfoldable pub max_zero : ℤ → ℤ
max_zero d = if leℤ (pos 0) d then d else pos 0

-- Durations that may be negative are signed; the answer never is.
unfoldable pub calculate_time_worked : Option ℕ → Option ℕ → ℤ → Option ℤ
unfolding max_zero
calculate_time_worked none end_time wait = none
calculate_time_worked (some start) none wait = none
calculate_time_worked (some start) (some end_time) wait =
    let total = sub_ℕ end_time start in
    if ltb end_time start
    then some (pos 0)
    else if not (leℤ wait total)
    then some (pos 0)
    else some (max_zero (total -ℤ wait))

-- What the dispatcher is given.
pub record Services (S V Ast : Type 0) : Type 0 where
  pub runner : Env S V
  pub tool_map : Dict (Tool S V)
  pub str : Text → V
  -- `time.time()`
  pub clock : S → ℕ × S
  -- `time.sleep(0.1)`, during which other threads run
  pub sleep : S → S
  pub wait_tracker : S → WaitTracker
  pub put_wait_tracker : WaitTracker → S → S
  pub controller : S → Controller
  pub put_controller : Controller → S → S
  -- what other threads do to the controller while it is entered
  pub meanwhile : S → List Action
  pub put_screenshot : Text → S → S
  -- the size of the screenshot, where the backend recognises an observation
  pub screenshot_size : V → Result (Option (ℕ × ℕ))
  -- `backend.step`
  pub step : Act V Ast → List (CallResult V) → M S (StepWithProgram V Ast)
  pub logs_directory : S → Option Text
  -- `format_return_value`, and `str(result) if result is not None else None`
  pub format_return_value : V → Text
  pub response : V → Option Text
  -- the argument `{"seconds": delay / 1000}`
  pub seconds : ℕ → V
  pub send_result : ActGetResult → M S Unit

pub record State (S V Ast : Type 0) : Type 0 where
  pub world : S
  pub act : Act V Ast

-- How the `while` loop is left. `still_paused`: the act was paused for longer than the polls that
-- the model makes. `out_of_rounds`: the loop's fuel ran out.
pub data Verdict : Type 0 where
  finished still_paused out_of_rounds : Verdict

module _ {S V Ast : Type 0} (services : Services S V Ast) where
  abbrev env : Env S V
  env = services.runner

  unfoldable pub at_world : {A : Type 0} → M S A → M (State S V Ast) A
  at_world m s = let out = m s.world in (out.0, record s { world = out.1 })

  unfoldable pub at_act : (Act V Ast → Result Unit × Act V Ast) → M (State S V Ast) Unit
  at_act f s = let out = f s.act in (out.0, record s { act = out.1 })

  unfoldable pub write_world : (S → S) → M (State S V Ast) Unit
  write_world f = modify (λ s. record s { world = f s.world })

  unfoldable pub write_act : (Act V Ast → Act V Ast) → M (State S V Ast) Unit
  write_act f = modify (λ s. record s { act = f s.act })

  unfoldable pub now : M (State S V Ast) ℕ
  now s = let out = services.clock s.world in (ok out.0, record s { world = out.1 })

  unfoldable pub set_session_state : SessionState → M (State S V Ast) Unit
  unfolding write_world
  set_session_state state = write_world (env.set_session_state state)

  -- The property `control.state`.
  unfoldable pub control_state : M (State S V Ast) ControlState
  control_state s =
      let out = read_state (services.controller s.world) in
      (ok out.0, record s { world = services.put_controller out.1 s.world })

  unfoldable pub plain_call : Text → Dict V → Call V
  plain_call name kwargs = record {
    name = name;
    kwargs = kwargs;
    id = name;
    is_tool = false;
    is_return = false;
  }

  -- A delay of zero counts as none.
  unfoldable pub delay_calls : Option ℕ → List (Call V)
  unfolding plain_call
  delay_calls none = []
  delay_calls (some zero) = []
  delay_calls (some (suc ms)) =
      plain_call (text "wait") ((text "seconds", services.seconds (suc ms)) ∷ []) ∷ []

  unfoldable pub initial_calls : Act V Ast → List (Call V)
  unfolding delay_calls plain_call
  initial_calls act =
      delay_calls act.observation_delay_ms
      ++ plain_call (text "waitForPageToSettle") [] ∷ plain_call (text "takeObservation") [] ∷ []

  -- `between` runs after a successful compilation.
  unfoldable pub compile_and_run :
      M (State S V Ast) Unit → List (Call V) → M (State S V Ast) (List (CallResult V))
  compile_and_run between calls = do
    executable ← lift (compile (callable_tool env.null services.str) services.tool_map calls)
    between
    at_world (run env executable)
