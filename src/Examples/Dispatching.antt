-- ===== src/Examples/Dispatching.antt =====
-- Runs of the dispatcher, the controller and the human tools.
use nova_act.Prelude.{
  ℕ, ◌+◌, ◌≤◌, ◌≡◌, ◌≢◌, refl, Bool, true, false, none, some, List, [], ◌∷◌, length,
}
use nova_act.Prelude.Text.{Text, text, one_of, lookup}
use nova_act.Act.{Act, ActGetResult, complete, set_time_worked, trajectory_path, server_times}
use nova_act.Effect.{◌>>=◌}
use nova_act.Compatibility.{callable_tool}
use nova_act.Program.{compile, has_exception}
use nova_act.Runner
use nova_act.Runner.{
  run, run_from, run_call, attempt, handle, collect, assign, with_context, check_guardrail,
  state_during, terminates, is_fatal,
}
use nova_act.Dispatcher.{
  State, out_of_rounds, compile_and_run, initial_calls, delay_calls, plain_call, write_world,
  at_world, now, calculate_time_worked, max_zero,
}
use nova_act.Dispatcher.Loop.{loop, turn, check_time, check_steps, after_turn}
use nova_act.Dispatcher.Dispatch.{
  unfinished, dispatch, handle_act_fail, dispatch_body, start_program, with_controller, run_loop,
  leave, on_controller, close, close_at, finalize, failure_metadata, time_worked, human_wait_time,
  conclude, fail_on, raise_stored,
}
use nova_act.Prelude.Int.{pos, ◌+ℤ◌, ◌-ℤ◌, sub_ℕ}
use nova_act.Errors.{Exn, ok, err, isinstance, is_subclass, act_exn}
use nova_act.Errors.Classes.{act_exceeded_max_steps_error}
use nova_act.Metadata.{ActMetadata}
use nova_act.WaitTracker
use nova_act.WaitTracker.{WaitTracker}
use nova_act.HumanInput.Waiting.{approve_wait}
use nova_act.HumanInput.{Callbacks, Provider, yes_response, UiTakeoverResponse, approve}
use nova_act.Controller.{
  Controller, cancelled, active, do_resume, do_pause, round, new_controller, new_watcher,
  read_state, steps, step, watch, enter, exit, pause, resume,
}
use nova_act.Controller.Cancelling.{
  steps_cancelled, pause-resume, key_cancels, key_ignored_after_exit,
}
use nova_act.Dispatcher.Outcome.{
  IsClosed, Describes, dispatch_bound, dispatch-IsClosed, dispatch-Describes,
}
use nova_act.Examples.Sample.{World, services, state, act}

dispatch_bound_example :
    (length (dispatch services 5 state).1.act.act_steps ≤ 2)
    × ((dispatch services 5 state).0 ≢ ok (unfinished out_of_rounds))
dispatch_bound_example = dispatch_bound services 5 state

dispatch-IsClosed_example : IsClosed services (dispatch services 5 state)
dispatch-IsClosed_example = dispatch-IsClosed services 5 state

-- No step is allowed.
abbrev stopped : State World Text Unit
stopped = record state { act = record act { max_steps = 0 } }

abbrev described : ActMetadata
described = record {
  session_id = text "s";
  act_id = text "1";
  num_steps_executed = 0;
  start_time = some 990;
  end_time = some 1002;
  prompt = text "go";
  step_server_times_s = [];
  time_worked_s = some (pos 12);
  human_wait_time_s = pos 0;
  trajectory_file_path = none;
}

abbrev too_long : Exn
too_long = record {
  cls = act_exceeded_max_steps_error;
  message = text "Exceeded max steps without return.";
  metadata = some described;
}

abbrev left : State World Text Unit
left = record {
  world = record { time = 1003; unlocked = false };
  act = record act { max_steps = 0; end_time = some 1002 };
}

run_stopped : dispatch services 5 stopped ≡ (err too_long, left)
unfolding dispatch handle_act_fail attempt handle collect assign with_context check_guardrail
    state_during terminates is_fatal Runner.at_world initial_calls delay_calls plain_call isinstance
    is_subclass server_times trajectory_path one_of ◌>>=◌ read_state enter exit WaitTracker.reset
    WaitTracker.get_total_wait_time ◌-ℤ◌ raise_stored dispatch_body start_program compile_and_run
    compile run run_from run_call with_controller run_loop loop turn check_time check_steps
    after_turn leave on_controller close close_at finalize failure_metadata time_worked
    human_wait_time calculate_time_worked max_zero conclude fail_on write_world at_world now
    has_exception callable_tool lookup act_exn
run_stopped = refl

dispatch-Describes_example : Describes services too_long left
dispatch-Describes_example =
    dispatch-Describes services 5 stopped left too_long run_stopped
      (unfold isinstance is_subclass in refl)

steps_cancelled_example :
    (read_state (
      steps
        (do_resume ∷ do_pause ∷ do_resume ∷ [])
        (record { keyboard = none; state = cancelled }))).0
    ≡ cancelled
steps_cancelled_example =
    steps_cancelled (do_resume ∷ do_pause ∷ do_resume ∷ [])
      (record { keyboard = none; state = cancelled }) refl

pause-resume_example :
    ((new_controller false).state ≡ active)
    × (resume (pause (new_controller false)).1 ≡ (ok tt, new_controller false))
pause-resume_example = pause-resume (new_controller false) (unfold pause new_controller in refl)

abbrev watched : Controller
watched = record { keyboard = some new_watcher; state = active }

-- Others pause the act while it is entered; the key is pressed once it has been resumed.
key_cancels_example :
    (read_state (
      steps (do_pause ∷ do_resume ∷ []) (
        step (round false true) (
          steps
            (do_pause ∷ round false false ∷ do_resume ∷ [])
            (enter (do_pause ∷ []) watched))))).0
    ≡ cancelled
key_cancels_example =
    key_cancels watched new_watcher (do_pause ∷ []) (do_pause ∷ round false false ∷ do_resume ∷ [])
      (do_pause ∷ do_resume ∷ []) refl refl tt tt

-- A press between the start of the watcher and the reset is lost.
press_lost : (read_state (enter (round false true ∷ []) watched)).0 ≡ active
unfolding read_state enter watch step steps
press_lost = refl

abbrev keys : List (Bool × Bool)
keys = (false, true) ∷ (false, true) ∷ []

-- A client that takes seven units of time to approve.
abbrev callbacks : Callbacks ℕ
callbacks = record {
  time = λ t. t;
  approve_callback = λ message t. (ok yes_response, t + 7);
  ui_takeover_callback = λ message t. (ok UiTakeoverResponse.cancel, t + 7);
}

abbrev provider : Provider ℕ
provider = record { world = 100; wait_time_tracker = some WaitTracker.initial }

abbrev waited : WaitTracker
waited = record { total_wait_time = pos 0 +ℤ sub_ℕ 107 100; current_wait_start = none }

abbrev ended : Act Text Unit
ended = set_time_worked (some (pos 3)) (pos 2) (complete 1200 none (some (text "done")) act)

abbrev ended_result : ActGetResult
ended_result = record {
  metadata = record {
    session_id = text "s";
    act_id = text "1";
    num_steps_executed = 0;
    start_time = some 990;
    end_time = some 1200;
    prompt = text "go";
    step_server_times_s = [];
    time_worked_s = some (pos 3);
    human_wait_time_s = pos 2;
    trajectory_file_path = none;
  };
  replayable = false;
  response = some (text "done");
}

key_ignored_after_exit_example :
    (read_state (
      steps
        (round false true ∷ round false true ∷ [])
        (enter (round false true ∷ []) (exit watched)))).0
    ≡ active
key_ignored_after_exit_example =
    key_ignored_after_exit watched new_watcher (round false true ∷ []) keys refl

approve_wait_example : (approve callbacks (text "Buy?") provider).1.wait_time_tracker ≡ some waited
approve_wait_example = approve_wait callbacks (text "Buy?") provider WaitTracker.initial refl refl
