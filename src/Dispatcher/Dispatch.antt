-- ===== src/Dispatcher/Dispatch.antt =====
-- `ActDispatcher.dispatch` and its wrapper `_handle_act_fail`.
use nova_act.Prelude.{ℕ, suc, ◌+◌, Option, none, some, List, [], length, if◌then◌else◌}
use nova_act.Prelude.Int.{ℤ}
use nova_act.Prelude.Text.{text}
use nova_act.Errors.{Exn, Result, ok, err, isinstance, act_exn, plain}
use nova_act.Errors.Classes.{act_error, act_execution_error, assertion_error}
use nova_act.Effect.{M, pure, raise, reading, ◌>>=◌, ◌>>◌}
use nova_act.Metadata.{ActMetadata}
use nova_act.WaitTracker
use nova_act.WaitTracker.{get_total_wait_time}
use nova_act.Controller
use nova_act.Controller.{Controller}
use nova_act.Program.{CallResult, has_exception}
use nova_act.Act.{ActGetResult, set_time_worked, trajectory_path, server_times}
use nova_act.Runner.{unknown}
use nova_act.Dispatcher.{
  Services, State, Verdict, finished, still_paused, out_of_rounds, at_world, write_act, write_world,
  now, initial_calls, compile_and_run, calculate_time_worked,
}
use nova_act.Dispatcher.Loop.{loop}

-- What a call of `dispatch` that does not raise comes to: a result, or a pause or a loop that the
-- model follows no further.
pub data Dispatched : Type 0 where
  returned : ActGetResult → Dispatched
  unfinished : Verdict → Dispatched

module _ {S V Ast : Type 0} (services : Services S V Ast) where
  unfoldable pub raise_stored : Option Exn → M (State S V Ast) Unit
  raise_stored none = raise (plain assertion_error [])
  raise_stored (some e) = raise e

  unfoldable pub fail_on : Option (CallResult V) → M (State S V Ast) Unit
  fail_on none = pure tt
  fail_on (some r) = raise_stored r.error

  -- The initial program, whose first error ends the act.
  unfoldable pub start_program : M (State S V Ast) (List (CallResult V))
  start_program = do
    results ← reading (λ s. compile_and_run services (pure tt) (initial_calls services s.act))
    fail_on (has_exception results)
    pure results

  unfoldable pub on_controller : (Controller → Controller) → S → S
  on_controller f w = services.put_controller (f (services.controller w)) w

  unfoldable pub leave : Result Verdict × State S V Ast → Result Verdict × State S V Ast
  unfolding on_controller
  leave (ok finished, s) = (ok finished, record s { world = on_controller Controller.exit s.world })
  leave (ok still_paused, s) = (ok still_paused, s)
  leave (ok out_of_rounds, s) = (ok out_of_rounds, s)
  leave (err e, s) = (err e, record s { world = on_controller Controller.exit s.world })

  -- `with self._controller as control:`, left by `break` and by exceptions alike.
  unfoldable pub with_controller : M (State S V Ast) Verdict → M (State S V Ast) Verdict
  unfolding on_controller
  with_controller body s =
      let entered = on_controller (Controller.enter (services.meanwhile s.world)) s.world in
      leave (body (record s { world = entered }))

  unfoldable pub run_loop : ℕ → List (CallResult V) → M (State S V Ast) Verdict
  run_loop polls results = do
    start ← now services
    reading (λ s. loop services polls (suc s.act.max_steps) (start + s.act.timeout) 0 results)

  -- `_wait_time_tracker.get_total_wait_time_s()`
  unfoldable pub human_wait_time : S → ℤ
  human_wait_time w = get_total_wait_time (services.wait_tracker w)

  unfoldable pub time_worked : State S V Ast → Option ℤ
  time_worked s =
      calculate_time_worked (some s.act.start_time) s.act.end_time (human_wait_time s.world)

  unfoldable pub write_time_worked : Option ℕ → M (State S V Ast) Unit
  unfolding time_worked human_wait_time
  write_time_worked none = pure tt
  write_time_worked (some end_time) =
      reading (λ s. write_act services (set_time_worked (time_worked s) (human_wait_time s.world)))

  unfoldable pub require : Option ActGetResult → M (State S V Ast) ActGetResult
  require none = raise (act_exn act_execution_error (some (text "Act completed without a result.")))
  require (some r) = pure r

  -- After the loop: the result is reported, and then the time worked is written into it.
  unfoldable pub conclude : Verdict → M (State S V Ast) Dispatched
  conclude finished = do
    r ← reading (λ s. require s.act.result)
    at_world services (services.send_result r)
    reading (λ s. write_time_worked s.act.end_time)
    result ← reading (λ s. require s.act.result)
    pure (returned result)
  conclude still_paused = pure (unfinished still_paused)
  conclude out_of_rounds = pure (unfinished out_of_rounds)

  -- `dispatch` without its wrapper. The backend is there, as the constructor's type says.
  unfoldable pub dispatch_body : ℕ → M (State S V Ast) Dispatched
  dispatch_body polls = do
    write_world services
        (λ w. services.put_wait_tracker (WaitTracker.reset (services.wait_tracker w)) w)
    results ← start_program
    verdict ← with_controller (run_loop polls results)
    conclude verdict

  -- `act.end_time = act.end_time or time.time()`; an end at 0 counts as missing.
  unfoldable pub close_at : Option ℕ → State S V Ast → State S V Ast
  close_at (some (suc t)) s = s
  close_at _ s =
      let out = services.clock s.world in
      record { world = out.1; act = record s.act { end_time = some out.0 } }

  unfoldable pub close : State S V Ast → State S V Ast
  unfolding close_at
  close s = close_at s.act.end_time s

  unfoldable pub failure_metadata : State S V Ast → ActMetadata
  failure_metadata s = record {
    session_id = s.act.session_id;
    act_id = s.act.id;
    num_steps_executed = length s.act.act_steps;
    start_time = some s.act.start_time;
    end_time = s.act.end_time;
    prompt = s.act.prompt;
    step_server_times_s = server_times s.act.act_steps;
    time_worked_s = time_worked s;
    human_wait_time_s = human_wait_time s.world;
    trajectory_file_path = trajectory_path (services.logs_directory s.world) s.act;
  }

  unfoldable pub finalize : State S V Ast → State S V Ast
  finalize s =
      let closed = close s in
      record closed { world = services.runner.set_session_state unknown closed.world }

  -- An `ActError` is given the act's metadata, and every exit ends the act.
  unfoldable pub handle_act_fail :
      Result Dispatched × State S V Ast → Result Dispatched × State S V Ast
  handle_act_fail (ok (returned r), s) = (ok (returned r), finalize s)
  handle_act_fail (ok (unfinished v), s) = (ok (unfinished v), s)
  handle_act_fail (err e, s) =
      if isinstance e act_error
      then (let closed = close s in
          (err (record e { metadata = some (failure_metadata closed) }), finalize closed))
      else (err e, finalize s)

  unfoldable pub dispatch : ℕ → M (State S V Ast) Dispatched
  dispatch polls s = handle_act_fail (dispatch_body polls s)
