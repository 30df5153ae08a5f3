-- ===== src/Dispatcher/Loop.antt =====
-- The `while True` loop of `ActDispatcher.dispatch`.
use nova_act.Prelude.{
  ℕ, zero, suc, Bool, true, false, Option, none, some, List, [], ltb, leb, if◌then◌else◌,
}
use nova_act.Prelude.Text.{text}
use nova_act.Errors.{Exn, isinstance, act_exn, plain}
use nova_act.Errors.Classes.{
  act_timeout_error, act_exceeded_max_steps_error, act_canceled_error, act_agent_failed,
  agent_redirect_error, assertion_error,
}
use nova_act.Effect.{M, pure, raise, lift, ◌>>=◌, ◌>>◌, try_except, when, reading}
use nova_act.Controller.{ControlState, paused, cancelled}
use nova_act.Program.{
  Call, CallResult, has_return, has_throw, has_exception, has_observation, is_return,
}
use nova_act.Step.{StepWithProgram}
use nova_act.Act.{add_step, complete}
use nova_act.Runner.{log, thinking, unknown}
use nova_act.Inputs.{validate_viewport_dimensions}
use nova_act.Dispatcher.{
  Services, State, Verdict, finished, still_paused, out_of_rounds, at_world, at_act, write_act,
  write_world, now, set_session_state, control_state, compile_and_run,
}

-- How one round of the loop ends, if it does not raise.
pub data Turn (V : Type 0) : Type 0 where
  completed paused_on : Turn V
  again : List (CallResult V) → Turn V

module _ {S V Ast : Type 0} (services : Services S V Ast) where
  -- `_cancel_act`
  unfoldable pub cancel_act : {A : Type 0} → M (State S V Ast) A
  cancel_act = do
    at_world services
        (services.runner.send_event (log (text "INFO") (text "Terminating agent workflow")))
    raise (act_exn act_canceled_error none)

  unfoldable pub check_size : Bool → Option (ℕ × ℕ) → M (State S V Ast) Unit
  check_size warn none = pure tt
  check_size warn (some (width, height)) = lift (validate_viewport_dimensions width height warn)

  unfoldable pub check_result : Option (CallResult V) → M (State S V Ast) Unit
  check_result none = pure tt
  check_result (some r) = do
    size ← lift (services.screenshot_size r.return_value)
    reading (λ s. check_size s.act.ignore_screen_dims_check size)

  -- The size of the last observation, if the last program took one.
  unfoldable pub check_observation : List (CallResult V) → M (State S V Ast) Unit
  check_observation results = check_result (has_observation results)

  unfoldable pub ask_model : List (CallResult V) → M (State S V Ast) (StepWithProgram V Ast)
  ask_model results = do
    set_session_state services thinking
    step ← reading (λ s. at_world services (services.step s.act results))
    write_world services (services.put_screenshot step.model_input.image)
    at_act services (add_step step)
    pure step

  unfoldable pub on_pause : M (State S V Ast) Bool → ControlState → M (State S V Ast) Bool
  on_pause keep_waiting paused = keep_waiting
  on_pause keep_waiting _ = pure true

  -- `while control.state == ControlState.PAUSED: time.sleep(0.1)`: whether the pause ended within
  -- the given number of polls.
  unfoldable pub wait_while_paused : ℕ → M (State S V Ast) Bool
  wait_while_paused zero = pure false
  wait_while_paused (suc polls) = do
    state ← control_state services
    on_pause (do write_world services services.sleep; wait_while_paused polls) state

  -- `raise exception_result.error`, or `pass` where it asks for a redirect.
  unfoldable pub raise_error :
      List (CallResult V) → Option Exn → M (State S V Ast) (List (CallResult V))
  raise_error results none = raise (plain assertion_error [])
  raise_error results (some e) = if isinstance e agent_redirect_error then pure results else raise e

  unfoldable pub after_exception :
      List (CallResult V) → Option (CallResult V) → M (State S V Ast) (List (CallResult V))
  after_exception results none = pure results
  after_exception results (some r) = raise_error results r.error

  unfoldable pub after_throw :
      List (CallResult V) → Option (CallResult V) → M (State S V Ast) (List (CallResult V))
  after_throw results (some r) =
      raise (act_exn act_agent_failed (some (services.format_return_value r.return_value)))
  after_throw results none = after_exception results (has_exception results)

  -- A throw comes first, then the first error of a call.
  unfoldable pub judge : List (CallResult V) → M (State S V Ast) (List (CallResult V))
  judge results = after_throw results (has_throw results)

  -- `program_result` is written where the program has run.
  unfoldable pub ran :
      List (CallResult V) → Option (List (CallResult V)) → M (State S V Ast) (List (CallResult V))
  ran old none = pure old
  ran old (some results) = judge results

  -- The second `try` block: a redirect that is raised before the program has run leaves the old
  -- results in place.
  unfoldable pub execute :
      List (CallResult V) → List (Call V) → M (State S V Ast) (List (CallResult V))
  execute old calls = do
    results ←
        try_except
          (do
            r ← compile_and_run services (set_session_state services unknown) calls
            pure (some r))
          (λ e. if isinstance e agent_redirect_error then pure none else raise e)
    ran old results

  unfoldable pub return_result : List (CallResult V) → Option (CallResult V)
  return_result results = elim (has_return results) [ some r ↦ some r | none ↦ is_return results ]

  unfoldable pub complete_act : CallResult V → M (State S V Ast) Unit
  complete_act r = do
    time ← now services
    reading (λ s.
        write_act services
          (complete time (services.logs_directory s.world) (services.response r.return_value)))

  unfoldable pub check_time : ℕ → M (State S V Ast) Unit
  check_time end_time = do
    time ← now services
    when (ltb end_time time) (do
      write_act services (λ a. record a { did_timeout = true })
      raise (act_exn act_timeout_error none))

  unfoldable pub check_steps : ℕ → M (State S V Ast) Unit
  check_steps step_idx = reading λ s. when (leb s.act.max_steps step_idx) (
      raise
        (act_exn act_exceeded_max_steps_error (some (text "Exceeded max steps without return."))))

  unfoldable pub end_or_go_on :
      List (CallResult V) → Option (CallResult V) → M (State S V Ast) (Turn V)
  end_or_go_on results (some r) = do complete_act r; pure completed
  end_or_go_on results none = pure (again results)

  -- Compiling and running the model's program, and `act.complete` where it returns.
  unfoldable pub act_on : List (CallResult V) → StepWithProgram V Ast → M (State S V Ast) (Turn V)
  act_on results step = do
    results' ← execute results step.program
    end_or_go_on results' (return_result results')

  unfoldable pub heed : ControlState → M (State S V Ast) (Turn V) → M (State S V Ast) (Turn V)
  heed cancelled go_on = cancel_act
  heed _ go_on = go_on

  -- The body of the loop. `paused_on` stands for a pause that outlasts the polls.
  unfoldable pub turn : ℕ → ℕ → ℕ → List (CallResult V) → M (State S V Ast) (Turn V)
  turn polls end_time step_idx results = do
    check_time end_time
    check_steps step_idx
    check_observation results
    step ← ask_model results
    settled ← wait_while_paused polls
    if settled
        then (do state ← control_state services; heed state (act_on results step))
        else pure paused_on

  unfoldable pub after_turn :
      (List (CallResult V) → M (State S V Ast) Verdict) → Turn V → M (State S V Ast) Verdict
  after_turn next completed = pure finished
  after_turn next paused_on = pure still_paused
  after_turn next (again results) = next results

  unfoldable pub loop : ℕ → ℕ → ℕ → ℕ → List (CallResult V) → M (State S V Ast) Verdict
  loop polls zero end_time step_idx results = pure out_of_rounds
  loop polls (suc fuel) end_time step_idx results = do
    t ← turn polls end_time step_idx results
    after_turn (loop polls fuel end_time (suc step_idx)) t
