-- ===== src/Runner.antt =====
-- src/nova_act/impl/program/runner.py: a compiled program is run call by call. What the runner only
-- uses (the tools, the actuator's context, the event callback, the state guardrail, the session
-- state of the log) acts on a world `S` and is a parameter.

pub mod Trace
pub mod Recorded
pub mod Context
use nova_act.Prelude.{
  Bool, true, false, not, ◌||◌, Option, none, some, List, [], ◌∷◌, ◌++◌, if◌then◌else◌,
}
use nova_act.Prelude.Text.{Text, text, text_eq, one_of}
use nova_act.Errors.{Exn, Result, ok, err, isinstance, act_exn}
use nova_act.Errors.Classes.{
  exception, class_name, value_error, agent_redirect_error, interpreter_error, act_agent_failed,
  act_state_guardrail_error, act_invalid_model_generation_error, act_actuation_error,
  act_tool_error, no_human_input_tool_available,
}
use nova_act.Effect.{M, pure, raise, lift, ◌>>=◌, ◌>>◌, try_except, when, modify}
use nova_act.Compatibility.{Callable}
use nova_act.Program.{Call, CompiledCall, CallResult}

pub data GuardrailDecision : Type 0 where
  pass block : GuardrailDecision

pub data SessionState : Type 0 where
  thinking observing acting unknown : SessionState

pub data Event (V : Type 0) : Type 0 where
  action : Text → V → Event V
  log : Text → Text → Event V

pub record Actuator (S : Type 0) : Type 0 where
  pub lock_context : M S Unit
  pub unlock_context : M S Unit

pub record Env (S V : Type 0) : Type 0 where
  pub set_session_state : SessionState → S → S
  pub send_event : Event V → M S Unit
  pub state_guardrail : Option (Text → M S GuardrailDecision)
  pub actuator : Option (Actuator S)
  -- `observation["activeURL"]`
  pub active_url : V → Result Text
  -- `f"{name}({kwargs})"` and `str(e)`
  pub render_call : Call V → Text
  pub render_exn : Exn → Text
  -- the JSON value `None`
  pub null : V

-- The variables of `run` that outlive an exception inside the `try` block.
pub record Frame (S V : Type 0) : Type 0 where
  pub world : S
  pub return_value : V

module _ {S V : Type 0} where
  unfoldable pub at_world : {A : Type 0} → M S A → M (Frame S V) A
  at_world m f = let (r, w) = m f.world in (r, record f { world = w })

  unfoldable pub assign : V → M (Frame S V) Unit
  assign v = modify (λ f. record f { return_value = v })

module _ {S V : Type 0} (env : Env S V) where
  unfoldable pub state_during : Text → SessionState
  unfolding one_of
  state_during name =
      if one_of name (text "waitForPageToSettle" ∷ text "takeObservation" ∷ [])
      then SessionState.observing
      else SessionState.acting

  -- Only a tool that asks for it has the context unlocked, and only where there is an actuator.
  unfoldable pub with_context : Bool → (Actuator S → M S Unit) → M S Unit
  with_context needed m = elim env.actuator [ none ↦ pure tt | some a ↦ when needed (m a) ]

  unfoldable pub refuse : GuardrailDecision → M S Unit
  refuse pass = pure tt
  refuse block = raise (act_exn act_state_guardrail_error none)

  -- The guardrail sees the URL of every observation.
  unfoldable pub check_guardrail : Call V → V → M S Unit
  unfolding refuse
  check_guardrail call v = elim env.state_guardrail [
    | none ↦ pure tt
    | some guardrail ↦
        when (text_eq call.name (text "takeObservation"))
          (do url ← lift (env.active_url v); decision ← guardrail url; refuse decision)
  ]

  -- The `try` block of the loop.
  unfoldable pub attempt : CompiledCall V (Callable S V) → M (Frame S V) (Option Exn)
  unfolding at_world assign
  attempt call = do
    at_world (modify (env.set_session_state (state_during call.source.name)))
    at_world (with_context call.target.requires_unlocked (λ a. a.unlock_context))
    v ← at_world (call.target.invoke call.source.kwargs)
    assign v
    at_world (with_context call.target.requires_unlocked (λ a. a.lock_context))
    at_world (check_guardrail call.source v)
    at_world (env.send_event (action (env.render_call call.source) v))
    pure none

  -- `f"{type(e).__name__}: {e}"`
  unfoldable pub detail : Exn → Text
  unfolding class_name
  detail e = text (class_name e.cls) ++ text ": " ++ env.render_exn e

  -- What the last `except` clause makes of an exception: the later assignment wins.
  unfoldable pub classify : Bool → Exn → Exn
  unfolding detail
  classify is_tool e =
      if is_tool
      then act_exn act_tool_error (some (detail e))
      else if isinstance e value_error
      then act_exn act_invalid_model_generation_error (some (detail e))
      else act_exn act_actuation_error (some (detail e))

  -- The `except` clauses, in their order. What is no `Exception` passes through.
  unfoldable pub handle : Call V → Exn → M (Frame S V) (Option Exn)
  unfolding at_world
  handle call e =
      if isinstance e no_human_input_tool_available
      then pure (some (act_exn act_agent_failed (some (text "HumanValidationError"))))
      else if isinstance e agent_redirect_error || isinstance e act_state_guardrail_error
      then pure (some e)
      else if isinstance e interpreter_error
      then pure (some (act_exn act_invalid_model_generation_error (some (env.render_exn e))))
      else if isinstance e exception
      then (do
        at_world (env.send_event (log call.name (detail e)))
        pure (some (classify call.is_tool e)))
      else raise e

  unfoldable pub collect : Call V → V → Result (Option Exn) → Result (CallResult V)
  collect call v (ok e) = ok (record { call = call; return_value = v; error = e })
  collect call v (err e) = err e

  -- The body of the `for` loop up to `call_results.append`.
  unfoldable pub run_call : CompiledCall V (Callable S V) → M S (CallResult V)
  run_call call w =
      let start : Frame S V = record { world = w; return_value = env.null } in
      let out = try_except (attempt call) (handle call.source) start in
      (collect call.source out.1.return_value out.0, out.1.world)

  -- `not isinstance(error, (AgentRedirectError, type(None)))`
  unfoldable pub is_fatal : Option Exn → Bool
  is_fatal none = false
  is_fatal (some e) = not (isinstance e agent_redirect_error)

  -- The program ends early.
  unfoldable pub terminates : CallResult V → Bool
  unfolding is_fatal
  terminates r = one_of r.call.name (text "return" ∷ text "throw" ∷ []) || is_fatal r.error

  unfoldable pub run_from :
      List (CallResult V) → List (CompiledCall V (Callable S V)) → M S (List (CallResult V))
  run_from results [] = pure results
  run_from results (call ∷ calls) = do
    r ← run_call call
    if terminates r then pure (results ++ r ∷ []) else run_from (results ++ r ∷ []) calls

  unfoldable pub run : List (CompiledCall V (Callable S V)) → M S (List (CallResult V))
  unfolding run_from
  run calls = run_from [] calls
