-- ===== src/Runner/Recorded.antt =====
-- Which exceptions `run` records in its results, and which it lets through.
use nova_act.Prelude.{
  ◌≡◌, refl, ap, ◌⊎◌, inl, inr, Bool, true, false, Option, none, some, List, [], ◌∷◌, ◌++◌, arith,
  Bool-cases,
}
use nova_act.Prelude.Text.{Text, text}
use nova_act.Errors.{Exn, Result, ok, err, isinstance, is_subclass, act_exn, cls-act_exn}
use nova_act.Errors.Classes.{
  ExnClass, exception, value_error, act_error, agent_redirect_error, act_agent_failed,
  act_state_guardrail_error, act_invalid_model_generation_error, act_actuation_error,
  act_tool_error,
}
use nova_act.Errors.Hierarchy.{is_subclass_trans}
use nova_act.Effect.{◌>>=◌, Out-cases}
use nova_act.Compatibility.{Callable}
use nova_act.Program.{Call, CompiledCall, CallResult}
use nova_act.Runner.{
  Env, Event, log, detail, Frame, attempt, handle, classify, collect, run_call, terminates,
  run_from, run,
}

-- An `ActError`, or a request to the model to try another action.
abbrev pub IsReported : Exn → Type 0
IsReported e = (isinstance e act_error ≡ true) ⊎ (isinstance e agent_redirect_error ≡ true)

act_IsReported :
    (c : ExnClass) (m : Option Text)
    → is_subclass c act_error ≡ true
    → isinstance (act_exn c m) act_error ≡ true
unfolding isinstance
act_IsReported c m h = rw cls-act_exn h

agent_failed_below : is_subclass act_agent_failed act_error ≡ true
unfolding is_subclass
agent_failed_below = refl

invalid_below : is_subclass act_invalid_model_generation_error act_error ≡ true
unfolding is_subclass
invalid_below = refl

module _ {S V : Type 0} (env : Env S V) where
  classify-IsReported :
      (is_tool : Bool) (e : Exn) → isinstance (classify env is_tool e) act_error ≡ true
  unfolding classify
  classify-IsReported true e = act_IsReported act_tool_error _ (unfold is_subclass in refl)
  classify-IsReported false e = elim (Bool-cases (isinstance e value_error)) [
    | inl v ↦
        rw v (act_IsReported act_invalid_model_generation_error _ (unfold is_subclass in refl))
    | inr n ↦ rw n (act_IsReported act_actuation_error _ (unfold is_subclass in refl))
  ]

  guardrail-IsReported :
      (e : Exn) → isinstance e act_state_guardrail_error ≡ true → isinstance e act_error ≡ true
  unfolding isinstance
  guardrail-IsReported e h =
      is_subclass_trans e.cls act_state_guardrail_error act_error h (unfold is_subclass in refl)

  handle-IsReported :
      (call : Call V) (e : Exn) (f f' : Frame S V) {x : Exn}
      → handle env call e f ≡ (ok (some x), f')
      → IsReported x
  unfolding handle ◌>>=◌
  handle-IsReported call e f f' h = elim (Bool-cases (isinstance e act_state_guardrail_error)) [
    | inl g ↦ ground (
      arith,
      guardrail-IsReported e g,
      act_IsReported act_agent_failed (some (text "HumanValidationError")) agent_failed_below,
      act_IsReported act_invalid_model_generation_error (some (env.render_exn e)) invalid_below,
      classify-IsReported call.is_tool e,
    )
    | inr n ↦ ground (
      arith,
      act_IsReported act_agent_failed (some (text "HumanValidationError")) agent_failed_below,
      act_IsReported act_invalid_model_generation_error (some (env.render_exn e)) invalid_below,
      classify-IsReported call.is_tool e,
    )
  ]

  attempt-records-none :
      (c : CompiledCall V (Callable S V)) (f f' : Frame S V) {o : Option Exn}
      → attempt env c f ≡ (ok o, f')
      → o ≡ none
  unfolding attempt ◌>>=◌
  attempt-records-none c f f' h = ground arith

  collect-error :
      (call : Call V) (v : V) (o : Result (Option Exn)) {r : CallResult V}
      → collect env call v o ≡ ok r
      → o ≡ ok r.error
  unfolding collect
  collect-error call v (ok e) h = cc
  collect-error call v (err e) h = cc

  -- Every error that a call's result records is an `ActError` or a redirect, whatever was raised.
  pub run_call-IsReported :
      (c : CompiledCall V (Callable S V)) (w w' : S) {r : CallResult V} {x : Exn}
      → run_call env c w ≡ (ok r, w')
      → r.error ≡ some x
      → IsReported x
  unfolding run_call ◌>>=◌
  run_call-IsReported c w w' {r} {x} h p =
      let start : Frame S V = record { world = w; return_value = env.null } in
      let recorded = collect-error c.source _ _ (ap (λ q. q.0) h) in
      elim (Out-cases (attempt env c start)) [
        | inl (o, f, e) ↦ ground (arith, attempt-records-none c start f e)
        | inr (y, f, e) ↦ elim (Out-cases (handle env c.source y f)) [
          | inl (z, f', e') ↦ ground (arith, handle-IsReported c.source y f f' {x = x})
          | inr (z, f', e') ↦ ground arith
        ]
      ]

  collect_escapes :
      (call : Call V) (v : V) (o : Result (Option Exn)) {x : Exn}
      → collect env call v o ≡ err x
      → o ≡ err x
  unfolding collect
  collect_escapes call v (ok e) h = cc
  collect_escapes call v (err e) h = cc

  module _ (quiet : (event : Event V) (w : S) → (env.send_event event w).0 ≡ ok tt) where
    handle_escapes :
        (call : Call V) (e : Exn) (f f' : Frame S V) {x : Exn}
        → handle env call e f ≡ (err x, f')
        → isinstance x exception ≡ false
    unfolding handle ◌>>=◌
    handle_escapes call e f f' h = ground (arith, quiet (log call.name (detail env e)) f.world)

    -- No `Exception` leaves a call: what a call raises is raised by `BaseException` alone.
    run_call_escapes :
        (c : CompiledCall V (Callable S V)) (w w' : S) {x : Exn}
        → run_call env c w ≡ (err x, w')
        → isinstance x exception ≡ false
    unfolding run_call ◌>>=◌
    run_call_escapes c w w' {x} h =
        let start : Frame S V = record { world = w; return_value = env.null } in
        let raised = collect_escapes c.source _ _ (ap (λ q. q.0) h) in
        elim (Out-cases (attempt env c start)) [
          | inl (o, f, e) ↦ ground arith
          | inr (y, f, e) ↦ elim (Out-cases (handle env c.source y f)) [
            | inl (z, f', e') ↦ ground arith
            | inr (z, f', e') ↦ ground (arith, handle_escapes c.source y f f' {x = x})
          ]
        ]

    run_from_escapes :
        (cs : List (CompiledCall V (Callable S V))) (acc : List (CallResult V)) (w w' : S) {x : Exn}
        → run_from env acc cs w ≡ (err x, w')
        → isinstance x exception ≡ false
    unfolding run_from ◌>>=◌
    run_from_escapes [] acc w w' h = cc
    run_from_escapes (c ∷ cs) acc w w' {x} h = elim (Out-cases (run_call env c w)) [
      | inr (e, w1, raised) ↦ run_call_escapes c w w1 (ground arith)
      | inl (r, w1, ran) ↦ elim (Bool-cases (terminates env r)) [
        | inl ends ↦ absurd (ground arith)
        | inr goes ↦ run_from_escapes cs (acc ++ r ∷ []) w1 w' (ground arith)
      ]
    ]

    -- Where reporting an event never raises, no `Exception` of a tool, the actuator or the
    -- guardrail leaves `run`.
    pub run_escapes :
        (cs : List (CompiledCall V (Callable S V))) (w w' : S) {x : Exn}
        → run env cs w ≡ (err x, w')
        → isinstance x exception ≡ false
    unfolding run
    run_escapes cs w w' h = run_from_escapes cs [] w w' h
