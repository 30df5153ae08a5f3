-- ===== src/Runner/Context.antt =====
-- What a call does to the actuator's context, and what the state guardrail does to a call.
use nova_act.Prelude.{
  ◌≡◌, refl, ap, Bool, true, false, ◌||◌, Bool-cases, ◌⊎◌, inl, inr, none, some, arith,
  if◌then◌else◌, ◌∙◌,
}
use nova_act.Prelude.Text.{Text, text, text_eq_iff}
use nova_act.Errors.{Exn, Result, ok, err, isinstance, is_subclass, act_exn, cls-act_exn}
use nova_act.Errors.Classes.{
  value_error, approve_canceled_error, ui_takeover_canceled_error, act_canceled_error,
  act_tool_error, act_actuation_error, exception, agent_redirect_error, interpreter_error,
  no_human_input_tool_available, act_state_guardrail_error,
}
use nova_act.Effect.{M, ◌>>=◌, pure, continue}
use nova_act.Compatibility.{Callable}
use nova_act.Program.{Call, CompiledCall, CallResult}
use nova_act.Runner.{
  Env, Event, classify, log, detail, Frame, Actuator, GuardrailDecision, block, with_context,
  check_guardrail, is_fatal, state_during, attempt, handle, collect, run_call, terminates,
}

abbrev pub blocked : Exn
blocked = act_exn act_state_guardrail_error none

cancelled_class :
    (e : Exn)
    → (e.cls ≡ approve_canceled_error) ⊎ (e.cls ≡ ui_takeover_canceled_error)
    → (isinstance e no_human_input_tool_available ≡ false)
      × (isinstance e agent_redirect_error ≡ false)
      × (isinstance e act_state_guardrail_error ≡ false)
      × (isinstance e interpreter_error ≡ false)
      × (isinstance e value_error ≡ false)
unfolding isinstance is_subclass
cancelled_class e (inl p) = rw p (refl, refl, refl, refl, refl)
cancelled_class e (inr p) = rw p (refl, refl, refl, refl, refl)

not_cancelled :
    (b : Bool) (x : Exn)
    → x.cls ≡ (if b then act_tool_error else act_actuation_error)
    → isinstance x act_canceled_error ≡ false
unfolding isinstance is_subclass
not_cancelled true x h = rw h refl
not_cancelled false x h = rw h refl

module _ {S V : Type 0} (env : Env S V) where
  skip_context :
      (needed : Bool) (m : Actuator S → M S Unit) (w : S)
      → needed ≡ false
      → with_context env needed m w ≡ (ok tt, w)
  unfolding with_context ◌>>=◌
  skip_context needed m w u = ground arith

  handle-blocked :
      (call : Call V) (f : Frame S V) → handle env call blocked f ≡ (ok (some blocked), f)
  unfolding handle isinstance is_subclass act_exn ◌>>=◌
  handle-blocked call f = refl

  blocked-is_fatal : is_fatal env (some blocked) ≡ true
  unfolding is_fatal isinstance is_subclass act_exn
  blocked-is_fatal = refl

  guardrail_refuses :
      (call : Call V) (guardrail : Text → M S GuardrailDecision) (url : Text) (v : V) (w w' : S)
      → call.name ≡ text "takeObservation"
      → env.state_guardrail ≡ some guardrail
      → env.active_url v ≡ ok url
      → guardrail url w ≡ (ok block, w')
      → check_guardrail env call v w ≡ (err blocked, w')
  unfolding check_guardrail ◌>>=◌
  guardrail_refuses call g url v w w' n h a d =
      let t = (text_eq_iff call.name (text "takeObservation")).1 n in ground arith

  attempt-blocked :
      (c : CompiledCall V (Callable S V)) (v : V) (w w1 w2 : S) (start : V)
      → c.target.requires_unlocked ≡ false
      → c.target.invoke c.source.kwargs (env.set_session_state (state_during env c.source.name) w)
        ≡ (ok v, w1)
      → check_guardrail env c.source v w1 ≡ (err blocked, w2)
      → attempt env c (record { world = w; return_value = start })
        ≡ (err blocked, record { world = w2; return_value = v })
  unfolding attempt ◌>>=◌
  attempt-blocked c v w w1 w2 start u i g =
      let unlock : Actuator S → M S Unit = λ a. a.unlock_context in
      let lock : Actuator S → M S Unit = λ a. a.lock_context in
      ground (
        arith,
        skip_context c.target.requires_unlocked unlock
            (env.set_session_state (state_during env c.source.name) w) u,
        skip_context c.target.requires_unlocked lock w1 u,
      )

  -- An observation at a URL that the guardrail blocks is kept as the call's value, and the call
  -- fails with the guardrail's error; no event reports it, and the program ends there.
  pub guardrail_blocks :
      (c : CompiledCall V (Callable S V)) (guardrail : Text → M S GuardrailDecision) (url : Text)
      (v : V) (w w1 w2 : S)
      → c.source.name ≡ text "takeObservation"
      → c.target.requires_unlocked ≡ false
      → env.state_guardrail ≡ some guardrail
      → c.target.invoke c.source.kwargs (env.set_session_state (state_during env c.source.name) w)
        ≡ (ok v, w1)
      → env.active_url v ≡ ok url
      → guardrail url w1 ≡ (ok block, w2)
      → (r : CallResult V) × (run_call env c w ≡ (ok r, w2))
        × (r.return_value ≡ v)
        × (r.error ≡ some blocked)
        × (terminates env r ≡ true)
  unfolding run_call collect terminates ◌>>=◌
  guardrail_blocks c g url v w w1 w2 n u h i a d =
      let at =
        attempt-blocked c v w w1 w2 env.null u i
          (guardrail_refuses c.source g url v w1 w2 n h a d) in
      (
        record { call = c.source; return_value = v; error = some blocked },
        ground (arith, handle-blocked c.source (record { world = w2; return_value = v })),
        refl,
        refl,
        ground (arith, blocked-is_fatal),
      )

  handle_keeps :
      (P : S → Type 0) (keeps : (event : Event V) (w : S) → P w → P (env.send_event event w).1)
      (call : Call V) (e : Exn) (f : Frame S V)
      → P f.world
      → P (handle env call e f).1.world
  unfolding handle ◌>>=◌
  handle_keeps P keeps call e f h = elim (Bool-cases (isinstance e no_human_input_tool_available)) [
    | inl a ↦ rw a h
    | inr a ↦
        elim (Bool-cases
          (isinstance e agent_redirect_error || isinstance e act_state_guardrail_error)) [
            | inl b ↦ rw (a, b) h
            | inr b ↦ elim (Bool-cases (isinstance e interpreter_error)) [
              | inl d ↦ rw (a, b, d) h
              | inr d ↦ elim (Bool-cases (isinstance e exception)) [
                | inl g ↦
                    rw (a, b, d, g)
                      (keeps_at (env.send_event (log call.name (detail env e)) f.world)
                        (keeps _ f.world h))
                | inr g ↦ rw (a, b, d, g) h
              ]
            ]
          ]
  ]
    where
      keeps_at :
          (o : Result Unit × S)
          → P o.1
          → P
              (continue {S = Frame S V}
                (λ _. pure (some (classify env call.is_tool e)))
                (o.0, record f { world = o.1 })).1.world
      keeps_at (ok u, w) h = h
      keeps_at (err x, w) h = h

  attempt-raised :
      (c : CompiledCall V (Callable S V)) (a : Actuator S) (e : Exn) (w w1 w2 : S) (start : V)
      → env.actuator ≡ some a
      → c.target.requires_unlocked ≡ true
      → a.unlock_context (env.set_session_state (state_during env c.source.name) w) ≡ (ok tt, w1)
      → c.target.invoke c.source.kwargs w1 ≡ (err e, w2)
      → attempt env c (record { world = w; return_value = start })
        ≡ (err e, record { world = w2; return_value = start })
  unfolding attempt with_context ◌>>=◌
  attempt-raised c a e w w1 w2 start ha u hu hi = ground arith

  -- A tool that needs the context unlocked and raises leaves the call without `lock_context`:
  -- what holds of the world when the tool raises, and is kept by event callbacks, still holds
  -- when the call's result is recorded, whatever `lock_context` would have done.
  unlocked_after_error :
      (Unlocked : S → Type 0)
      (keeps : (event : Event V) (w : S) → Unlocked w → Unlocked (env.send_event event w).1)
      (c : CompiledCall V (Callable S V)) (a : Actuator S) (e : Exn) (w w1 w2 : S)
      → env.actuator ≡ some a
      → c.target.requires_unlocked ≡ true
      → a.unlock_context (env.set_session_state (state_during env c.source.name) w) ≡ (ok tt, w1)
      → c.target.invoke c.source.kwargs w1 ≡ (err e, w2)
      → Unlocked w2
      → Unlocked (run_call env c w).1
  unfolding run_call ◌>>=◌
  unlocked_after_error Unlocked keeps c a e w w1 w2 ha u hu hi h =
      rw (run_call, attempt-raised c a e w w1 w2 env.null ha u hu hi)
        (handle_keeps Unlocked keeps c.source e (record { world = w2; return_value = env.null }) h)

  -- The last `except` clause is the one for every exception that the others leave.
  handled_by_last :
      (call : Call V) (e : Exn) (f f' : Frame S V) (x : Exn)
      → isinstance e no_human_input_tool_available ≡ false
      → isinstance e agent_redirect_error ≡ false
      → isinstance e act_state_guardrail_error ≡ false
      → isinstance e interpreter_error ≡ false
      → handle env call e f ≡ (ok (some x), f')
      → x ≡ classify env call.is_tool e
  unfolding handle ◌>>=◌
  handled_by_last call e f f' x a b c d h = ground arith

  classify-cls :
      (is_tool : Bool) (e : Exn)
      → isinstance e value_error ≡ false
      → (classify env is_tool e).cls ≡ (if is_tool then act_tool_error else act_actuation_error)
  unfolding classify
  classify-cls true e h = cls-act_exn act_tool_error _
  classify-cls false e h = rw h (cls-act_exn act_actuation_error _)

  -- A cancelled human approval or takeover is recorded as a failed actuation, or as a failed tool
  -- call, and never as the cancellation that was raised.
  pub cancellation_lost :
      (call : Call V) (e : Exn) (f f' : Frame S V) (x : Exn)
      → (e.cls ≡ approve_canceled_error) ⊎ (e.cls ≡ ui_takeover_canceled_error)
      → handle env call e f ≡ (ok (some x), f')
      → (x.cls ≡ (if call.is_tool then act_tool_error else act_actuation_error))
        × (isinstance x act_canceled_error ≡ false)
  cancellation_lost call e f f' x h p =
      let (no_human, redirect, guardrail, interpreter, value) = cancelled_class e h in
      let cls =
        ap (λ (y : Exn). y.cls)
          (handled_by_last call e f f' x no_human redirect guardrail interpreter p)
        ∙ classify-cls call.is_tool e value in
      (cls, not_cancelled call.is_tool x cls)
