-- ===== src/Examples/Running.antt =====
-- Runs of the program runner.
use nova_act.Prelude.{◌≡◌, refl, true, false, none, some, List, [], ◌∷◌, inr}
use nova_act.Prelude.Text.{Text, text, one_of}
use nova_act.Errors.{Exn, ok, err, plain, isinstance, is_subclass, act_exn, cls-act_exn}
use nova_act.Errors.Classes.{
  class_name, act_canceled_error, act_actuation_error, keyboard_interrupt, exception,
  act_invalid_model_generation_error, ui_takeover_canceled_error,
}
use nova_act.Effect.{◌>>=◌}
use nova_act.Compatibility.{Callable}
use nova_act.Program.{CallResult, CompiledCall}
use nova_act.Runner.{
  Frame, terminates, run, run_call, attempt, handle, collect, at_world, assign, with_context,
  check_guardrail, state_during, classify, detail,
}
use nova_act.Runner.Trace.{IsTrace, run-IsTrace}
use nova_act.Runner.Recorded.{IsReported, run_call-IsReported, run_escapes}
use nova_act.Runner.Context.{blocked, guardrail_blocks, cancellation_lost}
use nova_act.Examples.Sample.{
  World, start, guardrail, env, call, answering, failing, compiled, result, tool,
}

abbrev program : List (CompiledCall Text (Callable World Text))
program =
    compiled (text "think") (answering [])
    ∷ compiled (text "return") (answering (text "done"))
    ∷ compiled (text "agentClick") failing
    ∷ []

abbrev results : List (CallResult Text)
results = result (text "think") [] ∷ result (text "return") (text "done") ∷ []

run_program : run env program start ≡ (ok results, start)
unfolding run run_call attempt handle collect at_world assign with_context check_guardrail
    state_during terminates one_of ◌>>=◌
run_program = refl

run-IsTrace_example : IsTrace env start start results program
run-IsTrace_example = run-IsTrace env program results start start run_program

abbrev failed : CallResult Text
failed = record {
  call = call (text "agentClick");
  return_value = [];
  error = some (act_exn act_invalid_model_generation_error (some (text "ValueError: bad")));
}

run_failing : run_call env (compiled (text "agentClick") failing) start ≡ (ok failed, start)
unfolding run_call attempt handle collect at_world assign with_context check_guardrail state_during
    classify detail class_name isinstance is_subclass one_of ◌>>=◌ plain
run_failing = refl

run_call-IsReported_example :
    IsReported (act_exn act_invalid_model_generation_error (some (text "ValueError: bad")))
run_call-IsReported_example =
    run_call-IsReported env (compiled (text "agentClick") failing) start start run_failing refl

abbrev interrupt : Exn
interrupt = plain keyboard_interrupt []

abbrev interrupted : List (CompiledCall Text (Callable World Text))
interrupted = compiled (text "agentClick") (tool (λ w. (err interrupt, w))) ∷ []

interrupted_outcome : run env interrupted start ≡ (err interrupt, start)
unfolding run run_call attempt handle collect at_world assign with_context check_guardrail
    state_during terminates isinstance is_subclass one_of ◌>>=◌ plain
interrupted_outcome = refl

run_escapes_example : isinstance interrupt exception ≡ false
run_escapes_example = run_escapes env (λ event w. refl) interrupted start start interrupted_outcome

abbrev observation : CompiledCall Text (Callable World Text)
observation = compiled (text "takeObservation") (answering (text "https://a"))

guardrail_blocks_example :
    (r : CallResult Text) × (run_call env observation start ≡ (ok r, start))
    × (r.return_value ≡ text "https://a")
    × (r.error ≡ some blocked)
    × (terminates env r ≡ true)
guardrail_blocks_example =
    guardrail_blocks env observation guardrail (text "https://a") (text "https://a") start start
      start refl refl refl refl refl refl

abbrev IsUnlocked : World → Type 0
IsUnlocked w = w.unlocked ≡ true

abbrev open_world : World
open_world = record start { unlocked = true }

abbrev frame : Frame World Text
frame = record { world = open_world; return_value = [] }

abbrev recorded : Exn
recorded = classify env false (act_exn ui_takeover_canceled_error none)

handled :
    handle env (call (text "human_UiTakeover")) (act_exn ui_takeover_canceled_error none) frame
    ≡ (ok (some recorded), frame)
unfolding handle at_world isinstance is_subclass act_exn ◌>>=◌
handled = refl

cancelled_cls : (act_exn ui_takeover_canceled_error none).cls ≡ ui_takeover_canceled_error
cancelled_cls = cls-act_exn ui_takeover_canceled_error none

cancellation_lost_example :
    (recorded.cls ≡ act_actuation_error) × (isinstance recorded act_canceled_error ≡ false)
cancellation_lost_example =
    cancellation_lost env (call (text "human_UiTakeover")) (act_exn ui_takeover_canceled_error none)
      frame frame recorded (inr cancelled_cls) handled
