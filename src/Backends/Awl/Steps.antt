-- ===== src/Backends/Awl/Steps.antt =====
-- What a step of the backend returns, and how a program that cannot be read is reported.
use nova_act.Prelude.{
  ℕ, ◌≡◌, refl, zero, suc, ◌||◌, true, false, Option, none, some, List, [], ◌∷◌, ◌++◌, inl, inr,
  arith, Bool-cases,
}
use nova_act.Prelude.Text.{Text, text, Dict}
use nova_act.Metadata.{ActMetadata}
use nova_act.Errors.{Exn, Result, ok, err, isinstance, is_subclass, cls-act_exn}
use nova_act.Errors.Classes.{
  ExnClass, value_error, interpreter_error, unknown_tool_error, invalid_tool_arguments_error,
  act_invalid_tool_error, act_invalid_tool_schema_error, act_invalid_model_generation_error,
}
use nova_act.Effect.{◌>>=◌, Out-cases, lift, raise}
use nova_act.Json.{Value, float, is_null, Numbers}
use nova_act.Program.{Call, CallResult}
use nova_act.Step.{Step, StepWithProgram, with_program}
use nova_act.Act.{Act, metadata}
use nova_act.Ast.{new_call}
use nova_act.Interpreter.{Schemas, interpret_ast}
use nova_act.Interpreter.Checked.{IsProgram, interpret_ast-IsProgram}
use nova_act.Backends.Awl.{
  scan, nothing_found, Service, rejected, report_interpretation, trailing_calls, interpreted, step,
  delay_calls,
}

report-eq-ok :
    {A : Type 0} (described : ActMetadata) (r : Result A) {a : A}
    → report_interpretation described r ≡ ok a
    → r ≡ ok a
unfolding report_interpretation
report-eq-ok described (ok b) h = h
report-eq-ok described (err e) h = absurd (ground arith)

rejected-model :
    (c : ExnClass) (described : ActMetadata) (e : Exn)
    → is_subclass c act_invalid_model_generation_error ≡ true
    → isinstance (rejected c described e) act_invalid_model_generation_error ≡ true
unfolding isinstance
rejected-model c described e h = rw (cls-act_exn c (some e.message)) h

-- What is reported for an error that the interpreter raises of its own.
report-rejects :
    {A : Type 0} (described : ActMetadata) (e : Exn)
    → (isinstance e interpreter_error || isinstance e value_error) ≡ true
    → (x : Exn) × (report_interpretation {A = A} described (err e) ≡ err x)
      × (isinstance x act_invalid_model_generation_error ≡ true)
      × (x.metadata ≡ some described)
unfolding report_interpretation is_subclass
report-rejects {A} described e h = elim (Bool-cases (isinstance e unknown_tool_error)) [
  | inl a ↦ (
    rejected act_invalid_tool_error described e,
    rw a refl,
    rejected-model _ described e refl,
    refl,
  )
  | inr a ↦ elim (Bool-cases (isinstance e invalid_tool_arguments_error)) [
    | inl b ↦ (
      rejected act_invalid_tool_schema_error described e,
      rw (a, b) refl,
      rejected-model _ described e refl,
      refl,
    )
    | inr b ↦ (
      rejected act_invalid_model_generation_error described e,
      rw (a, b, h) refl,
      rejected-model _ described e refl,
      refl,
    )
  ]
]

-- The calls that an act waits by: none without a delay, and else one wait for its seconds.
abbrev pub IsWait : {S F : Type 0} → Service S F → Option ℕ → List (Call (Value F)) → Type 0
IsWait service none waits = waits ≡ []
IsWait service (some zero) waits = waits ≡ []
IsWait service (some (suc ms)) waits =
    waits ≡ new_call (text "wait") ((text "seconds", float (service.seconds (suc ms))) ∷ []) ∷ []

module _ {S F Tool : Type 0} (numbers : Numbers F) (schemas : Schemas F Tool)
    (service : Service S F) (logs_directory : Option Text) (tool_map : Dict Tool)
    (act : Act (Value F) (List (Value F))) (results : List (CallResult (Value F))) where
  abbrev observe : Call (Value F)
  observe = new_call (text "takeObservation") []

  abbrev settle : Call (Value F)
  settle = new_call (text "waitForPageToSettle") []

  abbrev trailing : List (Call (Value F))
  trailing = trailing_calls numbers schemas service logs_directory tool_map act

  delay_calls-IsWait :
      (delay : Option ℕ)
      → IsWait service delay (delay_calls numbers schemas service logs_directory tool_map act delay)
  unfolding delay_calls
  delay_calls-IsWait none = refl
  delay_calls-IsWait (some zero) = refl
  delay_calls-IsWait (some (suc ms)) = refl

  interpreted-eq-ok :
      (step_object : Step (Value F) (List (Value F))) (r : Result (List (Call (Value F))))
      (s : StepWithProgram (Value F) (List (Value F)))
      → elim r [ ok calls ↦ ok (with_program step_object (calls ++ trailing)) | err e ↦ err e ]
        ≡ ok s
      → (calls : List (Call (Value F))) × (r ≡ ok calls) × (s.program ≡ calls ++ trailing)
  unfolding with_program
  interpreted-eq-ok step_object (ok calls) s h = (calls, refl, ground arith)
  interpreted-eq-ok step_object (err e) s h = absurd (ground arith)

  -- A step that is returned holds one call of the model, with at most one thought before it, then
  -- one wait for the seconds of the act's delay if that is given and not zero, then
  -- waitForPageToSettle and takeObservation, and nothing after them.
  pub step_program :
      (w w' : S) (s : StepWithProgram (Value F) (List (Value F)))
      → step numbers schemas service logs_directory tool_map act results w ≡ (ok s, w')
      → (calls : List (Call (Value F))) × IsProgram schemas tool_map calls
        × (waits : List (Call (Value F))) × IsWait service act.observation_delay_ms waits
        × (s.program ≡ calls ++ (waits ++ (settle ∷ observe ∷ [])))
  unfolding step interpreted lift raise ◌>>=◌ trailing_calls
  step_program w w' s h = elim (Bool-cases (is_null (scan results nothing_found).observation)) [
    | inl missing ↦ absurd (ground arith)
    | inr present ↦
        elim (Out-cases (
          service.awl_step act (scan results nothing_found).observation
            (scan results nothing_found).error_executing_previous_step results w)) [
              | inr (e, w1, failed) ↦ absurd (ground arith)
              | inl (step_object, w1, answered) ↦
                  let r =
                    interpret_ast numbers schemas step_object.model_output.program_ast tool_map in
                  let reported = report_interpretation (metadata logs_directory act) r in
                  let (calls, o, p) = interpreted-eq-ok step_object reported s (ground arith) in
                  let read = report-eq-ok (metadata logs_directory act) r o in
                  (
                    calls,
                    interpret_ast-IsProgram numbers schemas tool_map
                        step_object.model_output.program_ast calls read,
                    delay_calls numbers schemas service logs_directory tool_map act
                        act.observation_delay_ms,
                    delay_calls-IsWait act.observation_delay_ms,
                    p,
                  )
            ]
  ]

  -- Where the results hold an observation and the service answers, an error of the interpreter's
  -- own, or a ValueError, leaves the step as an ActInvalidModelGenerationError or a class below
  -- it, with the act's metadata.
  pub step_rejects :
      (w w' : S) (step_object : Step (Value F) (List (Value F))) (e : Exn)
      → is_null (scan results nothing_found).observation ≡ false
      → service.awl_step act
          (scan results nothing_found).observation
          (scan results nothing_found).error_executing_previous_step
          results
          w
        ≡ (ok step_object, w')
      → interpret_ast numbers schemas step_object.model_output.program_ast tool_map ≡ err e
      → (isinstance e interpreter_error || isinstance e value_error) ≡ true
      → (x : Exn) × (step numbers schemas service logs_directory tool_map act results w
          ≡ (err x, w'))
        × (isinstance x act_invalid_model_generation_error ≡ true)
        × (x.metadata ≡ some (metadata logs_directory act))
  unfolding step interpreted lift ◌>>=◌
  step_rejects w w' step_object e observed answered unreadable own =
      let (x, r, model, described) =
        report-rejects {A = List (Call (Value F))} (metadata logs_directory act) e own in
      (x, ground (arith), model, described)
