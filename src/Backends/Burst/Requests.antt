-- ===== src/Backends/Burst/Requests.antt =====
-- What a step asks of the service.
use nova_act.Prelude.{
  ◌≡◌, refl, ap, Bool, true, false, Option, none, some, List, [], ◌∷◌, map, last?, arith,
  Bool-cases, inl, inr,
}
use nova_act.Prelude.Text.{Text, text}
use nova_act.Errors.{Exn, Result, ok, err, plain, is_subclass, isinstance}
use nova_act.Errors.Classes.{value_error}
use nova_act.Effect.{◌>>=◌, pure, raise, lift, continue}
use nova_act.Json.{Value, obj, end, null, is_null, Numbers}
use nova_act.Program.{CallResult}
use nova_act.Step.{StepWithProgram}
use nova_act.Act.{Act}
use nova_act.Workflow.{WorkflowRun}
use nova_act.Backends.Burst.{
  ServiceResult, InvokeActStepRequest, InvokeActStepResponse, Client, last_id, observation_of,
  initiate_act_result, one_or_none, results_to_send, from_sdk_call_result, request_of, step_of,
  send, step, entry,
}

module _ {S F : Type 0} (client : Client S F) where
  -- What the service is told of a value or an error: the value as JSON, or the text of the error.
  abbrev told : Value F → Option Exn → Text
  told v none = client.dumps v
  told v (some e) = client.describe e

  abbrev told_result : CallResult (Value F) → ServiceResult
  told_result r = record { call_id = r.call.id; content = told r.return_value r.error }

  abbrev told_results : List (CallResult (Value F)) → List ServiceResult
  told_results [] = []
  told_results (r ∷ results) = told_result r ∷ told_results results

  abbrev told_last : Option (CallResult (Value F)) → List ServiceResult
  told_last none = []
  told_last (some r) = told_result r ∷ []

  -- The first step starts the act with its last result; a later one sends all results.
  abbrev expected_results :
      {Ast : Type 0}
      → List (StepWithProgram (Value F) Ast)
      → List (CallResult (Value F))
      → List ServiceResult
  expected_results [] results =
      record { call_id = text "initiateAct"; content = client.dumps (obj end) }
      ∷ told_last (last? results)
  expected_results (s ∷ steps) results = told_results results

-- What may become of a step, in a state, whose results hold an observation or not.
abbrev pub IsSent :
    {S F : Type 0}
    → Client S F
    → Act (Value F) (List (Value F))
    → List (CallResult (Value F))
    → Bool
    → Option WorkflowRun
    → S
    → Result (StepWithProgram (Value F) (List (Value F))) × S
    → Type 0
IsSent client act results true workflow_run s (ok a, s') = ⊥
IsSent client act results true workflow_run s (err e, s') =
    (s' ≡ s) × (isinstance e value_error ≡ true)
IsSent client act results false none s (ok a, s') = ⊥
IsSent client act results false none s (err e, s') = (s' ≡ s) × (isinstance e value_error ≡ true)
IsSent client act results false (some run) s out =
    (q : InvokeActStepRequest) × (out.1 ≡ (client.invoke_act_step q s).1)
    × (q.act_id ≡ act.id)
    × (q.session_id ≡ act.session_id)
    × (q.workflow_run_id ≡ run.workflow_run_id)
    × (q.previous_step_id ≡ last_id (last? act.act_steps))
    × (q.call_results ≡ expected_results client act.act_steps results)

module _ {S F : Type 0} (numbers : Numbers F) (client : Client S F) where
  content-told :
      (v : Value F) (o : Option Exn)
      → elim o [ none ↦ client.dumps v | some e ↦ client.describe e ] ≡ told client v o
  content-told v none = refl
  content-told v (some e) = refl

  from_sdk_call_result-told :
      (r : CallResult (Value F)) → from_sdk_call_result numbers client r ≡ told_result client r
  unfolding from_sdk_call_result
  from_sdk_call_result-told r =
      ap (λ t. record { call_id = r.call.id; content = t }) (content-told r.return_value r.error)

  map-told :
      (results : List (CallResult (Value F)))
      → map (from_sdk_call_result numbers client) results ≡ told_results client results
  map-told [] = refl
  map-told (r ∷ results) = rw (from_sdk_call_result-told r, map-told results) refl

  map-told_last :
      (r : Option (CallResult (Value F)))
      → map (from_sdk_call_result numbers client) (one_or_none r) ≡ told_last client r
  map-told_last none = refl
  map-told_last (some r) = rw (from_sdk_call_result-told r) refl

  map-results_to_send :
      (steps : List (StepWithProgram (Value F) (List (Value F))))
      (results : List (CallResult (Value F)))
      → map (from_sdk_call_result numbers client) (results_to_send steps results)
        ≡ expected_results client steps results
  unfolding results_to_send
  map-results_to_send [] results =
      rw (from_sdk_call_result-told initiate_act_result, map-told_last (last? results)) refl
  map-results_to_send (s ∷ steps) results = map-told results

module _ {S F : Type 0} (numbers : Numbers F) (client : Client S F)
    (act : Act (Value F) (List (Value F))) (call_results : List (CallResult (Value F))) where
  step_of-world :
      (observation : Value F) (before after : S) (response : InvokeActStepResponse F)
      → (step_of numbers client act call_results observation before response after).1 ≡ after
  unfolding step_of entry ◌>>=◌ pure lift
  step_of-world observation before after response = ground arith

  continued-world :
      (observation : Value F) (before : S) (out : Result (InvokeActStepResponse F) × S)
      → (continue (step_of numbers client act call_results observation before) out).1 ≡ out.1
  continued-world observation before (ok response, after) =
      step_of-world observation before after response
  continued-world observation before (err e, after) = refl

  -- A step without an observation or without a workflow run raises a ValueError and asks nothing of
  -- the service. Any other makes one request and no more: with the ids of the act, its session and
  -- its run, the id of the step before, and, if it is the first, the start of the act and the last
  -- result, and all results if it is not; each result goes by the id of its call, as the JSON of its
  -- value or, where it has an error, the text of that.
  pub step-IsSent :
      (workflow_run : Option WorkflowRun) (s : S)
      → IsSent client act call_results
          (is_null (observation_of null call_results))
          workflow_run
          s
          (step numbers client act call_results workflow_run s)
  unfolding step send ◌>>=◌ raise plain is_subclass isinstance request_of
  step-IsSent none s = elim (Bool-cases (is_null (observation_of null call_results))) [
    | inl y ↦ rw y (refl, refl)
    | inr n ↦ rw n (refl, refl)
  ]
  step-IsSent (some run) s = elim (Bool-cases (is_null (observation_of null call_results))) [
    | inl y ↦ rw y (refl, refl)
    | inr n ↦ rw n (
      request_of numbers client act call_results run,
      continued-world (observation_of null call_results) s
          (client.invoke_act_step (request_of numbers client act call_results run) s),
      refl,
      refl,
      refl,
      refl,
      map-results_to_send numbers client act.act_steps call_results,
    )
  ]
