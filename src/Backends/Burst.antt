-- ===== src/Backends/Burst.antt =====
-- src/nova_act/impl/backends/burst/backend.py: BurstBackend.step, with the conversions of calls and
-- results in burst/types.py. The client's request with its validation, the printing of JSON, the text
-- of an exception and the clock are parameters. The entries of an observation are texts.
pub mod Requests
use nova_act.Prelude.{
  ℕ, ◌||◌, Bool, true, false, Option, none, some, List, [], ◌∷◌, ◌++◌, map, last?, if◌then◌else◌,
}
use nova_act.Prelude.Text.{Text, text, text_eq, Dict}
use nova_act.Errors.{Exn, Result, ok, err, plain}
use nova_act.Errors.Classes.{value_error}
use nova_act.Effect.{M, pure, raise, lift, ◌>>=◌}
use nova_act.Json.{Value, null, str, obj, end, Fields, item, is_null, pairs, Numbers, to_text}
use nova_act.Arguments.{prepare_kwargs_for_actuation_calls}
use nova_act.Program.{Call, CallResult}
use nova_act.Step.{ModelInput, ModelOutput, Step, StepWithProgram, validate, with_program}
use nova_act.Act.{Act}
use nova_act.Workflow.{WorkflowRun}

-- The input of a call that the service answers: a list for an action, a dictionary for a tool.
pub data ServiceInput (F : Type 0) : Type 0 where
  positional : List (Value F) → ServiceInput F
  named : Fields F → ServiceInput F

pub record ServiceCall (F : Type 0) : Type 0 where
  pub call_id : Text
  pub input : ServiceInput F
  pub name : Text

pub record ServiceResult : Type 0 where
  pub call_id : Text
  pub content : Text

pub record InvokeActStepRequest : Type 0 where
  pub workflow_definition_name : Text
  pub workflow_run_id : Text
  pub session_id : Text
  pub act_id : Text
  pub call_results : List ServiceResult
  pub previous_step_id : Option Text

pub record InvokeActStepResponse (F : Type 0) : Type 0 where
  pub calls : List (ServiceCall F)
  pub step_id : Text

pub record Client (S F : Type 0) : Type 0 where
  pub dumps : Value F → Text
  pub describe : Exn → Text
  pub invoke_act_step : InvokeActStepRequest → M S (InvokeActStepResponse F)
  pub elapsed : S → S → ℕ
  pub now : S → ℕ

abbrev pub newline : Text
newline = 10 ∷ []

-- `separator.join(parts)`.
unfoldable pub join_by : Text → List Text → Text
join_by separator [] = []
join_by separator (t ∷ []) = t
join_by separator (t ∷ (u ∷ ts)) = t ++ (separator ++ join_by separator (u ∷ ts))

abbrev pub or_error : Text → Text
or_error [] = text "ERROR: Could not decode model output."
or_error (c ∷ program) = c ∷ program

abbrev pub last_id : {V Ast : Type 0} → Option (StepWithProgram V Ast) → Option Text
last_id none = none
last_id (some s) = s.step_id

module _ {F : Type 0} where
  -- The observation is the last one.
  unfoldable pub observation_of : Value F → List (CallResult (Value F)) → Value F
  unfolding text_eq
  observation_of observation [] = observation
  observation_of observation (r ∷ results) =
      observation_of
        (if text_eq r.call.name (text "takeObservation") then r.return_value else observation)
        results

  abbrev pub initiate_act_result : CallResult (Value F)
  initiate_act_result = record {
    call = record {
      name = text "initiateAct";
      kwargs = [];
      id = text "initiateAct";
      is_tool = false;
      is_return = false;
    };
    return_value = obj end;
    error = none;
  }

  abbrev pub one_or_none : Option (CallResult (Value F)) → List (CallResult (Value F))
  one_or_none none = []
  one_or_none (some r) = r ∷ []

  -- The first step sends the start of the act and the last result only.
  unfoldable pub results_to_send :
      {Ast : Type 0}
      → List (StepWithProgram (Value F) Ast)
      → List (CallResult (Value F))
      → List (CallResult (Value F))
  results_to_send [] call_results = initiate_act_result ∷ one_or_none (last? call_results)
  results_to_send (s ∷ steps) call_results = call_results

module _ {S F : Type 0} (numbers : Numbers F) (client : Client S F) where
  -- `CallResult.from_sdk_call_result`.
  unfoldable pub from_sdk_call_result : CallResult (Value F) → ServiceResult
  from_sdk_call_result r = record {
    call_id = r.call.id;
    content = elim r.error [ none ↦ client.dumps r.return_value | some e ↦ client.describe e ];
  }

  -- `Call.to_sdk_call`.
  unfoldable pub to_sdk_call : ServiceCall F → Result (Call (Value F))
  unfolding prepare_kwargs_for_actuation_calls pairs
  to_sdk_call call = elim call.input [
    | named fields ↦ ok (record {
      name = call.name;
      kwargs = pairs fields;
      id = call.call_id;
      is_tool = true;
      is_return = false;
    })
    | positional args ↦ elim (prepare_kwargs_for_actuation_calls numbers call.name args) [
      | err e ↦ err e
      | ok kwargs ↦ ok (record {
        name = call.name;
        kwargs = kwargs;
        id = call.call_id;
        is_tool = false;
        is_return = false;
      })
    ]
  ]

  unfoldable pub to_sdk_calls : List (ServiceCall F) → Result (List (Call (Value F)))
  unfolding to_sdk_call
  to_sdk_calls [] = ok []
  to_sdk_calls (call ∷ calls) =
      let rest = to_sdk_calls calls in
      elim (to_sdk_call call) [
        | err e ↦ err e
        | ok c ↦ elim rest [ err e ↦ err e | ok cs ↦ ok (c ∷ cs) ]
      ]

  abbrev pub quoted : Value F → Text
  unfolding to_text
  quoted (str s) = text "\"" ++ (s ++ text "\"")
  quoted v = to_text numbers v

  abbrev pub awl_call : Text → ServiceInput F → Text
  unfolding quoted join_by
  awl_call name (positional args) =
      name ++ (text "(" ++ (join_by (text ", ") (map quoted args) ++ text ");"))
  awl_call name (named fields) =
      text "tool({\"name\": \""
      ++ (name ++ (text "\", \"input\": " ++ (client.dumps (obj fields) ++ text "});")))

  unfoldable pub awl_calls : List (ServiceCall F) → List Text
  unfolding awl_call text_eq
  awl_calls [] = []
  awl_calls (call ∷ calls) =
      let rest = awl_calls calls in
      if text_eq call.name (text "initiateAct")
        || (text_eq call.name (text "waitForPageToSettle")
            || text_eq call.name (text "takeObservation"))
      then rest
      else awl_call call.name call.input ∷ rest

  -- `_calls_to_awl_program`.
  unfoldable pub calls_to_awl_program : List (ServiceCall F) → Text
  unfolding awl_calls join_by
  calls_to_awl_program calls = join_by newline (awl_calls calls)

  -- An entry of the observation.
  unfoldable pub entry : Value F → Text → M S Text
  unfolding ◌>>=◌ item to_text
  entry observation key = lift (item observation key) >>= λ v. pure (to_text numbers v)

module _ {S F : Type 0} (numbers : Numbers F) (client : Client S F)
    (act : Act (Value F) (List (Value F))) (call_results : List (CallResult (Value F))) where
  unfoldable pub request_of : WorkflowRun → InvokeActStepRequest
  unfolding results_to_send from_sdk_call_result
  request_of workflow_run = record {
    workflow_definition_name = workflow_run.workflow_definition_name;
    workflow_run_id = workflow_run.workflow_run_id;
    session_id = act.session_id;
    act_id = act.id;
    call_results =
        map (from_sdk_call_result numbers client) (results_to_send act.act_steps call_results);
    previous_step_id = last_id (last? act.act_steps);
  }

  -- What follows the answer, with the states before and after the request.
  unfoldable pub step_of :
      Value F → S → InvokeActStepResponse F → M S (StepWithProgram (Value F) (List (Value F)))
  unfolding ◌>>=◌ to_sdk_calls entry calls_to_awl_program results_to_send validate with_program
  step_of observation before response after =
      (lift (to_sdk_calls numbers client response.calls) >>= λ program.
      entry numbers client observation (text "screenshotBase64") >>= λ image.
      entry numbers client observation (text "activeURL") >>= λ active_url.
      entry numbers client observation (text "simplifiedDOM") >>= λ simplified_dom.
      lift (
        validate (record {
          model_input = record {
            image = image;
            prompt = act.prompt;
            active_url = active_url;
            simplified_dom = simplified_dom;
            call_results = some (results_to_send act.act_steps call_results);
          };
          model_output = record {
            awl_raw_program = or_error (calls_to_awl_program numbers client response.calls);
            request_id = [];
            program_ast = [];
          };
          observed_time = client.now after;
          server_time_s = some (client.elapsed before after);
          step_id = some response.step_id;
        }))
      >>= λ step. pure (with_program step program))
        after

  unfoldable pub send : Value F → WorkflowRun → M S (StepWithProgram (Value F) (List (Value F)))
  unfolding ◌>>=◌ request_of step_of
  send observation workflow_run before =
      (client.invoke_act_step (request_of workflow_run) >>= step_of observation before) before

  abbrev pub with_context :
      Value F → Option WorkflowRun → M S (StepWithProgram (Value F) (List (Value F)))
  with_context observation none =
      raise (plain value_error (text "Act instance must contain workflow_run context"))
  with_context observation (some workflow_run) = send observation workflow_run

  -- `BurstBackend.step`.
  unfoldable pub step : Option WorkflowRun → M S (StepWithProgram (Value F) (List (Value F)))
  unfolding observation_of send
  step workflow_run =
      let observation = observation_of null call_results in
      if is_null observation
      then raise (plain value_error (text "No observation found in call_results"))
      else with_context observation workflow_run
