-- ===== src/Examples/Serving.antt =====
-- Small answers of the service, and a step of the backend.
use nova_act.Prelude.{ℕ, suc, ◌≡◌, refl, ◌++◌, ◌||◌, true, false, none, some, [], ◌∷◌, List}
use nova_act.Prelude.Text.{text, lookup}
use nova_act.DecodeString.{safe_string}
use nova_act.Arguments.{apply_safe_string, action_of}
use nova_act.Json.Depth.{depth}
use nova_act.Errors.{Exn, ok, err, plain, isinstance, is_subclass}
use nova_act.Errors.Classes.{value_error, interpreter_error, act_invalid_model_generation_error}
use nova_act.Json.{Value, null, str, obj, end, is_null, items_of, fields_of}
use nova_act.Program.{Call, CallResult}
use nova_act.Step.{Step, StepWithProgram}
use nova_act.Act.{Act, metadata}
use nova_act.Ast.{new_call}
use nova_act.Interpreter.{interpret_ast}
use nova_act.Interpreter.Checked.{IsProgram}
use nova_act.Backends.ResponseErrors.{Response, translate_response_error}
use nova_act.Backends.ResponseErrors.Status.{Follows, translate-Matches}
use nova_act.Backends.ServiceErrors.{NovaActServiceError, translate_nova_act_service_error}
use nova_act.Backends.ServiceErrors.Carried.{IsCarried, translate-IsCarried}
use nova_act.Backends.Awl.{Service, step, trailing_calls, scan, nothing_found}
use nova_act.Backends.Awl.Steps.{IsWait, step_program, step_rejects}
use nova_act.Examples.Interpreting.{numbers, schemas, tool_map, statements, calls}

abbrev response : Response ℕ
response = record {
  status_code = 503;
  url = text "https://a";
  body = text "{}";
  json = some (obj end);
  request_id = none;
}

translate-Matches_example :
    Follows {F = ℕ} 503 (some (obj end)) (translate_response_error numbers response).exn.cls
translate-Matches_example = translate-Matches numbers response

abbrev service_error : NovaActServiceError ℕ
service_error = record {
  error_code = str (text "ThrottlingException");
  message = text "slow down";
  reason = [];
  status_code = null;
  raw_response = text "{}";
  request_id = str (text "r");
  field_list = [];
  resource_id = [];
  resource_type = [];
  service_code = [];
  quota_code = [];
  retry_after_seconds = null;
}

translate-IsCarried_example :
    IsCarried service_error (translate_nova_act_service_error numbers service_error)
translate-IsCarried_example = translate-IsCarried numbers service_error

-- The service answers with the same program each time.
abbrev answer : List (Value ℕ) → Step (Value ℕ) (List (Value ℕ))
answer ast = record {
  model_input = record {
    image = text "image";
    prompt = text "go";
    active_url = text "https://a";
    simplified_dom = [];
    call_results = none;
  };
  model_output = record { awl_raw_program = text "p"; request_id = []; program_ast = ast };
  observed_time = 0;
  server_time_s = none;
  step_id = none;
}

abbrev service : List (Value ℕ) → Service ℕ ℕ
service ast = record {
  awl_step = λ act observation error results w. (ok (answer ast), suc w);
  seconds = λ ms. ms;
}

abbrev pub act : Act (Value ℕ) (List (Value ℕ))
act = record {
  id = text "1";
  prompt = text "go";
  session_id = text "s";
  timeout = 60;
  max_steps = 30;
  observation_delay_ms = some 500;
  ignore_screen_dims_check = false;
  replayable = false;
  start_time = 0;
  end_time = none;
  act_steps = [];
  result = none;
  is_complete = false;
  did_timeout = false;
}

abbrev pub results : List (CallResult (Value ℕ))
results =
    record {
      call = new_call (text "takeObservation") [];
      return_value = str (text "page");
      error = none;
    }
    ∷ []

abbrev next : StepWithProgram (Value ℕ) (List (Value ℕ))
next = record {
  step = answer statements;
  program = calls ++ trailing_calls numbers schemas (service statements) none tool_map act;
}

stepped : step numbers schemas (service statements) none tool_map act results 0 ≡ (ok next, 1)
unfolding step interpret_ast items_of fields_of lookup apply_safe_string safe_string depth action_of
stepped = refl

step_program_example :
    (cs : List (Call (Value ℕ))) × IsProgram schemas tool_map cs
    × (waits : List (Call (Value ℕ))) × IsWait (service statements) (some 500) waits
    × (next.program
        ≡ cs
          ++ (waits
              ++ (new_call (text "waitForPageToSettle") []
                  ∷ new_call (text "takeObservation") []
                  ∷ [])))
step_program_example =
    step_program numbers schemas (service statements) none tool_map act results 0 1 next stepped

-- A program without statements is a ValueError of the interpreter.
abbrev no_action : Exn
no_action = plain value_error (text "No action found in the program")

observed : is_null (scan results nothing_found).observation ≡ false
unfolding scan
observed = refl

unreadable : interpret_ast numbers schemas [] tool_map ≡ err no_action
unfolding interpret_ast
unreadable = refl

own_error : (isinstance no_action interpreter_error || isinstance no_action value_error) ≡ true
unfolding isinstance is_subclass plain
own_error = refl

step_rejects_example :
    (x : Exn) × (step numbers schemas (service []) none tool_map act results 0 ≡ (err x, 1))
    × (isinstance x act_invalid_model_generation_error ≡ true)
    × (x.metadata ≡ some (metadata none act))
step_rejects_example =
    step_rejects numbers schemas (service []) none tool_map act results 0 1 (answer []) no_action
      observed refl unreadable own_error
