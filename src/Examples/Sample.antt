-- ===== src/Examples/Sample.antt =====
-- A world that counts time, a few tools, and services over them.
use nova_act.Prelude.{ℕ, suc, Bool, true, false, none, some, [], ◌∷◌}
use nova_act.Prelude.Text.{Text, text, Dict}
use nova_act.Errors.{Result, ok, err, plain, act_exn}
use nova_act.Errors.Classes.{value_error, ui_takeover_canceled_error}
use nova_act.Effect.{M}
use nova_act.WaitTracker
use nova_act.Controller.{new_controller}
use nova_act.Compatibility.{Callable, Tool, decorated}
use nova_act.Program.{Call, CompiledCall, CallResult}
use nova_act.Step.{StepWithProgram}
use nova_act.Act.{Act}
use nova_act.Runner.{Env, GuardrailDecision, block, Actuator}
use nova_act.Dispatcher.{Services, State}

-- The world: the time, and whether the actuator's context is unlocked.
pub record World : Type 0 where
  pub time : ℕ
  pub unlocked : Bool

abbrev pub start : World
start = record { time = 1000; unlocked = false }

abbrev pub actuator : Actuator World
actuator = record {
  lock_context = λ w. (ok tt, record w { unlocked = false });
  unlock_context = λ w. (ok tt, record w { unlocked = true });
}

abbrev pub guardrail : Text → M World GuardrailDecision
guardrail url w = (ok block, w)

abbrev pub env : Env World Text
env = record {
  set_session_state = λ state w. w;
  send_event = λ event w. (ok tt, w);
  state_guardrail = some guardrail;
  actuator = some actuator;
  active_url = λ v. ok v;
  render_call = λ call. call.name;
  render_exn = λ e. e.message;
  null = [];
}

abbrev pub call : Text → Call Text
call name = record { name = name; kwargs = []; id = name; is_tool = false; is_return = false }

abbrev pub tool : (World → Result Text × World) → Callable World Text
tool f = record { requires_unlocked = false; invoke = λ kwargs. f }

abbrev pub answering : Text → Callable World Text
answering v = tool (λ w. (ok v, w))

abbrev pub failing : Callable World Text
failing = tool (λ w. (err (plain value_error (text "bad")), w))

-- A takeover by a human that is cancelled.
abbrev pub takeover : Callable World Text
takeover = record {
  requires_unlocked = true;
  invoke = λ kwargs w. (err (act_exn ui_takeover_canceled_error none), w);
}

abbrev pub compiled : Text → Callable World Text → CompiledCall Text (Callable World Text)
compiled name target = record { source = call name; target = target }

abbrev pub result : Text → Text → CallResult Text
result name v = record { call = call name; return_value = v; error = none }

abbrev pub model_step : StepWithProgram Text Unit
model_step = record {
  step = record {
    model_input = record {
      image = text "image";
      prompt = text "go";
      active_url = text "https://a";
      simplified_dom = [];
      call_results = none;
    };
    model_output = record { awl_raw_program = text "return"; request_id = []; program_ast = tt };
    observed_time = 0;
    server_time_s = some 5;
    step_id = none;
  };
  program = call (text "agentClick") ∷ [];
}

abbrev pub tools : Dict (Tool World Text)
tools =
    (text "agentClick", decorated (answering []))
    ∷ (text "waitForPageToSettle", decorated (answering []))
    ∷ (text "takeObservation", decorated (answering (text "https://a")))
    ∷ []

abbrev pub services : Services World Text Unit
services = record {
  runner = record env { state_guardrail = none };
  tool_map = tools;
  str = λ t. t;
  clock = λ w. (w.time, record w { time = suc w.time });
  sleep = λ w. w;
  wait_tracker = λ w. WaitTracker.initial;
  put_wait_tracker = λ t w. w;
  controller = λ w. new_controller false;
  put_controller = λ c w. w;
  meanwhile = λ w. [];
  put_screenshot = λ image w. w;
  screenshot_size = λ v. ok none;
  step = λ act results w. (ok model_step, w);
  logs_directory = λ w. none;
  format_return_value = λ v. v;
  response = λ v. some v;
  seconds = λ ms. [];
  send_result = λ r w. (ok tt, w);
}

abbrev pub act : Act Text Unit
act = record {
  id = text "1";
  prompt = text "go";
  session_id = text "s";
  timeout = 500;
  max_steps = 2;
  observation_delay_ms = none;
  ignore_screen_dims_check = false;
  replayable = false;
  start_time = 990;
  end_time = none;
  act_steps = [];
  result = none;
  is_complete = false;
  did_timeout = false;
}

abbrev pub state : State World Text Unit
state = record { world = start; act = act }
