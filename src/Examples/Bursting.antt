-- ===== src/Examples/Bursting.antt =====
-- A step over a service that counts the requests that it gets.
use nova_act.Prelude.{ℕ, ◌≡◌, refl, ◌-◌, suc, some, [], ◌∷◌}
use nova_act.Prelude.Text.{text}
use nova_act.Errors.{ok}
use nova_act.Json.{null, is_null}
use nova_act.Workflow.{WorkflowRun}
use nova_act.Backends.Burst.{Client, positional, observation_of, step}
use nova_act.Backends.Burst.Requests.{IsSent, step-IsSent}
use nova_act.Examples.Interpreting.{numbers}
use nova_act.Examples.Serving.{act, results}

abbrev client : Client ℕ ℕ
client = record {
  dumps = λ v. text "{}";
  describe = λ e. e.message;
  invoke_act_step = λ request requests. (
    ok (record {
      calls = record { call_id = text "c"; input = positional []; name = text "return" } ∷ [];
      step_id = text "u";
    }),
    suc requests,
  );
  elapsed = λ before after. after - before;
  now = λ requests. 7;
}

abbrev workflow_run : WorkflowRun
workflow_run = record { workflow_definition_name = text "orders"; workflow_run_id = text "1" }

step-IsSent_example :
    IsSent client act results
      (is_null (observation_of null results))
      (some workflow_run)
      0
      (step numbers client act results (some workflow_run) 0)
step-IsSent_example = step-IsSent numbers client act results (some workflow_run) 0

requested_once : (step numbers client act results (some workflow_run) 0).1 ≡ 1
unfolding step
requested_once = refl
