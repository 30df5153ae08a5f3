-- ===== src/Examples/Managing.antt =====
-- A workflow over an account that only keeps a list of runs.
use nova_act.Prelude.{◌≡◌, refl, sym, ap, ◌∙◌, true, false, none, some, [], ◌∷◌}
use nova_act.Prelude.Text.{Text, text}
use nova_act.Errors.{Result, ok, err, plain}
use nova_act.Errors.Classes.{runtime_error}
use nova_act.Workflow.{
  WorkflowRunStatus, starburst, failed, WorkflowRun, Workflow, WorkflowOptions, Service, Context,
  Body, default_boto_session_kwargs, initialize_backend, with_workflow, decorated,
}
use nova_act.Workflow.Authentication.{IsChosen, initialize_backend-IsChosen}
use nova_act.Workflow.Runs.{Runs, set_status, decorated-current_workflow, with_workflow-IsStatus}

abbrev first_run : WorkflowRun
first_run = record { workflow_definition_name = text "orders"; workflow_run_id = text "1" }

abbrev account : Service Runs
account = record {
  has_env_api_key = false;
  has_any_aws_credentials = true;
  make_backend = λ backend. ok tt;
  create_workflow_run = λ workflow runs. (ok first_run, (text "1", none) ∷ runs);
  update_workflow_run =
      λ backend run status runs. (ok tt, set_status run.workflow_run_id status runs);
}

abbrev orders : Workflow
orders = record {
  workflow_definition_name = text "orders";
  log_group_name = none;
  backend = starburst default_boto_session_kwargs;
  model_id = text "nova-act-latest";
  workflow_run = none;
}

abbrev orders_options : WorkflowOptions
orders_options = record {
  model_id = text "nova-act-latest";
  boto_session_kwargs = none;
  workflow_definition_name = some (text "orders");
  log_group_name = none;
  nova_act_api_key = none;
}

abbrev nothing_yet : Context Runs
nothing_yet = record { world = []; current_workflow = none }

-- A function that raises, and sets another current workflow before.
abbrev crashing : Body Runs Text
crashing context =
    (err (plain runtime_error (text "crash")), record context { current_workflow = some orders })

decorated-current_workflow_example :
    (decorated account orders_options crashing nothing_yet).1.current_workflow ≡ none
decorated-current_workflow_example =
    decorated-current_workflow account orders_options crashing nothing_yet

run_id : Result WorkflowRun → Text
run_id (ok run) = run.workflow_run_id
run_id (err e) = []

recorded :
    (workflow : Workflow) (s s' : Runs) (run : WorkflowRun)
    → account.create_workflow_run workflow s ≡ (ok run, s')
    → s' ≡ (run.workflow_run_id, none) ∷ s
unfolding run_id
recorded workflow s s' run e = sym (ap (λ out. out.1) e) ∙ ap (λ out. (run_id out.0, none) ∷ s) e

with_workflow-IsStatus_example :
    ((with_workflow account orders (λ workflow. crashing) nothing_yet).0
      ≡ err (plain runtime_error (text "crash")))
    × ((status : WorkflowRunStatus) × (status ≡ failed)
        × ((with_workflow account orders (λ workflow. crashing) nothing_yet).1.world
            ≡ (text "1", some status) ∷ []))
with_workflow-IsStatus_example =
    with_workflow-IsStatus account (λ runs. runs) recorded (λ backend run status s. (refl, refl))
      orders (λ workflow. crashing) nothing_yet first_run ((text "1", none) ∷ []) refl refl

chosen :
    initialize_backend account none none (some (text "orders"))
    ≡ ok (text "orders", starburst default_boto_session_kwargs)
unfolding initialize_backend
chosen = refl

initialize_backend-IsChosen_example :
    IsChosen account none none
      (some (text "orders"))
      (text "orders")
      (starburst default_boto_session_kwargs)
initialize_backend-IsChosen_example =
    initialize_backend-IsChosen account none none (some (text "orders")) (text "orders")
      (starburst default_boto_session_kwargs) chosen
