-- ===== src/Workflow.antt =====
-- src/nova_act/types/workflow.py: the choice of a backend, the context of a workflow run and the
-- decorator. The constructors of boto3's Session and of the backends, and the requests that create
-- and update a run, are parameters. Log lines are left out.
pub mod Runs
pub mod Authentication
use nova_act.Prelude.{Bool, true, false, Option, none, some, List, [], ◌∷◌, if◌then◌else◌}
use nova_act.Prelude.Text.{Text, text, Dict}
use nova_act.Errors.{Exn, Result, ok, err, plain}
use nova_act.Errors.Classes.{auth_error, value_error}
use nova_act.Fallible.{◌>>=◌}

-- `Session(**kwargs)` for the AWS service, or an API key for nova.amazon.com.
pub data WorkflowBackend : Type 0 where
  starburst : Dict Text → WorkflowBackend
  sunburst : Text → WorkflowBackend

pub data WorkflowRunStatus : Type 0 where
  succeeded failed : WorkflowRunStatus

pub record WorkflowRun : Type 0 where
  pub workflow_definition_name : Text
  pub workflow_run_id : Text

pub record Workflow : Type 0 where
  pub workflow_definition_name : Text
  pub log_group_name : Option Text
  pub backend : WorkflowBackend
  pub model_id : Text
  pub workflow_run : Option WorkflowRun

-- The arguments of `Workflow` and of the decorator.
pub record WorkflowOptions : Type 0 where
  pub model_id : Text
  pub boto_session_kwargs : Option (Dict Text)
  pub workflow_definition_name : Option Text
  pub log_group_name : Option Text
  pub nova_act_api_key : Option Text

pub record Service (S : Type 0) : Type 0 where
  pub has_env_api_key : Bool
  pub has_any_aws_credentials : Bool
  pub make_backend : WorkflowBackend → Result Unit
  pub create_workflow_run : Workflow → S → Result WorkflowRun × S
  pub update_workflow_run : WorkflowBackend → WorkflowRun → WorkflowRunStatus → S → Result Unit × S

-- What the code changes: the world, and the current workflow of the context.
pub record Context (S : Type 0) : Type 0 where
  pub world : S
  pub current_workflow : Option Workflow

abbrev pub default_boto_session_kwargs : Dict Text
default_boto_session_kwargs = (text "region_name", text "us-east-1") ∷ []

abbrev pub default_workflow_defn_name : Text
default_workflow_defn_name = text "default"

-- `boto_session_kwargs or DEFAULT_BOTO_SESSION_KWARGS`.
abbrev pub session_kwargs : Option (Dict Text) → Dict Text
session_kwargs none = default_boto_session_kwargs
session_kwargs (some []) = default_boto_session_kwargs
session_kwargs (some (kv ∷ kwargs)) = kv ∷ kwargs

abbrev pub auth_failure : Text → Result Unit
auth_failure message = err (plain auth_error message)

abbrev pub status_of : {A : Type 0} → Result A → WorkflowRunStatus
status_of (ok a) = succeeded
status_of (err e) = failed

-- Code under `with` and the decorator.
abbrev pub Body : Type 0 → Type 0 → Type 0
Body S A = Context S → Result A × Context S

module _ {S : Type 0} (service : Service S) where
  -- The first part of `_initialize_backend`: one way to authenticate, and not by accident.
  unfoldable pub check_authentication : Option (Dict Text) → Option Text → Result Unit
  check_authentication (some kwargs) (some key) =
      auth_failure (text "Cannot provide both boto_session_kwargs and nova_act_api_key")
  check_authentication none none =
      if service.has_env_api_key
      then auth_failure (text "NOVA_ACT_API_KEY is set")
      else if service.has_any_aws_credentials
      then ok tt
      else auth_failure (text "Authentication failed")
  check_authentication none (some key) = ok tt
  check_authentication (some kwargs) none = ok tt

  unfoldable pub made : Text → WorkflowBackend → Result (Text × WorkflowBackend)
  made name backend = service.make_backend backend >>= λ _. ok (name, backend)

  unfoldable pub make :
      Option (Dict Text) → Option Text → Option Text → Result (Text × WorkflowBackend)
  unfolding made
  make kwargs none none =
      err (plain value_error (text "workflow_definition_name is required in Workflow definition"))
  make kwargs none (some name) = made name (starburst (session_kwargs kwargs))
  make kwargs (some key) name = made default_workflow_defn_name (sunburst key)

  -- `_initialize_backend`.
  unfoldable pub initialize_backend :
      Option (Dict Text) → Option Text → Option Text → Result (Text × WorkflowBackend)
  unfolding check_authentication make
  initialize_backend kwargs key name = check_authentication kwargs key >>= λ _. make kwargs key name

  -- `Workflow.__init__`.
  unfoldable pub new_workflow : WorkflowOptions → Result Workflow
  unfolding initialize_backend
  new_workflow options =
      initialize_backend options.boto_session_kwargs options.nova_act_api_key
        options.workflow_definition_name
      >>= λ chosen. ok (record {
        workflow_definition_name = chosen.0;
        log_group_name = options.log_group_name;
        backend = chosen.1;
        model_id = options.model_id;
        workflow_run = none;
      })

  abbrev pub with_run : Option WorkflowRun → Workflow → Workflow
  with_run run workflow = record workflow { workflow_run = run }

  -- `__exit__`: the workflow has no run afterwards, even if the update raises.
  unfoldable pub exit :
      Workflow → WorkflowRunStatus → Context S → Result Unit × (Workflow × Context S)
  exit workflow status context = elim workflow.workflow_run [
    | none ↦ (ok tt, (with_run none workflow, context))
    | some run ↦
        let out = service.update_workflow_run workflow.backend run status context.world in
        (out.0, (with_run none workflow, record context { world = out.1 }))
  ]

  -- What leaves the `with` statement: an error of the update hides the result.
  abbrev pub leave :
      {A : Type 0} → Result A → Result Unit × (Workflow × Context S) → Result A × Context S
  leave r (ok u, (workflow, context)) = (r, context)
  leave r (err e, (workflow, context)) = (err e, context)

  unfoldable pub entered :
      {A : Type 0}
      → Workflow
      → (Workflow → Body S A)
      → Context S
      → Result WorkflowRun × S
      → Result A × Context S
  unfolding exit
  entered workflow body context (err e, world) = (err e, record context { world = world })
  entered workflow body context (ok run, world) =
      let out = body (with_run (some run) workflow) (record context { world = world }) in
      leave out.0 (exit (with_run (some run) workflow) (status_of out.0) out.1)

  -- `with workflow as workflow: body`.
  unfoldable pub with_workflow : {A : Type 0} → Workflow → (Workflow → Body S A) → Body S A
  unfolding entered
  with_workflow workflow body context =
      entered workflow body context (service.create_workflow_run workflow context.world)

  -- The body of the decorator's wrapper: the function runs with the workflow as the current one.
  unfoldable pub as_current : {A : Type 0} → Body S A → Workflow → Body S A
  as_current f workflow context =
      let out = f (record context { current_workflow = some workflow }) in
      (out.0, record (out.1) { current_workflow = context.current_workflow })

  -- A function under the decorator.
  unfoldable pub decorated : {A : Type 0} → WorkflowOptions → Body S A → Body S A
  unfolding new_workflow with_workflow as_current
  decorated options f context = elim (new_workflow options) [
    | err e ↦ (err e, context)
    | ok workflow ↦ with_workflow workflow (as_current f) context
  ]
