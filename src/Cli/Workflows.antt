-- ===== src/Cli/Workflows.antt =====
-- src/nova_act/cli/workflow/workflow_manager.py: the methods that change the workflows of an account
-- and region, by one process; State says what several do. The answers of AWS, the clock, a write that
-- fails and the resolution of a path are parameters.
pub mod Changes
pub mod Refinement
use nova_act.Prelude.{ℕ, Bool, true, false, Option, none, some, List, [], ◌∷◌, if◌then◌else◌}
use nova_act.Prelude.Text.{Text, text, text_eq, Dict, lookup, insert}
use nova_act.Errors.{Exn, Result, ok, err, plain}
use nova_act.Errors.Classes.{workflow_error}
use nova_act.Effect.{M, ◌>>=◌, ◌>>◌, lift, pure}
use nova_act.Cli.State.{RegionState, Contents, json, Files, get_region_state, stamped, failed}
use nova_act.Cli.Names.{
  validate_workflow_name, construct_workflow_definition_arn, validate_workflow_name_matches_arn,
}

pub record AgentCoreDeployment : Type 0 where
  pub deployment_arn : Text
  pub image_uri : Text
  pub image_tag : Text

pub record WorkflowInfo : Type 0 where
  pub name : Text
  pub directory_path : Text
  pub created_at : ℕ
  pub workflow_definition_arn : Option Text
  pub agentcore : Option AgentCoreDeployment
  pub metadata : Option (Dict Text)
  pub last_image_tag : Option Text

-- `del workflows[name]`: no entry of the name is left.
unfoldable pub remove : {V : Type 0} → Text → Dict V → Dict V
unfolding text_eq
remove k [] = []
remove k ((j, v) ∷ m) = let rest = remove k m in if text_eq j k then rest else (j, v) ∷ rest

abbrev pub Change : Type 0
Change = RegionState WorkflowInfo → RegionState WorkflowInfo

unfoldable pub on_workflows : (Dict WorkflowInfo → Dict WorkflowInfo) → Change
on_workflows f state = record {
  workflows = f state.workflows;
  last_updated = state.last_updated;
  version = state.version;
}

pub record Env : Type 0 where
  pub region : Text
  pub account_id : Text
  pub now : ℕ
  pub get_workflow_definition : Text → Result Unit
  pub write : RegionState WorkflowInfo → Result Unit
  pub resolve : Text → Text

abbrev pub Store : Type 0
Store = Files WorkflowInfo

abbrev pub found : Text → Option WorkflowInfo → Result WorkflowInfo
found name none = err (plain workflow_error (text "Workflow Not Found"))
found name (some workflow) = ok workflow

abbrev not_in_aws : Result Unit → Result Unit
not_in_aws (ok u) = ok tt
not_in_aws (err e) = err (plain workflow_error (text "WorkflowDefinition does not exist in AWS"))

-- The workflow of the name is changed in its place.
unfoldable pub alter : Text → (WorkflowInfo → WorkflowInfo) → Dict WorkflowInfo → Dict WorkflowInfo
unfolding lookup insert
alter name f workflows = elim (lookup name workflows) [
  | none ↦ workflows
  | some workflow ↦ insert name (f workflow) workflows
]

abbrev pub with_arn : Text → WorkflowInfo → WorkflowInfo
with_arn arn w = record {
  name = w.name;
  directory_path = w.directory_path;
  created_at = w.created_at;
  workflow_definition_arn = some arn;
  agentcore = w.agentcore;
  metadata = w.metadata;
  last_image_tag = w.last_image_tag;
}

abbrev is_given : Option Text → Bool
is_given none = false
is_given (some []) = false
is_given (some (c ∷ s)) = true

abbrev is_found : Option WorkflowInfo → Bool
is_found none = false
is_found (some w) = true

module _ (env : Env) where
  unfoldable pub load : M Store (RegionState WorkflowInfo)
  unfolding get_region_state
  load files = (get_region_state WorkflowInfo env.now files.state_file, files)

  -- What is left when the file was written, or not; the lock is free again.
  written : RegionState WorkflowInfo → Store → Result Unit → Result Unit × Store
  written state files (ok u) = (ok tt, record { lock_file = false; state_file = some (json state) })
  written state files (err e) =
      (failed WorkflowInfo e.message, record { lock_file = false; state_file = files.state_file })

  -- `save_region_state`. A lock file that is there stays for the whole wait.
  unfoldable pub save_region_state : RegionState WorkflowInfo → M Store Unit
  unfolding written
  save_region_state state files =
      if files.lock_file
      then (failed WorkflowInfo (text "Could not acquire lock"), files)
      else written (stamped WorkflowInfo env.now state) files
          (env.write (stamped WorkflowInfo env.now state))

  -- Loading, changing and saving, as the methods do it.
  unfoldable pub update : Change → M Store Unit
  unfolding ◌>>=◌ load save_region_state
  update change = load >>= λ state. save_region_state (change state)

  -- `get_workflow`, and `_validate_workflow_exists` where the value is not used.
  unfoldable pub get_workflow : Text → M Store WorkflowInfo
  unfolding ◌>>=◌ load lookup
  get_workflow name = load >>= λ state. lift (found name (lookup name state.workflows))

  -- `_validate_workflow_name_matches_arn` and `_validate_workflow_definition_exists`.
  unfoldable pub validate_arn : Text → Text → M Store Unit
  unfolding ◌>>=◌ validate_workflow_name_matches_arn
  validate_arn name arn =
      lift (validate_workflow_name_matches_arn name arn)
      >> lift (not_in_aws (env.get_workflow_definition arn))

  abbrev pub new_workflow : Text → Text → WorkflowInfo
  new_workflow name arn = record {
    name = name;
    directory_path = [];
    created_at = env.now;
    workflow_definition_arn = some arn;
    agentcore = none;
    metadata = none;
    last_image_tag = none;
  }

  unfoldable pub save_workflow_to_state : Text → Text → M Store WorkflowInfo
  unfolding ◌>>=◌ update on_workflows insert
  save_workflow_to_state name arn =
      update (on_workflows (insert name (new_workflow name arn))) >> pure (new_workflow name arn)

  unfoldable pub create_workflow : Text → Option Text → M Store WorkflowInfo
  unfolding ◌>>=◌ validate_workflow_name validate_arn save_workflow_to_state
      construct_workflow_definition_arn
  create_workflow name none =
      lift (validate_workflow_name name)
      >> save_workflow_to_state name
          (construct_workflow_definition_arn name env.region env.account_id)
  create_workflow name (some arn) =
      lift (validate_workflow_name name)
      >> (validate_arn name arn >> save_workflow_to_state name arn)

  unfoldable pub update_workflow_definition_arn : Text → Text → M Store WorkflowInfo
  unfolding ◌>>=◌ get_workflow validate_arn update on_workflows alter
  update_workflow_definition_arn name arn = get_workflow name >>= λ workflow.
      validate_arn name arn
      >> (update (on_workflows (alter name (with_arn arn))) >> pure (with_arn arn workflow))

  unfoldable pub delete_workflow : Text → M Store Unit
  unfolding ◌>>=◌ get_workflow update on_workflows remove
  delete_workflow name = get_workflow name >> update (on_workflows (remove name))

  abbrev path_of : Option Text → Text
  path_of none = []
  path_of (some path) = env.resolve path

  -- The build directory goes before the source directory.
  unfoldable pub deployed :
      AgentCoreDeployment → Option Text → Option Text → WorkflowInfo → WorkflowInfo
  deployed deployment source_dir build_dir w = record {
    name = w.name;
    directory_path =
        if is_given build_dir
        then path_of build_dir
        else if is_given source_dir
        then path_of source_dir
        else w.directory_path;
    created_at = w.created_at;
    workflow_definition_arn = w.workflow_definition_arn;
    agentcore = some deployment;
    metadata = w.metadata;
    last_image_tag = some deployment.image_tag;
  }

  -- A workflow that is not found is logged, and nothing is saved.
  unfoldable pub update_deployment_state :
      Text → AgentCoreDeployment → Option Text → Option Text → M Store Unit
  unfolding ◌>>=◌ load save_region_state lookup on_workflows alter deployed
  update_deployment_state name deployment source_dir build_dir = load >>= λ state.
      if is_found (lookup name state.workflows)
      then save_region_state
          (on_workflows (alter name (deployed deployment source_dir build_dir)) state)
      else pure tt

-- The methods that change the workflows of an account and region.
pub data Operation : Type 0 where
  create : Text → Option Text → Operation
  set_arn : Text → Text → Operation
  delete : Text → Operation
  deploy : Text → AgentCoreDeployment → Option Text → Option Text → Operation

abbrev pub target : Operation → Text
target (create name arn) = name
target (set_arn name arn) = name
target (delete name) = name
target (deploy name deployment source_dir build_dir) = name

unfoldable pub perform : Env → Operation → M Store Unit
unfolding ◌>>=◌ create_workflow update_workflow_definition_arn delete_workflow
    update_deployment_state
perform env (create name arn) = create_workflow env name arn >> pure tt
perform env (set_arn name arn) = update_workflow_definition_arn env name arn >> pure tt
perform env (delete name) = delete_workflow env name
perform env (deploy name deployment source_dir build_dir) =
    update_deployment_state env name deployment source_dir build_dir
