-- ===== src/Cli/Workflows/Refinement.antt =====
-- The methods as steps on a map from names to workflows, and the parts they are made of.
pub mod Methods
use nova_act.Prelude.{
  ◌≡◌, refl, sym, ap, ◌∙◌, Bool, false, Option, none, some, [], ◌∷◌, arith, Bool-cases, inl, inr,
  if◌then◌else◌,
}
use mathlib.Core.Path.{subst}
use nova_act.Prelude.Text.{
  Text, text_eq, text_eq_iff, text_eq→≡, Dict, lookup, insert, lookup-insert,
}
use nova_act.Errors.{Result, ok, err}
use nova_act.Effect.{M, ◌>>=◌, lift, pure, continue}
use nova_act.Cli.State.{RegionState, Contents, json, corrupted, get_region_state, stamped}
use nova_act.Cli.Names.{validate_workflow_name, construct_workflow_definition_arn}
use nova_act.Cli.Workflows.{
  WorkflowInfo, Env, Store, remove, on_workflows, load, written, save_region_state, written, update,
  get_workflow, validate_arn, save_workflow_to_state, create_workflow, alter,
  update_workflow_definition_arn, delete_workflow, update_deployment_state, deployed, is_found,
  Operation, create, set_arn, delete, deploy, perform, with_arn, new_workflow,
}
use nova_act.Cli.Workflows.Changes.{
  workflow_in, Keeps, lift-Keeps, get_workflow-Keeps, validate_arn-Keeps,
}

abbrev pub map_option : (WorkflowInfo → WorkflowInfo) → Option WorkflowInfo → Option WorkflowInfo
map_option f none = none
map_option f (some w) = some (f w)

-- What a method that returns does to the workflow of a name.
abbrev pub abstract_step : Env → Operation → Text → Option WorkflowInfo → Option WorkflowInfo
abstract_step env (create name none) j o =
    if text_eq name j
    then some
        (new_workflow env name (construct_workflow_definition_arn name env.region env.account_id))
    else o
abstract_step env (create name (some arn)) j o =
    if text_eq name j then some (new_workflow env name arn) else o
abstract_step env (set_arn name arn) j o = if text_eq name j then map_option (with_arn arn) o else o
abstract_step env (delete name) j o = if text_eq name j then none else o
abstract_step env (deploy name deployment source_dir build_dir) j o =
    if text_eq name j then map_option (deployed env deployment source_dir build_dir) o else o

-- Where the code returns, the workflow is what the step makes of it; where it raises, it is as it was.
abbrev pub Outcome :
    {A : Type 0}
    → Text
    → (Option WorkflowInfo → Option WorkflowInfo)
    → Store
    → Result A × Store
    → Type 0
Outcome j g before (ok a, after) =
    workflow_in j after.state_file ≡ g (workflow_in j before.state_file)
Outcome j g before (err e, after) = workflow_in j after.state_file ≡ workflow_in j before.state_file

pub lookup-remove :
    {V : Type 0} (k j : Text) (m : Dict V)
    → lookup j (remove k m) ≡ (if text_eq k j then none else lookup j m)
unfolding lookup remove
lookup-remove k j [] = ground arith
lookup-remove k j ((i, v) ∷ m) =
    ground (arith, text_eq_iff k j, text_eq_iff i k, text_eq_iff i j, lookup-remove k j m)

pub lookup-alter :
    (k j : Text) (f : WorkflowInfo → WorkflowInfo) (m : Dict WorkflowInfo)
    → lookup j (alter k f m) ≡ (if text_eq k j then map_option f (lookup j m) else lookup j m)
unfolding alter
lookup-alter k j f m = altered (lookup k m) refl
  where
    altered :
        (o : Option WorkflowInfo)
        → lookup k m ≡ o
        → lookup j (elim o as (λ _. Dict WorkflowInfo) [ none ↦ m | some w ↦ insert k (f w) m ])
          ≡ (if text_eq k j then map_option f (lookup j m) else lookup j m)
    altered none e = elim (Bool-cases (text_eq k j)) [
      | inl y ↦ rw (y, sym (ap (λ t. lookup t m) (text_eq→≡ k j y)), e) refl
      | inr n ↦ rw n refl
    ]
    altered (some w) e = elim (Bool-cases (text_eq k j)) [
      | inl y ↦
          lookup-insert k j (f w) m ∙ rw (y, sym (ap (λ t. lookup t m) (text_eq→≡ k j y)), e) refl
      | inr n ↦ lookup-insert k j (f w) m ∙ rw n refl
    ]

module _ (env : Env) (j : Text) where
  abbrev pub Steps : {A : Type 0} → (Option WorkflowInfo → Option WorkflowInfo) → M Store A → Type 0
  Steps g m = (files : Store) → Outcome j g files (m files)

  -- A step counts from any state with the same workflow.
  rebase :
      {B : Type 0} (g : Option WorkflowInfo → Option WorkflowInfo) (old new : Store)
      (out : Result B × Store)
      → workflow_in j new.state_file ≡ workflow_in j old.state_file
      → Outcome j g new out
      → Outcome j g old out
  rebase g old new (ok b, after) k o = o ∙ ap g k
  rebase g old new (err e, after) k o = o ∙ k

  continue-Outcome :
      {A B : Type 0} (g : Option WorkflowInfo → Option WorkflowInfo) (f : A → M Store B)
      (files : Store)
      → ((a : A) → Steps g (f a))
      → (out : Result A × Store) → workflow_in j out.1.state_file ≡ workflow_in j files.state_file
      → Outcome j g files (continue f out)
  continue-Outcome g f files h (ok a, after) k = rebase g files after (f a after) k (h a after)
  continue-Outcome g f files h (err e, after) k = k

  -- First code that keeps the workflow, then a step.
  pub kept_first :
      {A B : Type 0} (g : Option WorkflowInfo → Option WorkflowInfo) (m : M Store A)
      (f : A → M Store B)
      → Keeps env j m
      → ((a : A) → Steps g (f a))
      → Steps g (m >>= f)
  unfolding ◌>>=◌
  kept_first g m f k h files = continue-Outcome g f files h (m files) (k files)

  valued :
      {A B : Type 0} (g : Option WorkflowInfo → Option WorkflowInfo) (files : Store) (b : B)
      (out : Result A × Store)
      → Outcome j g files out
      → Outcome j g files (continue (λ _. pure b) out)
  unfolding pure
  valued g files b (ok a, after) o = o
  valued g files b (err e, after) o = o

  -- A step, then a value.
  pub Steps-pure :
      {A B : Type 0} (g : Option WorkflowInfo → Option WorkflowInfo) (m : M Store A) (b : B)
      → Steps g m
      → Steps g (m >>= λ _. pure b)
  unfolding ◌>>=◌
  Steps-pure g m b h files = valued g files b (m files) (h files)

  written-Outcome :
      (g : Option WorkflowInfo → Option WorkflowInfo) (state : RegionState WorkflowInfo)
      (files : Store) (r : Result Unit)
      → lookup j state.workflows ≡ g (workflow_in j files.state_file)
      → Outcome j g files (written env state files r)
  unfolding written workflow_in
  written-Outcome g state files (ok u) h = h
  written-Outcome g state files (err e) h = refl

  pub save-Outcome :
      (g : Option WorkflowInfo → Option WorkflowInfo) (state : RegionState WorkflowInfo)
      (files : Store)
      → lookup j state.workflows ≡ g (workflow_in j files.state_file)
      → Outcome j g files (save_region_state env state files)
  unfolding save_region_state
  save-Outcome g state files h = elim (Bool-cases files.lock_file) [
    | inl e ↦ rw e refl
    | inr n ↦ rw n (written-Outcome g (stamped WorkflowInfo env.now state) files _ h)
  ]

  -- What follows a load is a step, if it is one for a state that holds the workflow.
  pub loaded-Steps :
      (g : Option WorkflowInfo → Option WorkflowInfo) (f : RegionState WorkflowInfo → M Store Unit)
      → ((state : RegionState WorkflowInfo) (files : Store)
          → lookup j state.workflows ≡ workflow_in j files.state_file
          → Outcome j g files (f state files))
      → Steps g (load env >>= f)
  unfolding ◌>>=◌ load get_region_state workflow_in lookup
  loaded-Steps g f h files = go files.lock_file files.state_file
    where
      go :
          (l : Bool) (c : Option (Contents WorkflowInfo))
          → Outcome j g
              (record { lock_file = l; state_file = c })
              ((load env >>= f) (record { lock_file = l; state_file = c }))
      go l none = h _ (record { lock_file = l; state_file = none }) refl
      go l (some (json state)) =
          h state (record { lock_file = l; state_file = some (json state) }) refl
      go l (some corrupted) = refl

  pub update-Steps :
      (g : Option WorkflowInfo → Option WorkflowInfo)
      (change : Dict WorkflowInfo → Dict WorkflowInfo)
      → ((m : Dict WorkflowInfo) → lookup j (change m) ≡ g (lookup j m))
      → Steps g (update env (on_workflows change))
  unfolding update on_workflows
  update-Steps g change h =
      loaded-Steps g (λ state. save_region_state env (on_workflows change state))
        (λ state files e.
          save-Outcome g (on_workflows change state) files (h state.workflows ∙ ap g e))
